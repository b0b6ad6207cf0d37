-- ===== src/CloudClient/Client/Keys.antt =====
-- components/switchbot_keypad_bridge/cloud_client.cpp: the communication key of a keypad.
use switchbot_keypad_bridge.Common.{
  ◌≡◌, refl, Bool, true, false, Option, none, some, List, [], ◌==◌, if◌then◌else◌, ==_iff, length,
  All, Bytes, IsByte, text,
}
use switchbot_keypad_bridge.CloudClient.Cjson.{Cjson, Envelope, check_envelope}
use switchbot_keypad_bridge.CloudClient.Hex.{parse_hex_string}
use switchbot_keypad_bridge.CloudClient.Hex.RoundTrip.{parse_hex_string-IsByte}
use switchbot_keypad_bridge.CloudClient.Post.{Exchange, HttpRequest, Answer, ok, error}
use switchbot_keypad_bridge.CloudClient.Client.{
  CloudClient, is_logged_in, Call, KeypadKey, sized_key, key_texts, key_in, checked_key, key_of,
  fetch_keypad_key,
}

-- A key is 16 bytes.
abbrev pub SizedKey : Answer KeypadKey → Type 0
SizedKey (error msg) = Unit
SizedKey (ok (key_id, key)) = (length key ≡ 16) × All IsByte key

if_sized :
    (b : Bool) (key_id key : Bytes)
    → (b ≡ true → length key ≡ 16)
    → All IsByte key
    → SizedKey
        (if b then ok (key_id, key) else error (text "communicate returned a malformed AES key"))
if_sized true key_id key h bytes = (h refl, bytes)
if_sized false key_id key h bytes = tt

if_object :
    (b : Bool) (answer : Answer KeypadKey)
    → SizedKey answer
    → SizedKey (if b then answer else error (text "communicate response missing communicationKey"))
if_object true answer h = h
if_object false answer h = tt

if_session :
    (b : Bool) (c : CloudClient) (sent : List HttpRequest) (answer : Answer KeypadKey)
    → SizedKey answer
    → let r : Call KeypadKey =
        if b then (sent, answer, c) else ([], error (text "Not logged in"), c) in
      SizedKey r.1 × (r.2 ≡ c) × (b ≡ false → (r.0 ≡ []) × (r.1 ≡ error (text "Not logged in")))
if_session true c sent answer h = (h, refl, λ e. cc)
if_session false c sent answer h = (tt, refl, λ e. (refl, refl))

sized_key-SizedKey :
    (key_id hex : Bytes) (o : Option Bytes)
    → parse_hex_string hex ≡ o
    → SizedKey (sized_key key_id o)
sized_key-SizedKey key_id hex none e = tt
sized_key-SizedKey key_id hex (some key) e =
    if_sized (length key == 16) key_id key (λ h. (==_iff _ _).0 h)
      (parse_hex_string-IsByte hex key e)

key_texts-SizedKey : (key_id key : Option Bytes) → SizedKey (key_texts key_id key)
key_texts-SizedKey none none = tt
key_texts-SizedKey none (some key) = tt
key_texts-SizedKey (some key_id) none = tt
key_texts-SizedKey (some key_id) (some key) = sized_key-SizedKey key_id key _ refl

module _ (cjson : Cjson) where
  key_in-SizedKey : (o : Option cjson.Node) → SizedKey (key_in cjson o)
  key_in-SizedKey none = tt
  key_in-SizedKey (some node) = if_object (cjson.is_object node) _ (key_texts-SizedKey _ _)

  checked_key-SizedKey : (r : Option Bytes × Envelope cjson) → SizedKey (checked_key cjson r)
  checked_key-SizedKey (some msg, env) = tt
  checked_key-SizedKey (none, env) = key_in-SizedKey _

  key_of-SizedKey : (answer : Answer Bytes) → SizedKey (key_of cjson answer)
  unfolding key_of
  key_of-SizedKey (error msg) = tt
  key_of-SizedKey (ok raw) = checked_key-SizedKey (
      check_envelope cjson (text "communicate response was not valid JSON")
        (text "communicate rejected") raw)

  -- A key that was fetched has 16 bytes, whatever the answer holds, and the request for it leaves the client as
  -- it was. Without a session there is no request, and no key.
  pub fetch_keypad_key-SizedKey :
      (mac : Bytes) (ex : Exchange) (c : CloudClient)
      → let (sent, answer, c') = fetch_keypad_key cjson mac ex c in
        SizedKey answer
        × (c' ≡ c)
        × (is_logged_in c ≡ false → (sent ≡ []) × (answer ≡ error (text "Not logged in")))
  unfolding fetch_keypad_key
  fetch_keypad_key-SizedKey mac ex c = if_session (is_logged_in c) c _ _ (key_of-SizedKey _)
