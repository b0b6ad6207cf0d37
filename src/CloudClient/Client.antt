-- ===== src/CloudClient/Client.antt =====
-- components/switchbot_keypad_bridge/cloud_client.h and cloud_client.cpp: the client's state and its calls.
pub mod SignIn
pub mod Devices
pub mod Keys
use switchbot_keypad_bridge.Common.{
  Bool, not, ◌&&◌, Option, none, some, List, [], ◌∷◌, ◌++◌, ◌==◌, if◌then◌else◌, length, is_nil,
  Bytes, text,
}
use switchbot_keypad_bridge.MacUtils.{compact_mac, pretty_mac}
use switchbot_keypad_bridge.CloudClient.Cjson.{
  Cjson, text_or, text?, Envelope, open_envelope, is_ok, body_item, check_envelope,
}
use switchbot_keypad_bridge.CloudClient.Hex.{parse_hex_string}
use switchbot_keypad_bridge.CloudClient.Post.{Exchange, HttpRequest, Answer, post_json, ok, error}

pub record AccountDevice : Type 0 where
  pub mac : Bytes
  pub mac_pretty : Bytes
  pub name : Bytes

pub record CloudClient : Type 0 where
  pub auth_token : Bytes
  pub region : Bytes
  pub devices_cache : List AccountDevice

-- `clear`, and the state at the start.
abbrev pub signed_out : CloudClient
signed_out = record { auth_token = []; region = []; devices_cache = [] }

abbrev pub is_logged_in : CloudClient → Bool
is_logged_in c = not (is_nil c.auth_token)

-- A call's requests, its answer and the client after it.
abbrev pub Call : Type 0 → Type 0
Call A = List HttpRequest × Answer A × CloudClient

abbrev pub account_base : Bytes
account_base = text "https://account.api.switchbot.net"

unfoldable pub wonderlabs_base : CloudClient → Bytes
wonderlabs_base c =
    text "https://wonderlabs."
    ++ ((if is_nil c.region then text "us" else c.region) ++ text ".api.switchbot.net")

abbrev pub or_us : Option Bytes → Bytes
or_us none = text "us"
or_us (some r) = if is_nil r then text "us" else r

abbrev pub login_url : Bytes
login_url = account_base ++ text "/account/api/v1/user/login"

abbrev pub userinfo_url : Bytes
userinfo_url = account_base ++ text "/account/api/v1/user/userinfo"

abbrev pub keep_devices : Answer (List AccountDevice) → CloudClient → CloudClient
keep_devices (error msg) c = c
keep_devices (ok devices) c = record c { devices_cache = devices }

-- A keypad's key: the text of its id, and its 16 bytes.
abbrev pub KeypadKey : Type 0
KeypadKey = Bytes × Bytes

abbrev pub sized_key : Bytes → Option Bytes → Answer KeypadKey
sized_key key_id none = error (text "communicate returned a malformed AES key")
sized_key key_id (some key) =
    if length key == 16
    then ok (key_id, key)
    else error (text "communicate returned a malformed AES key")

abbrev pub key_texts : Option Bytes → Option Bytes → Answer KeypadKey
key_texts (some key_id) (some key) = sized_key key_id (parse_hex_string key)
key_texts _ _ = error (text "communicate response missing keyId/key")

abbrev pub key_request : Bytes → Bytes
key_request mac = text "{\"device_mac\":\"" ++ (compact_mac mac ++ text "\",\"keyType\":\"user\"}")

abbrev pub token_text : Option Bytes → Answer Bytes
token_text none = error (text "Login succeeded but no access_token returned")
token_text (some token) = ok token

-- A device without a MAC is passed over, one without a name goes by its MAC.
abbrev pub device_texts : Option Bytes → Option Bytes → Option AccountDevice
device_texts none name = none
device_texts (some mac) name =
    let pretty = pretty_mac (compact_mac mac) in
    some (record { mac = compact_mac mac; mac_pretty = pretty; name = text_or name pretty })

abbrev pub add_device : Option AccountDevice → List AccountDevice → List AccountDevice
add_device none devices = devices
add_device (some dev) devices = dev ∷ devices

module _ (cjson : Cjson) where
  open cjson use {Node, text_of, elements, is_object, print_texts}

  unfoldable pub build_login_body : Bytes → Bytes → Bytes
  build_login_body email password =
      text_or
        (print_texts (
          (text "clientId", text "5nnwmhmsa9xxskm14hd85lm9bm")
          ∷ (text "username", email)
          ∷ (text "password", password)
          ∷ (text "grantType", text "password")
          ∷ (text "verifyCode", [])
          ∷ []))
        (text "{}")

  abbrev pub checked_token : Option Bytes × Envelope cjson → Answer Bytes
  checked_token (some msg, env) = error msg
  checked_token (none, env) = token_text (text? cjson (body_item cjson env (text "access_token")))

  -- The token in the answer to a login.
  unfoldable pub token_of : Bytes → Answer Bytes
  token_of raw =
      checked_token (
        check_envelope cjson (text "Login response was not valid JSON") (text "Login rejected") raw)

  -- The region in the answer to a userinfo request; "us" where there is none.
  unfoldable pub region_of : Answer Bytes → Bytes
  region_of (error msg) = text "us"
  region_of (ok raw) =
      let env = open_envelope cjson raw in
      if is_ok cjson env
      then or_us (text? cjson (body_item cjson env (text "botRegion")))
      else text "us"

  -- With a token: the region is asked for, and the client is signed in whatever comes of it.
  abbrev pub signed_in : List HttpRequest → Exchange → Answer Bytes → Call (Unit {0})
  signed_in sent info (error msg) = (sent, error msg, signed_out)
  signed_in sent info (ok token) =
      let (more, answer) = post_json userinfo_url (text "{}") token info in
      (
        sent ++ more,
        ok tt,
        record { auth_token = token; region = region_of answer; devices_cache = [] },
      )

  abbrev pub then_token : Answer Bytes → Answer Bytes
  then_token (error msg) = error msg
  then_token (ok raw) = token_of raw

  -- `first` and `info` are what comes of the two requests.
  unfoldable pub login : Bytes → Bytes → Exchange → Exchange → CloudClient → Call (Unit {0})
  login email password first info c =
      let (sent, answer) = post_json login_url (build_login_body email password) [] first in
      signed_in sent info (then_token answer)

  unfoldable pub device_of : Node → Option AccountDevice
  device_of node =
      device_texts (text? cjson (cjson.item node (text "device_mac")))
        (text? cjson (cjson.item node (text "device_name")))

  unfoldable pub pick_devices : List Node → List AccountDevice
  pick_devices [] = []
  pick_devices (node ∷ nodes) = add_device (device_of node) (pick_devices nodes)

  abbrev pub elements? : Option Node → Option (List Node)
  elements? none = none
  elements? (some node) = elements node

  abbrev pub listed : Option (List Node) → Answer (List AccountDevice)
  listed none = error (text "Device list missing Items array")
  listed (some nodes) = ok (pick_devices nodes)

  abbrev pub checked_devices : Option Bytes × Envelope cjson → Answer (List AccountDevice)
  checked_devices (some msg, env) = error msg
  checked_devices (none, env) = listed (elements? (body_item cjson env (text "Items")))

  unfoldable pub devices_in : Answer Bytes → Answer (List AccountDevice)
  devices_in (error msg) = error msg
  devices_in (ok raw) = checked_devices (
      check_envelope cjson (text "Device list response was not valid JSON")
        (text "Device list rejected") raw)

  unfoldable pub list_devices : Bool → Exchange → CloudClient → Call (List AccountDevice)
  list_devices force_refresh ex c =
      let (sent, answer) =
        post_json (wonderlabs_base c ++ text "/wonder/device/v3/getdevice")
          (text "{\"required_type\":\"All\"}") c.auth_token ex in
      if not (is_logged_in c)
      then ([], error (text "Not logged in"), c)
      else if not force_refresh && not (is_nil c.devices_cache)
      then ([], ok c.devices_cache, c)
      else (sent, devices_in answer, keep_devices (devices_in answer) c)

  abbrev pub key_in : Option Node → Answer KeypadKey
  key_in none = error (text "communicate response missing communicationKey")
  key_in (some node) =
      if is_object node
      then key_texts (text? cjson (cjson.item node (text "keyId")))
          (text? cjson (cjson.item node (text "key")))
      else error (text "communicate response missing communicationKey")

  abbrev pub checked_key : Option Bytes × Envelope cjson → Answer KeypadKey
  checked_key (some msg, env) = error msg
  checked_key (none, env) = key_in (body_item cjson env (text "communicationKey"))

  unfoldable pub key_of : Answer Bytes → Answer KeypadKey
  key_of (error msg) = error msg
  key_of (ok raw) = checked_key (
      check_envelope cjson (text "communicate response was not valid JSON")
        (text "communicate rejected") raw)

  unfoldable pub fetch_keypad_key : Bytes → Exchange → CloudClient → Call KeypadKey
  fetch_keypad_key mac ex c =
      let (sent, answer) =
        post_json (wonderlabs_base c ++ text "/wonder/keys/v1/communicate") (key_request mac)
          c.auth_token ex in
      if is_logged_in c then (sent, key_of answer, c) else ([], error (text "Not logged in"), c)
