-- ===== src/CloudClient/Client/SignIn.antt =====
-- components/switchbot_keypad_bridge/cloud_client.cpp: what a sign-in comes to.
use switchbot_keypad_bridge.Common.{
  ℕ, ◌≤◌, ◌<◌, ◌≡◌, refl, ap, subst, ◌≢◌, ◌↔◌, ◌⊎◌, inl, inr, true, false, Option, none, some, List,
  [], arith, is_nil, ℤ, ◌==ℤ◌, ==ℤ_iff, pos, negsuc, Bytes, text,
}
use switchbot_keypad_bridge.CloudClient.Cjson.{Cjson, int_or, open_envelope, check_envelope}
use switchbot_keypad_bridge.CloudClient.Post.{
  Exchange, HttpRequest, Answer, wait_for_clock, append_all, is_2xx, answer_of, post_json, ok,
  error,
}
use switchbot_keypad_bridge.CloudClient.Client.{
  CloudClient, signed_out, login_url, build_login_body, token_of, region_of, signed_in, then_token,
  login,
}

-- An exchange that brings an answer: the clock is set in time, and the request gets a status from 200 to 299.
pub record Brings (ex : Exchange) (raw : Bytes) : Type 0 where
  pub clock : wait_for_clock ex.looks ≡ true
  pub client : ex.has_client ≡ true
  pub sent : ex.failure ≡ none
  pub code : ℕ
  pub status : ex.status ≡ pos code
  pub from : 200 ≤ code
  pub below : code < 300
  pub whole : raw ≡ append_all ex.chunks

module _ (cjson : Cjson) where
  open cjson use {Node, parse, item, text_of, int_of}

  -- The JSON of a granted sign-in: `{"statusCode": 100, "body": {"access_token": token}}`.
  pub record Grants (raw token : Bytes) : Type 0 where
    pub root : Node
    pub json : parse raw ≡ some root
    pub code : Node
    pub has_code : item root (text "statusCode") ≡ some code
    pub success : int_of code ≡ some (pos 100)
    pub body : Node
    pub has_body : item root (text "body") ≡ some body
    pub entry : Node
    pub has_entry : item body (text "access_token") ≡ some entry
    pub text : text_of entry ≡ some token

is_2xx_code : (z : ℤ) → is_2xx z ≡ true → (n : ℕ) × (z ≡ pos n) × (200 ≤ n) × (n < 300)
is_2xx_code (pos n) h = (n, refl, ground arith, ground arith)
is_2xx_code (negsuc n) h = cc

some_of : {A : Type 0} (o : Option A) → o ≢ none → (a : A) × (o ≡ some a)
some_of none h = absurd (h refl)
some_of (some a) h = (a, refl)

code_100 : (o : Option ℤ) → (int_or o (negsuc 0) ==ℤ pos 100) ≡ true → o ≡ some (pos 100)
code_100 none h = cc
code_100 (some n) h = ap some ((==ℤ_iff n (pos 100)).0 h)

ok_cases : {A : Type 0} (a : Answer A) → ((x : A) × (a ≡ ok x)) ⊎ ((msg : Bytes) × (a ≡ error msg))
ok_cases (ok x) = inl (x, refl)
ok_cases (error msg) = inr (msg, refl)

error≢ok : {A : Type 0} {msg : Bytes} {x : A} → error msg ≢ ok x
error≢ok h = cc

ok_injective : {A : Type 0} {x y : A} → ok x ≡ ok y → x ≡ y
ok_injective h = cc

post_json-Brings :
    (url body bearer : Bytes) (ex : Exchange) (raw : Bytes)
    → (post_json url body bearer ex).1 ≡ ok raw
    → Brings ex raw
unfolding post_json answer_of
post_json-Brings url body bearer ex raw h =
    let (n, status, from, below) = is_2xx_code ex.status (ground arith) in
    record {
      clock = ground arith;
      client = ground arith;
      sent = ground arith;
      code = n;
      status = status;
      from = from;
      below = below;
      whole = ground arith;
    }

Brings-post_json :
    (url body bearer : Bytes) (ex : Exchange) (raw : Bytes)
    → Brings ex raw
    → (post_json url body bearer ex).1 ≡ ok raw
unfolding post_json answer_of
Brings-post_json url body bearer ex raw b = ground arith

module _ (cjson : Cjson) where
  open cjson use {Node, parse, item, text_of, int_of}

  Grants-token_of : (raw token : Bytes) → Grants cjson raw token → token_of cjson raw ≡ ok token
  unfolding token_of check_envelope open_envelope
  Grants-token_of raw token g = ground arith

  token_of-Grants : (raw token : Bytes) → token_of cjson raw ≡ ok token → Grants cjson raw token
  unfolding token_of check_envelope open_envelope
  token_of-Grants raw token h =
      let (root, json) = some_of (parse raw) (λ e. ground arith) in
      let (code, has_code) = some_of (item root (text "statusCode")) (λ e. ground arith) in
      let (body, has_body) = some_of (item root (text "body")) (λ e. ground arith) in
      let (entry, has_entry) = some_of (item body (text "access_token")) (λ e. ground arith) in
      record {
        root = root;
        json = json;
        code = code;
        has_code = has_code;
        success = code_100 (int_of code) (ground arith);
        body = body;
        has_body = has_body;
        entry = entry;
        has_entry = has_entry;
        text = ground arith;
      }

  region_of-filled : (answer : Answer Bytes) → is_nil (region_of cjson answer) ≡ false
  unfolding region_of
  region_of-filled (error msg) = refl
  region_of-filled (ok raw) = ground arith

  then_token_iff :
      (url body bearer : Bytes) (ex : Exchange) (token : Bytes)
      → (then_token cjson (post_json url body bearer ex).1 ≡ ok token)
        ↔ ((raw : Bytes) × Brings ex raw × Grants cjson raw token)
  then_token_iff url body bearer ex token = (
    λ h. elim (ok_cases (post_json url body bearer ex).1) [
      | inl (raw, e) ↦ (
        raw,
        post_json-Brings url body bearer ex raw e,
        token_of-Grants raw token (subst (λ a. then_token cjson a ≡ ok token) e h),
      )
      | inr (msg, e) ↦ absurd (error≢ok (subst (λ a. then_token cjson a ≡ ok token) e h))
    ],
    λ (raw, b, g). rw (Brings-post_json url body bearer ex raw b) (Grants-token_of raw token g),
  )

  -- What `signed_in` leaves, by the answer.
  signed_in_iff :
      (sent : List HttpRequest) (info : Exchange) (a : Answer Bytes) (token : Bytes)
      → let (_, answer, c') = signed_in cjson sent info a in
        ((answer ≡ ok tt) × (c'.auth_token ≡ token)) ↔ (a ≡ ok token)
  signed_in_iff sent info (ok t) token = (λ (_, e). ap ok e, λ e. (refl, ok_injective e))
  signed_in_iff sent info (error msg) token =
      (λ (e, _). absurd (error≢ok e), λ e. absurd (error≢ok e))

  signed_in-state :
      (sent : List HttpRequest) (info : Exchange) (a : Answer Bytes)
      → let (_, answer, c') = signed_in cjson sent info a in
        ((answer ≡ ok tt) × (is_nil c'.region ≡ false) × (c'.devices_cache ≡ []))
        ⊎ ((msg : Bytes) × (answer ≡ error msg) × (c' ≡ signed_out))
  signed_in-state sent info (ok t) = inl (refl, region_of-filled _, refl)
  signed_in-state sent info (error msg) = inr (msg, refl, refl)

  -- A sign-in ends with a token in the client exactly when the first exchange brings an answer of status 200 to
  -- 299 in which statusCode is 100 and the body carries that token. The client then has a region, whatever comes
  -- of the second exchange, and no cached devices. In every other case the answer is an error and the client is
  -- signed out, whatever it was before.
  pub login-SignIn :
      (email password : Bytes) (first info : Exchange) (c : CloudClient)
      → let (sent, answer, c') = login cjson email password first info c in
        ((token : Bytes)
          → ((answer ≡ ok tt) × (c'.auth_token ≡ token))
            ↔ ((raw : Bytes) × Brings first raw × Grants cjson raw token))
        × (((answer ≡ ok tt) × (is_nil c'.region ≡ false) × (c'.devices_cache ≡ []))
            ⊎ ((msg : Bytes) × (answer ≡ error msg) × (c' ≡ signed_out)))
  unfolding login
  login-SignIn email password first info c =
      let body = build_login_body cjson email password in
      let (sent, a) = post_json login_url body [] first in
      (
        λ token.
            let (there, back) = signed_in_iff sent info (then_token cjson a) token in
            let (to, from) = then_token_iff login_url body [] first token in
            (λ h. to (there h), λ h. back (from h)),
        signed_in-state sent info (then_token cjson a),
      )
