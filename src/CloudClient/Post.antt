-- ===== src/CloudClient/Post.antt =====
-- components/switchbot_keypad_bridge/cloud_client.cpp: `post_json_`. What the clock and the HTTP client report
-- comes with the call.
use switchbot_keypad_bridge.Common.{
  show_int, ℕ, ◌/◌, Bool, true, false, Option, none, some, List, [], ◌∷◌, ◌++◌, ltb, ◌==◌,
  if◌then◌else◌, ℤ, pos, negsuc, Bytes, text,
}

abbrev pub min_valid_time : ℕ
min_valid_time = 1700000000

-- One look at the clock: `time(nullptr)`, and the milliseconds since the first look.
pub record ClockLook : Type 0 where
  pub time : ℕ
  pub waited : ℕ

-- What comes of a request: the looks at the clock, whether there is a client, the name of the error if the request
-- failed, the HTTP status, and the data that arrived.
pub record Exchange : Type 0 where
  pub looks : List ClockLook
  pub has_client : Bool
  pub failure : Option Bytes
  pub status : ℤ
  pub chunks : List Bytes

pub record HttpRequest : Type 0 where
  pub url : Bytes
  pub bearer : Bytes
  pub body : Bytes

-- The answer, or the text of an error.
pub data Answer (A : Type 0) : Type 0 where
  ok : A → Answer A
  error : Bytes → Answer A

-- The loop gives up after ten seconds. A clock that is looked at no more is taken for one that is not set.
unfoldable pub wait_for_clock : List ClockLook → Bool
wait_for_clock [] = false
wait_for_clock (look ∷ looks) =
    let rest = wait_for_clock looks in
    if ltb look.time min_valid_time then (if ltb 10000 look.waited then false else rest) else true

-- The dash is three bytes of UTF-8.
abbrev pub clock_not_set : Bytes
clock_not_set =
    text "Device clock not set "
    ++ ((0xE2 ∷ 0x80 ∷ 0x94 ∷ [])
        ++ (text " TLS needs a valid system time. Add `time: - platform: sntp` to the YAML, "
            ++ text "or wait until Home Assistant connects (its API component syncs the clock)."))

-- `http_event_handler`, over all the events.
abbrev pub append_all : List Bytes → Bytes
append_all [] = []
append_all (c ∷ cs) = c ++ append_all cs

abbrev pub is_2xx : ℤ → Bool
is_2xx (pos n) = n / 100 == 2
is_2xx (negsuc n) = false

unfoldable pub answer_of : Exchange → Answer Bytes
answer_of ex = elim ex.failure [
  | some name ↦ error (text "HTTPS request failed: " ++ name)
  | none ↦
      if is_2xx ex.status
      then ok (append_all ex.chunks)
      else error (text "HTTP " ++ show_int ex.status)
]

-- The requests that went out, and the answer.
unfoldable pub post_json : Bytes → Bytes → Bytes → Exchange → List HttpRequest × Answer Bytes
post_json url body bearer ex =
    if wait_for_clock ex.looks
    then (if ex.has_client
        then (record { url = url; bearer = bearer; body = body } ∷ [], answer_of ex)
        else ([], error (text "esp_http_client_init failed")))
    else ([], error clock_not_set)
