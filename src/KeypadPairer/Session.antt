-- ===== src/KeypadPairer/Session.antt =====
-- components/switchbot_keypad_bridge/keypad_pairer.cpp: `execute_` up to the session, that is: the keypad is looked
-- for, connected to, and asked for a session IV.
use switchbot_keypad_bridge.Common.{
  ℕ, zero, suc, Bool, true, false, ◌&&◌, Option, none, some, List, [], ◌∷◌, if◌then◌else◌, Bytes,
  bytes_eq, text,
}
use switchbot_keypad_bridge.MacUtils.{upper_mac}
use switchbot_keypad_bridge.KeypadPairer.JobStatus.{KeypadPairer, deliver}
use switchbot_keypad_bridge.KeypadPairer.Job.{
  Job, pure, ◌>>=◌, ◌>>◌, act, update, gets, show, give_up, ensure, write_value, create_client,
  delete_client, terminate_link, subscribe, connect,
}

-- The errors that the page shows.
abbrev pub not_seen : Bytes
not_seen = text "Could not see the keypad over BLE. Keep it within 2 m and retry."

abbrev pub not_connected : Bytes
not_connected =
    text "Could not connect to the keypad. Wake it (tap a key), keep it within 2 m, and retry."

abbrev pub no_service : Bytes
no_service = text "Keypad does not expose the SwitchBot GATT service."

abbrev pub iv_not_requested : Bytes
iv_not_requested = text "Could not request session IV from keypad."

abbrev pub no_session : Bytes
no_session = text "Keypad did not open a session. Reset it into pairing mode and retry."

-- One connection attempt: whether the keypad still holds a link to the bridge's lock, and whether the bridge's own
-- connection comes about.
pub record Attempt : Type 0 where
  pub held : Bool
  pub connected : Bool

abbrev pub no_attempt : Attempt
no_attempt = record { held = false; connected = false }

-- What the radio finds: the addresses of the devices that the scan saw, the connection attempts, the
-- characteristics of the keypad, and the notifications that arrive in each wait for the session IV.
pub record Radio : Type 0 where
  pub seen : List Bytes
  pub attempts : List Attempt
  pub has_rx : Bool
  pub has_tx : Bool
  pub iv_rounds : List (List Bytes)

-- The first device of the scan whose address is the keypad's, in either case of the letters.
unfoldable pub discover_target : Bytes → List Bytes → Option Bytes
discover_target mac [] = none
discover_target mac (address ∷ seen) =
    let rest = discover_target mac seen in
    if bytes_eq (upper_mac address) (upper_mac mac) then some address else rest

abbrev pub first_attempt : List Attempt → Attempt
first_attempt [] = no_attempt
first_attempt (a ∷ later) = a

abbrev pub later_attempts : List Attempt → List Attempt
later_attempts [] = []
later_attempts (a ∷ later) = later

-- A link that the keypad still holds is ended first: two peers have one link at most.
abbrev pub free_link : Bool → Job (Unit {0})
free_link true = act terminate_link
free_link false = pure tt

abbrev pub unless_connected : Bool → Job Bool → Job Bool
unless_connected true rest = pure true
unless_connected false rest = rest

unfoldable pub try_connect : ℕ → List Attempt → Job Bool
try_connect zero attempts = pure false
try_connect (suc left) attempts =
    let a = first_attempt attempts in
    free_link a.held
    >> (act (connect a.connected)
        >> unless_connected a.connected (try_connect left (later_attempts attempts)))

abbrev pub connect_attempts : ℕ
connect_attempts = 3

abbrev pub on_air : Option Bytes → Job (Unit {0})
on_air (some address) = pure tt
on_air none = give_up not_seen

abbrev pub on_link : Bool → Job (Unit {0})
on_link true = pure tt
on_link false = act delete_client >> give_up not_connected

unfoldable pub open_link : Radio → Job (Unit {0})
open_link radio = do
  act create_client
  connected ← try_connect connect_attempts radio.attempts
  on_link connected

unfoldable pub find_service : Radio → Job (Unit {0})
find_service radio = do show 1; ensure (radio.has_rx && radio.has_tx) no_service; act subscribe

abbrev pub first_round : List (List Bytes) → List Bytes
first_round [] = []
first_round (r ∷ rs) = r

abbrev pub later_rounds : List (List Bytes) → List (List Bytes)
later_rounds [] = []
later_rounds (r ∷ rs) = rs

-- A wait of half a second, or until a notification: `rounds` are the notifications of each.
unfoldable pub await_iv : ℕ → List (List Bytes) → KeypadPairer → KeypadPairer
await_iv zero rounds p = p
await_iv (suc left) rounds p =
    let rest = await_iv left (later_rounds rounds) (deliver (first_round rounds) p) in
    if p.iv_received then p else rest

abbrev pub iv_wait_rounds : ℕ
iv_wait_rounds = 6

abbrev pub iv_request : KeypadPairer → Bytes
iv_request p = 0x57 ∷ 0x00 ∷ 0x00 ∷ 0x00 ∷ 0x0F ∷ 0x21 ∷ 0x03 ∷ p.key_id ∷ []

unfoldable pub request_iv : Radio → Job (Unit {0})
request_iv radio = do
  show 2
  frame ← gets iv_request
  written ← write_value frame
  ensure written iv_not_requested
  update (await_iv iv_wait_rounds radio.iv_rounds)
  received ← gets (λ p. p.iv_received)
  ensure received no_session
