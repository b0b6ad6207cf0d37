-- ===== src/PairingUi/Server.antt =====
-- components/switchbot_keypad_bridge/pairing_ui.h and pairing_ui.cpp: the state of the web server, its start and stop,
-- and the outgoing commands. The HTTP server itself is a library.
use switchbot_keypad_bridge.Common.{
  ℕ, ◌+◌, ◌-◌, ◌*◌, ◌^◌, Bool, true, false, not, ◌&&◌, ◌||◌, Option, none, some, List, [], ◌∷◌, ltb,
  ◌==◌, if◌then◌else◌, replicate, is_nil, ℤ, pos, negsuc, Bytes, text,
}
use switchbot_keypad_bridge.MacUtils.{hex_digit, skip_spaces}
use switchbot_keypad_bridge.KeypadAdvert.{KeypadFamily}
use switchbot_keypad_bridge.KeypadPairer.JobStatus.{Request, KeypadPairer, is_running, start}
use switchbot_keypad_bridge.CloudClient.Client.{CloudClient}
use switchbot_keypad_bridge.PairingUi.Auth.{Credentials}
use switchbot_keypad_bridge.PairingUi.CommKey.{CommKey, CommKeyBlob, load_comm_key}
use switchbot_keypad_bridge.PairingUi.Nearby.{Identified}
use switchbot_keypad_bridge.PairingUi.PairStatus.{PairingJob}

-- `server` says whether there is a server handle, `html` holds the page's bytes, none if it was not embedded.
pub record PairingUi : Type 0 where
  pub server : Bool
  pub cloud : CloudClient
  pub pairer : KeypadPairer
  pub credentials : Credentials
  pub log_keys : Bool
  pub comm_key : CommKey
  pub ble_scan_busy : Bool
  pub shared_key : Bytes
  pub html : Bytes
  pub job : PairingJob
  pub identified : Identified

-- What an endpoint answers to.
pub data Route : Type 0 where
  root login keypads pair pair_status events users_get users_set : Route
  settings_get settings_set comm_key paired : Route

-- The registrations, with whether they are for GET.
abbrev pub routes : List (Bytes × Bool × Route)
routes =
    (text "/", true, root)
    ∷ (text "/api/login", false, login)
    ∷ (text "/api/keypads", true, keypads)
    ∷ (text "/api/pair", false, pair)
    ∷ (text "/api/pair/status", true, pair_status)
    ∷ (text "/api/events", true, events)
    ∷ (text "/api/users", true, users_get)
    ∷ (text "/api/users", false, users_set)
    ∷ (text "/api/settings", true, settings_get)
    ∷ (text "/api/settings", false, settings_set)
    ∷ (text "/api/commkey", true, comm_key)
    ∷ (text "/api/paired", true, paired)
    ∷ []

-- `started` is the answer of `httpd_start`, `stored` what the flash holds.
unfoldable pub start_server : Bool → Option CommKeyBlob → PairingUi → Bool × PairingUi
start_server started stored ui =
    if ui.server
    then (true, ui)
    else if started
    then (true, record ui { server = true; comm_key = load_comm_key stored ui.comm_key })
    else (false, record ui { server = false })

unfoldable pub stop_server : PairingUi → PairingUi
stop_server ui = record ui { server = false }

-- A request with its defaults, for a job that is no pairing.
abbrev pub plain_request : Bytes → KeypadFamily → ℤ → Bytes → Request
plain_request mac family key_id key = record {
  keypad_mac = mac;
  family = family;
  key_id = key_id;
  key = key;
  shared_token = replicate 16 0;
  esp_mac = replicate 6 0;
  raw_command = [];
  read_params = [];
}

-- The clock and what FreeRTOS answers when a job starts.
pub record Launch : Type 0 where
  pub now_us : ℕ
  pub sem_made : Bool
  pub spawned : Bool

abbrev pub start_job : Launch → Request → PairingUi → Bytes × PairingUi
start_job l req ui =
    let (id, p) = start l.now_us l.sem_made l.spawned req ui.pairer in
    (id, record ui { pairer = p })

unfoldable pub start_raw_command :
    Launch → Bytes → KeypadFamily → ℤ → Bytes → Bytes → PairingUi → Bool × PairingUi
start_raw_command l mac family key_id key plaintext ui =
    let (id, ui') =
      start_job l (record (plain_request mac family key_id key) { raw_command = plaintext }) ui in
    (not (is_nil id), ui')

unfoldable pub start_settings_read :
    Launch → Bytes → KeypadFamily → ℤ → Bytes → Bytes → PairingUi → Bool × PairingUi
start_settings_read l mac family key_id key params ui =
    let (id, ui') =
      start_job l (record (plain_request mac family key_id key) { read_params = params }) ui in
    (not (is_nil id), ui')

unfoldable pub is_pairing_busy : PairingUi → Bool
is_pairing_busy ui = ui.ble_scan_busy || is_running ui.pairer.status.state

-- `strtol(s, nullptr, 16)`: white space, a sign, an optional "0x", and digits up to the first other character. A
-- `long` has 32 bits, and a value beyond it becomes its bound.
hex_value : Bytes → ℕ → ℕ
hex_value [] acc = acc
hex_value (c ∷ cs) acc = elim (hex_digit c) [ none ↦ acc | some d ↦ hex_value cs (acc * 16 + d) ]

abbrev is_digit : ℕ → Bool
is_digit c = elim (hex_digit c) [ none ↦ false | some d ↦ true ]

abbrev skip_0x : Bytes → Bytes
skip_0x (z ∷ x ∷ d ∷ cs) =
    if (z == b'0') && ((x == b'x' || x == b'X') && is_digit d) then d ∷ cs else z ∷ x ∷ d ∷ cs
skip_0x s = s

abbrev positive_long : ℕ → ℤ
positive_long n = if ltb n (2 ^ 31) then pos n else pos (2 ^ 31 - 1)

abbrev negative_long : ℕ → ℤ
negative_long n =
    if n == 0 then pos 0 else if ltb n (2 ^ 31) then negsuc (n - 1) else negsuc (2 ^ 31 - 1)

signed_hex : Bytes → ℤ
unfolding hex_value
signed_hex [] = pos 0
signed_hex (c ∷ cs) =
    if c == b'-'
    then negative_long (hex_value (skip_0x cs) 0)
    else if c == b'+'
    then positive_long (hex_value (skip_0x cs) 0)
    else positive_long (hex_value (skip_0x (c ∷ cs)) 0)

unfoldable pub strtol_16 : Bytes → ℤ
unfolding signed_hex
strtol_16 s = signed_hex (skip_spaces s)
