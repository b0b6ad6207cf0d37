-- ===== src/PairingUi/Tests.antt =====
-- Tests of components/switchbot_keypad_bridge/pairing_ui.cpp.
use switchbot_keypad_bridge.Common.{
  unsigned_text, ◌%◌, ◌≡◌, refl, ◌↔◌, true, Option, none, some, List, [], ◌∷◌, ◌++◌, arith,
  if◌then◌else◌, length, replicate, negsuc, Bytes, text,
}
use switchbot_keypad_bridge.BleUtils.{addr_bytes}
use switchbot_keypad_bridge.MacUtils.{compact_mac, join_pairs, pretty_mac, hex_digit}
use switchbot_keypad_bridge.KeypadAdvert.{keypad_family_from_str, identify_keypad, original}
use switchbot_keypad_bridge.KeypadPairer.Dialect.{step_count}
use switchbot_keypad_bridge.KeypadPairer.JobStatus.{
  JobStatus, set_running, job_id_at, start, running, success,
}
use switchbot_keypad_bridge.CloudClient.Cjson.{open_envelope, check_envelope, extract_json_str}
use switchbot_keypad_bridge.CloudClient.Client.{
  wonderlabs_base, KeypadKey, device_of, pick_devices, devices_in, list_devices, key_of,
  fetch_keypad_key,
}
use switchbot_keypad_bridge.CloudClient.Sample.{sample_cjson}
use switchbot_keypad_bridge.PairingUi.Auth.{
  expected_text, fold_diff, credentials_diff, check_header, require_auth,
}
use switchbot_keypad_bridge.PairingUi.Credentials.{
  pad, credentials_diff_iff, Passes, require_auth_iff,
}
use switchbot_keypad_bridge.PairingUi.Body.{receive, read_body}
use switchbot_keypad_bridge.PairingUi.CommKey.{CommKey}
use switchbot_keypad_bridge.PairingUi.Nearby.{find, NearbyDevice, scan_nearby, list_keypads}
use switchbot_keypad_bridge.PairingUi.Nearby.Scanned.{
  is_heard, strongest, latest_data, find-scan_nearby,
}
use switchbot_keypad_bridge.PairingUi.Nearby.Listed.{has_row, list_all, list_keypads-stays_listed}
use switchbot_keypad_bridge.PairingUi.PairStatus.{bind_job}
use switchbot_keypad_bridge.PairingUi.Server.{Route, strtol_16}
use switchbot_keypad_bridge.PairingUi.Replies.{Payload, job_started}
use switchbot_keypad_bridge.PairingUi.Handlers.{labels_from, find_device, handle_pair, serve}
use switchbot_keypad_bridge.PairingUi.Handlers.Paired.{PairOutcome, handle_pair-PairOutcome}
use switchbot_keypad_bridge.PairingUi.Sample.{admin, front_door, open_ui, packets, around, pair_req}
use switchbot_keypad_bridge.CloudClient.Hex.{parse_pairs, parse_hex_string}
use switchbot_keypad_bridge.CloudClient.Post.{wait_for_clock, answer_of, post_json}

-- The right credentials with 256 bytes behind them.
abbrev long_creds : Bytes
long_creds = text "admin:secret" ++ replicate 256 0x78

-- A decoder that finds the credentials as they are.
abbrev plain : Bytes → Option Bytes
plain s = some s

credentials_diff_iff_example : (credentials_diff long_creds (expected_text admin) ≡ 0) ↔ (
    (length long_creds % 256 ≡ length (expected_text admin) % 256)
    × (pad (length (expected_text admin)) long_creds ≡ expected_text admin))
credentials_diff_iff_example =
    credentials_diff_iff long_creds (expected_text admin) (omega arith) (omega arith) (omega arith)
      (omega arith)

require_auth_iff_example :
    (require_auth plain (some (text "Basic admin:secret")) admin ≡ true)
    ↔ Passes plain (text "Basic admin:secret") admin
require_auth_iff_example = require_auth_iff plain (text "Basic admin:secret") admin refl

abbrev running_status : JobStatus
running_status = record {
  job_id = text "1";
  state = running;
  step = 2;
  total = 5;
  message = [];
  error = [];
  keypad_mac = [];
  family = original;
}

abbrev success_status : JobStatus
success_status = record running_status { state = success; keypad_mac = text "B0:E9:FE:01:02:03" }

abbrev shown_key : CommKey
shown_key = record {
  key_id = text "45";
  key_hex = text "000102030405060708090a0b0c0d0e0f";
  mac = text "B0:E9:FE:61:2E:75";
}

find-scan_nearby_example : find front_door.mac_pretty (scan_nearby packets) ≡ (
    if is_heard front_door.mac_pretty packets
    then some (record {
      rssi = strongest front_door.mac_pretty (negsuc 127) packets;
      svc_data = latest_data front_door.mac_pretty [] packets;
    })
    else none)
find-scan_nearby_example = find-scan_nearby front_door.mac_pretty packets

-- The keypad is in range, but only its plain packet was caught.
abbrev faint : List (Bytes × NearbyDevice)
faint = (front_door.mac_pretty, record { rssi = negsuc 60; svc_data = [] }) ∷ []

abbrev clear_view : NearbyDevice
clear_view = record { rssi = negsuc 44; svc_data = 0x79 ∷ 0x00 ∷ 0x64 ∷ [] }

list_keypads-stays_listed_example :
    let known =
      list_all
        ((front_door ∷ [], []) ∷ [])
        (list_keypads ([] ++ front_door ∷ []) ((front_door.mac_pretty, clear_view) ∷ []) []).1 in
    has_row front_door.mac_pretty (list_keypads ([] ++ front_door ∷ []) faint known).0 ≡ true
unfolding find identify_keypad
list_keypads-stays_listed_example =
    list_keypads-stays_listed front_door [] [] ((front_door.mac_pretty, clear_view) ∷ []) clear_view
      [] ((front_door ∷ [], []) ∷ []) [] [] faint (record { rssi = negsuc 60; svc_data = [] }) refl
      refl refl

handle_pair-PairOutcome_example :
    PairOutcome open_ui
      (handle_pair sample_cjson around pair_req open_ui).0.payload
      (handle_pair sample_cjson around pair_req open_ui).2
handle_pair-PairOutcome_example = handle_pair-PairOutcome sample_cjson around pair_req open_ui

abbrev front_key : KeypadKey
front_key = (text "45", replicate 16 7)

-- A request for a pairing that goes all the way.
job_of : Payload → Bytes
job_of (job_started id shown) = id
job_of _ = []

pairs :
    job_of (serve sample_cjson plain Route.pair around pair_req open_ui).0.payload ≡ text "p-5000"
unfolding job_of serve require_auth check_header credentials_diff fold_diff handle_pair read_body
    receive extract_json_str list_devices wonderlabs_base post_json wait_for_clock answer_of
    devices_in check_envelope open_envelope pick_devices device_of compact_mac pretty_mac join_pairs
    find_device fetch_keypad_key key_of parse_hex_string parse_pairs hex_digit strtol_16 start
    set_running job_id_at unsigned_text keypad_family_from_str step_count addr_bytes labels_from
    bind_job
pairs = refl
