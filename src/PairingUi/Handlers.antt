-- ===== src/PairingUi/Handlers.antt =====
-- components/switchbot_keypad_bridge/pairing_ui.cpp: the handlers of the web server, behind its authentication.
pub mod Paired
pub mod HandOver
pub mod Guarded
use switchbot_keypad_bridge.Common.{
  hex_text, ℕ, zero, suc, ◌+◌, false, not, ◌||◌, Option, none, some, List, [], ◌∷◌, ◌++◌, map,
  if◌then◌else◌, is_nil, Bytes, bytes_eq, text,
}
use switchbot_keypad_bridge.BleUtils.{addr_bytes}
use switchbot_keypad_bridge.KeypadAdvert.{KeypadFamily, keypad_family_from_str}
use switchbot_keypad_bridge.KeypadPairer.Dialect.{step_count, step_label}
use switchbot_keypad_bridge.KeypadPairer.JobStatus.{Request, is_running}
use switchbot_keypad_bridge.CloudClient.Cjson.{Cjson, extract_json_str}
use switchbot_keypad_bridge.CloudClient.Post.{Answer, ok, error}
use switchbot_keypad_bridge.CloudClient.Client.{
  AccountDevice, is_logged_in, KeypadKey, login, list_devices, fetch_keypad_key,
}
use switchbot_keypad_bridge.PairingUi.Auth.{require_auth}
use switchbot_keypad_bridge.PairingUi.CommKey.{CommKey, save_comm_key}
use switchbot_keypad_bridge.PairingUi.Nearby.{scan_nearby, Identified, list_keypads}
use switchbot_keypad_bridge.PairingUi.PairStatus.{bind_job, handle_pair_status}
use switchbot_keypad_bridge.PairingUi.Server.{
  PairingUi, Route, start_job, strtol_16, root, keypads, pair, pair_status, events, users_get,
  users_set, settings_get, settings_set, comm_key, paired,
}
use switchbot_keypad_bridge.PairingUi.Replies.{
  HttpReq, Around, Reply, UiEffect, Handled, reply_ok, reply_error, unauthorized, body_of,
  handle_root, handle_provided, handle_users_set, handle_settings_set, handle_commkey, region_text,
  keypad_list, job_started, progress, save_key, on_paired, post,
}

-- The poll of `PairStatus`, in the server's state.
unfoldable pub handle_status : PairingUi → Handled
handle_status ui =
    let (calls, reply, job) = handle_pair_status ui.pairer.status ui.job in
    (reply_ok (progress reply), map on_paired calls, record ui { job = job })

-- The steps of a family, from `n` on; `left` are still to come.
unfoldable pub labels_from : KeypadFamily → ℕ → ℕ → List Bytes
labels_from family n zero = []
labels_from family n (suc left) = step_label family n ∷ labels_from family (n + 1) left

abbrev pub labels : KeypadFamily → List Bytes
labels family = labels_from family 0 (step_count family)

abbrev pub login_reply : Answer (Unit {0}) → Bytes → Reply
login_reply (error msg) region = reply_error (text "401 Unauthorized") msg
login_reply (ok u) region = reply_ok (region_text region)

-- The devices of the account are looked for in the air.
abbrev pub keypads_reply : Answer (List AccountDevice) → Around → Identified → Reply × Identified
keypads_reply (error msg) w known = (reply_error (text "502 Bad Gateway") msg, known)
keypads_reply (ok devices) w known =
    let (rows, known') = list_keypads devices (scan_nearby w.adverts) known in
    (reply_ok (keypad_list rows), known')

unfoldable pub find_device : Bytes → List AccountDevice → Option AccountDevice
find_device mac [] = none
find_device mac (dev ∷ devices) =
    let rest = find_device mac devices in
    if bytes_eq dev.mac_pretty mac || bytes_eq dev.mac mac then some dev else rest

abbrev pub pair_request : Around → KeypadFamily → AccountDevice → KeypadKey → Bytes → Request
pair_request w family dev key shared_key = record {
  keypad_mac = dev.mac_pretty;
  family = family;
  key_id = strtol_16 key.0;
  key = key.1;
  shared_token = shared_key;
  esp_mac = addr_bytes w.own_address;
  raw_command = [];
  read_params = [];
}

-- The key is kept for the page where the user asked for it.
abbrev pub stash_key : AccountDevice → KeypadKey → PairingUi → List UiEffect × PairingUi
stash_key dev (key_id, key) ui =
    let k : CommKey = record { key_id = key_id; key_hex = hex_text key; mac = dev.mac_pretty } in
    if ui.log_keys then (save_key (save_comm_key k) ∷ [], record ui { comm_key = k }) else ([], ui)

abbrev pub started_reply : Bytes → KeypadFamily → Reply
started_reply id family =
    if is_nil id
    then reply_error (text "409 Conflict") (text "A pairing job is already in progress.")
    else reply_ok (job_started id (labels family))

abbrev pub start_pairing :
    Around → KeypadFamily → AccountDevice → KeypadKey → List UiEffect → PairingUi → Handled
start_pairing w family dev key effects ui =
    let (saved, ui') = stash_key dev key ui in
    let (id, ui'') = start_job w.launch (pair_request w family dev key ui.shared_key) ui' in
    (started_reply id family, effects ++ saved, record ui'' { job = bind_job dev.name id ui.job })

abbrev pub pair_fetched :
    Around → KeypadFamily → AccountDevice → Answer KeypadKey → List UiEffect → PairingUi → Handled
pair_fetched w family dev (error msg) effects ui =
    (reply_error (text "502 Bad Gateway") msg, effects, ui)
pair_fetched w family dev (ok key) effects ui = start_pairing w family dev key effects ui

module _ (cjson : Cjson) where
  unfoldable pub handle_login : Around → HttpReq → PairingUi → Handled
  handle_login w req ui =
      let email = extract_json_str cjson (body_of req) (text "email") in
      let password = extract_json_str cjson (body_of req) (text "password") in
      let (sent, answer, cloud) = login cjson email password w.first w.second ui.cloud in
      if is_nil email || is_nil password
      then (reply_error (text "400 Bad Request") (text "Missing email or password."), [], ui)
      else (login_reply answer cloud.region, post sent ∷ [], record ui { cloud = cloud })

  unfoldable pub handle_keypads : Around → PairingUi → Handled
  handle_keypads w ui =
      let (sent, answer, cloud) = list_devices cjson false w.first ui.cloud in
      let (reply, known) = keypads_reply answer w ui.identified in
      if not (is_logged_in ui.cloud)
      then (reply_error (text "401 Unauthorized") (text "Sign in first."), [], ui)
      else if is_running ui.pairer.status.state
      then (
        reply_error (text "409 Conflict") (
            text "A pairing job is running "
            ++ ((0xE2 ∷ 0x80 ∷ 0x94 ∷ []) ++ text " try again in a moment.")),
        [],
        ui,
      )
      else (
        reply,
        post sent ∷ [],
        record ui { cloud = cloud; identified = known; ble_scan_busy = false },
      )

  abbrev pub pair_found :
      Around → KeypadFamily → Option AccountDevice → List UiEffect → PairingUi → Handled
  pair_found w family none effects ui = (
    reply_error (text "404 Not Found") (text "Keypad not in this SwitchBot account."),
    effects,
    ui,
  )
  pair_found w family (some dev) effects ui =
      let (sent, answer, cloud) = fetch_keypad_key cjson dev.mac w.second ui.cloud in
      pair_fetched w family dev answer (effects ++ post sent ∷ []) (record ui { cloud = cloud })

  abbrev pub pair_listed :
      Around
      → KeypadFamily
      → Bytes
      → Answer (List AccountDevice)
      → List UiEffect
      → PairingUi
      → Handled
  pair_listed w family mac (error msg) effects ui =
      (reply_error (text "502 Bad Gateway") msg, effects, ui)
  pair_listed w family mac (ok devices) effects ui =
      pair_found w family (find_device mac devices) effects ui

  unfoldable pub handle_pair : Around → HttpReq → PairingUi → Handled
  handle_pair w req ui =
      let mac = extract_json_str cjson (body_of req) (text "mac") in
      let family =
        keypad_family_from_str (some (extract_json_str cjson (body_of req) (text "family"))) in
      let (sent, answer, cloud) = list_devices cjson false w.first ui.cloud in
      if is_nil mac
      then (reply_error (text "400 Bad Request") (text "Missing keypad mac."), [], ui)
      else if not (is_logged_in ui.cloud)
      then (reply_error (text "401 Unauthorized") (text "Sign in first."), [], ui)
      else pair_listed w family mac answer (post sent ∷ []) (record ui { cloud = cloud })

  abbrev pub dispatch : Route → Around → HttpReq → PairingUi → Handled
  dispatch root w req ui = handle_root ui
  dispatch Route.login w req ui = handle_login w req ui
  dispatch keypads w req ui = handle_keypads w ui
  dispatch pair w req ui = handle_pair w req ui
  dispatch pair_status w req ui = handle_status ui
  dispatch events w req ui = handle_provided (text "[]") w ui
  dispatch users_get w req ui = handle_provided (text "[]") w ui
  dispatch users_set w req ui = handle_users_set w req ui
  dispatch settings_get w req ui = handle_provided (text "{}") w ui
  dispatch settings_set w req ui = handle_settings_set w req ui
  dispatch comm_key w req ui = handle_commkey ui
  dispatch paired w req ui = handle_provided (text "{}") w ui

  -- Every handler begins with `require_auth_`.
  unfoldable pub serve : (Bytes → Option Bytes) → Route → Around → HttpReq → PairingUi → Handled
  serve base64_decode route w req ui =
      if require_auth base64_decode req.authorization ui.credentials
      then dispatch route w req ui
      else (unauthorized, [], ui)
