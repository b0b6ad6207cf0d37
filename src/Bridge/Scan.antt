-- ===== src/Bridge/Scan.antt =====
-- components/switchbot_keypad_bridge/switchbot_keypad_bridge.cpp: the advertisement scan that reads the
-- keypad's battery and its alarm flags. What the BLE stack reports is an argument.
pub mod Alarms
pub mod Calm
pub mod Window
use switchbot_keypad_bridge.Common.{
  ℕ, ◌+◌, Bool, true, false, not, ◌&&◌, ◌||◌, Option, none, some, [], ◌∷◌, leb, if◌then◌else◌, ℤ,
  is_negative, ◌==ℤ◌, Bytes, u32, memcmp_eq,
}
use switchbot_keypad_bridge.KeypadAdvert.{
  KeypadFamily, identify_keypad, KeypadStatus, parse_keypad_status,
}
use switchbot_keypad_bridge.Bridge.State.{
  KeypadInfo, Advert, Bridge, Method, ◌>>◌, emit_if, is_due, on_tamper, on_duress,
  publish_last_seen, publish_rssi, publish_battery, publish_charging, publish_lockout,
  publish_motion, publish_tamper, publish_duress, stop_scan, start_scan, clear_results, save_info,
}

abbrev pub battery_scan_retry_ms : ℕ
battery_scan_retry_ms = 30000

-- What is asked when a window may open: whether the radio scans, whether the page's handler of /api/keypads is in
-- its scan, whether a keypad is connected, and whether a scan starts. A pairing job is not asked about.
pub record Radio : Type 0 where
  pub is_scanning : Bool
  pub is_ble_scan_busy : Bool
  pub is_connected : Bool
  pub starts : Bool

abbrev set_next_scan : ℕ → Bridge → Bridge
set_next_scan at s = record s { battery = record (s.battery) { next_scan_at = at } }

-- The branch for an open window.
unfoldable pub close_scan : ℕ → Radio → Method
close_scan now radio s =
    if not radio.is_scanning
    then (
      clear_results ∷ [],
      record s {
        battery = record (s.battery) {
          scan_active = false;
          next_scan_at = u32 (now + s.battery.scan_interval_ms);
        };
      },
    )
    else ([], s)

abbrev pub must_defer : Radio → Bridge → Bool
must_defer radio s =
    not s.identity.paired || radio.is_ble_scan_busy || radio.is_connected || radio.is_scanning

unfoldable pub open_scan : ℕ → Radio → Method
open_scan now radio s =
    if must_defer radio s
    then ([], set_next_scan (u32 (now + battery_scan_retry_ms)) s)
    else if radio.starts
    then (start_scan ∷ [], record s { battery = record (s.battery) { scan_active = true } })
    else (start_scan ∷ [], set_next_scan (u32 (now + battery_scan_retry_ms)) s)

unfoldable pub maybe_start_battery_scan : ℕ → Radio → Method
unfolding close_scan open_scan
maybe_start_battery_scan now radio s =
    if s.battery.scan_active
    then close_scan now radio s
    else if not s.battery.scan_enabled
    then ([], s)
    else if not (is_due now s.battery.next_scan_at)
    then ([], s)
    else open_scan now radio s

-- An advertisement as the scan callback gets it; without manufacturer data `mfr` is empty.
pub record SeenAdvert : Type 0 where
  pub mac : Bytes
  pub svc : Bytes
  pub mfr : Bytes
  pub rssi : ℤ

-- The family of the keypad that the advertisement is of; `none` is an advertisement to ignore.
unfoldable pub advert_family : SeenAdvert → KeypadInfo → Option KeypadFamily
advert_family adv info =
    let ident = identify_keypad (some adv.svc) in
    if info.valid
    then (if memcmp_eq adv.mac info.mac then some info.family else none)
    else (if ident.is_keypad then some ident.family else none)

unfoldable pub keep_advert : SeenAdvert → KeypadFamily → Bridge → Bridge
keep_advert adv family s =
    let status = parse_keypad_status family (some adv.svc) (some adv.mfr) in
    let advert : Advert = record {
      status = status;
      rssi = adv.rssi;
      mac = adv.mac;
      family = family;
    } in
    if status.valid then record s { battery = record (s.battery) { pending = some advert } } else s

abbrev pub take_advert : SeenAdvert → Option KeypadFamily → Bridge → Bridge
take_advert adv none s = s
take_advert adv (some family) s = keep_advert adv family s

unfoldable pub handle_battery_advert : SeenAdvert → Bridge → Bridge
handle_battery_advert adv s =
    if not s.battery.scan_active then s else take_advert adv (advert_family adv s.identity.info) s

-- Not before the clock was set; the time is in seconds.
unfoldable pub publish_last_seen_now : ℕ → Method
publish_last_seen_now epoch s =
    emit_if (s.wiring.last_seen && leb 1600000000 epoch) (publish_last_seen epoch) s

-- A keypad paired before its MAC was kept.
unfoldable pub learn_info : Advert → Method
learn_info a s =
    let info : KeypadInfo = record { mac = a.mac; family = a.family; valid = true } in
    if s.identity.info.valid
    then ([], s)
    else (save_info info ∷ [], record s { identity = record (s.identity) { info = info } })

unfoldable pub publish_level : ℤ → Method
publish_level level s =
    if s.wiring.battery_level && not (is_negative level) && not (level ==ℤ s.battery.last_battery)
    then (
      publish_battery (some level) ∷ [],
      record s { battery = record (s.battery) { last_battery = level } },
    )
    else ([], s)

unfoldable pub publish_flags : KeypadStatus → Method
publish_flags st =
    (λ s. emit_if s.wiring.charging (publish_charging st.charging) s)
    >> (λ s. emit_if s.wiring.lockout (publish_lockout st.lockout) s)
    >> (λ s. emit_if s.wiring.motion (publish_motion st.motion) s)
    >> (λ s. emit_if s.wiring.tamper (publish_tamper st.tamper) s)
    >> (λ s. emit_if s.wiring.duress (publish_duress st.duress) s)

-- The alarms, on the rising edge of their flags only.
unfoldable pub raise_alarms : KeypadStatus → Method
raise_alarms st =
    (λ s. emit_if (st.tamper && not s.battery.last_tamper) on_tamper s)
    >> (λ s. emit_if (st.duress && not s.battery.last_duress) on_duress s)
    >> (λ s. (
      [],
      record s {
        battery = record (s.battery) { last_tamper = st.tamper; last_duress = st.duress };
      },
    ))

-- The readings of an advertisement.
unfoldable pub publish_readings : ℕ → Advert → Method
publish_readings epoch a =
    (λ s. emit_if s.wiring.rssi (publish_rssi a.rssi) s)
    >> publish_last_seen_now epoch
    >> learn_info a
    >> publish_level a.status.battery
    >> publish_flags a.status

-- What is done with an advertisement that is taken off the hand-over.
unfoldable pub apply_advert : ℕ → Bool → Advert → Method
apply_advert epoch is_scanning a =
    publish_readings epoch a
    >> raise_alarms a.status
    >> (λ s. emit_if (s.battery.scan_active && is_scanning) stop_scan s)

unfoldable pub apply_pending_battery : ℕ → Bool → Method
apply_pending_battery epoch is_scanning s = elim s.battery.pending [
  | none ↦ ([], s)
  | some a ↦
      apply_advert epoch is_scanning a
        (record s { battery = record (s.battery) { pending = none } })
]
