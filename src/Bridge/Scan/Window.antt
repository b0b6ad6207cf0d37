-- ===== src/Bridge/Scan/Window.antt =====
-- components/switchbot_keypad_bridge/switchbot_keypad_bridge.cpp: when the radio scans, and whose
-- advertisements count.
use switchbot_keypad_bridge.Common.{
  ℕ, ◌≡◌, refl, ap, ◌∙◌, ◌↔◌, ◌⊎◌, inl, inr, Bool, true, false, not, some, [], ◌∷◌, arith,
  if◌then◌else◌, Bool-cases, Option-cases,
}
use switchbot_keypad_bridge.KeypadAdvert.{KeypadFamily, parse_keypad_status}
use switchbot_keypad_bridge.Bridge.State.{Advert, Bridge, is_due, start_scan}
use switchbot_keypad_bridge.Bridge.Scan.{
  Radio, close_scan, open_scan, maybe_start_battery_scan, SeenAdvert, advert_family, keep_advert,
  take_advert, handle_battery_advert,
}

-- A scan may start: one is wanted and due, and nothing else that the bridge asks about uses the radio.
pub record MayScan (now : ℕ) (radio : Radio) (s : Bridge) : Type 0 where
  pub closed : s.battery.scan_active ≡ false
  pub enabled : s.battery.scan_enabled ≡ true
  pub due : is_due now s.battery.next_scan_at ≡ true
  pub paired : s.identity.paired ≡ true
  pub not_listing : radio.is_ble_scan_busy ≡ false
  pub no_keypad : radio.is_connected ≡ false
  pub idle : radio.is_scanning ≡ false

-- The bridge asks the radio to scan exactly when scanning is on, a scan is due and none is open, a
-- keypad is paired, and neither the scan that lists keypads for the page nor a connected keypad nor another
-- scan has the radio.
pub maybe_start_battery_scan_iff :
    (now : ℕ) (radio : Radio) (s : Bridge)
    → ((maybe_start_battery_scan now radio s).0 ≡ start_scan ∷ []) ↔ MayScan now radio s
unfolding maybe_start_battery_scan close_scan open_scan
maybe_start_battery_scan_iff now radio s = (λ h. ground arith, λ h. ground arith)

-- What is kept of an advertisement.
pub record Counts (adv : SeenAdvert) (s : Bridge) (a : Advert) : Type 0 where
  pub window_open : s.battery.scan_active ≡ true
  pub known : advert_family adv s.identity.info ≡ some a.family
  pub same_mac : a.mac ≡ adv.mac
  pub status : a.status ≡ parse_keypad_status a.family (some adv.svc) (some adv.mfr)
  pub is_valid : a.status.valid ≡ true

kept-Counts :
    (adv : SeenAdvert) (family : KeypadFamily) (s : Bridge)
    → s.battery.scan_active ≡ true
    → advert_family adv s.identity.info ≡ some family
    → (keep_advert adv family s ≡ s)
      ⊎ ((a : Advert) × Counts adv s a
          × (keep_advert adv family s
              ≡ record s { battery = record (s.battery) { pending = some a } }))
unfolding keep_advert
kept-Counts adv family s on e =
    let st = parse_keypad_status family (some adv.svc) (some adv.mfr) in
    let a : Advert = record { status = st; rssi = adv.rssi; mac = adv.mac; family = family } in
    let taken : Bridge = record s { battery = record (s.battery) { pending = some a } } in
    elim (Bool-cases st.valid) [
      | inr bad ↦ inl (ap (λ b. if b then taken else s) bad)
      | inl good ↦
          let counts : Counts adv s a = record {
            window_open = on;
            known = e;
            same_mac = refl;
            status = refl;
            is_valid = good;
          } in
          inr (a, counts, ap (λ b. if b then taken else s) good)
    ]

-- An advertisement changes only the hand-over to the main task, and that only inside the bridge's own
-- window, if it is of the paired keypad (by its MAC, or, while that is unknown, by its signature) and
-- carries a status; what is handed over is what it says.
pub handle_battery_advert-Counts :
    (adv : SeenAdvert) (s : Bridge)
    → (handle_battery_advert adv s ≡ s)
      ⊎ ((a : Advert) × Counts adv s a
          × (handle_battery_advert adv s
              ≡ record s { battery = record (s.battery) { pending = some a } }))
unfolding handle_battery_advert
handle_battery_advert-Counts adv s =
    let family = advert_family adv s.identity.info in
    elim (Bool-cases s.battery.scan_active) [
      | inr off ↦ inl (close false off)
      | inl on ↦ elim (Option-cases family) [
        | inl e ↦ inl (close true on ∙ ap (λ o. take_advert adv o s) e)
        | inr (f, e) ↦
            let opened = close true on ∙ ap (λ o. take_advert adv o s) e in
            elim (kept-Counts adv f s on e) [
              | inl same ↦ inl (opened ∙ same)
              | inr (a, counts, kept) ↦ inr (a, counts, opened ∙ kept)
            ]
      ]
    ]
  where
    close :
        (b : Bool)
        → s.battery.scan_active ≡ b
        → (if not s.battery.scan_active
            then s
            else take_advert adv (advert_family adv s.identity.info) s)
          ≡ (if not b then s else take_advert adv (advert_family adv s.identity.info) s)
    close b = ap (λ b. if not b then s else take_advert adv (advert_family adv s.identity.info) s)
