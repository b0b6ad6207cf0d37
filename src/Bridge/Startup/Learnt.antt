-- ===== src/Bridge/Startup/Learnt.antt =====
-- components/switchbot_keypad_bridge/switchbot_keypad_bridge.cpp: what an advertisement changes in the flash.
use switchbot_keypad_bridge.Common.{ℕ, refl, ap, Bool, true, not, ◌&&◌, [], leb, ℤ}
use switchbot_keypad_bridge.Bridge.State.{
  Advert, on_tamper, on_duress, publish_last_seen, publish_rssi, publish_charging, publish_lockout,
  publish_motion, publish_tamper, publish_duress, stop_scan,
}
use switchbot_keypad_bridge.KeypadAdvert.{KeypadStatus}
use switchbot_keypad_bridge.Bridge.Scan.{
  publish_last_seen_now, learn_info, publish_level, publish_flags, raise_alarms, publish_readings,
  apply_advert,
}
use switchbot_keypad_bridge.Bridge.Startup.InStep.{
  KeepsStep, then-KeepsStep, emit_if-KeepsStep, keeps-if,
}

-- The readings of an advertisement, with the address that may be learnt from it.
publish_last_seen_now-KeepsStep : (epoch : ℕ) → KeepsStep (publish_last_seen_now epoch)
unfolding publish_last_seen_now
publish_last_seen_now-KeepsStep epoch =
    emit_if-KeepsStep (λ s. s.wiring.last_seen && leb 1600000000 epoch) (publish_last_seen epoch)
      (λ f. refl)

learn_info-KeepsStep : (a : Advert) → KeepsStep (learn_info a)
unfolding learn_info
learn_info-KeepsStep a = record {
  at = λ f s h.
      keeps-if s.identity.info.valid _ _ f h
        (ap (λ t. (t.0, t.1, t.2, record { mac = a.mac; family = a.family; valid = true })) h);
}

publish_level-KeepsStep : (level : ℤ) → KeepsStep (publish_level level)
unfolding publish_level
publish_level-KeepsStep level = record { at = λ f s h. keeps-if _ _ _ f h h }

publish_flags-KeepsStep : (st : KeypadStatus) → KeepsStep (publish_flags st)
unfolding publish_flags
publish_flags-KeepsStep st =
    then-KeepsStep
      (then-KeepsStep
        (then-KeepsStep
          (then-KeepsStep
            (emit_if-KeepsStep (λ s. s.wiring.charging) (publish_charging st.charging) (λ f. refl))
            (emit_if-KeepsStep (λ s. s.wiring.lockout) (publish_lockout st.lockout) (λ f. refl)))
          (emit_if-KeepsStep (λ s. s.wiring.motion) (publish_motion st.motion) (λ f. refl)))
        (emit_if-KeepsStep (λ s. s.wiring.tamper) (publish_tamper st.tamper) (λ f. refl)))
      (emit_if-KeepsStep (λ s. s.wiring.duress) (publish_duress st.duress) (λ f. refl))

set_alarms-KeepsStep :
    (t d : Bool)
    → KeepsStep
        (λ s. ([], record s { battery = record (s.battery) { last_tamper = t; last_duress = d } }))
set_alarms-KeepsStep t d = record { at = λ f s h. h }

raise_alarms-KeepsStep : (st : KeypadStatus) → KeepsStep (raise_alarms st)
unfolding raise_alarms
raise_alarms-KeepsStep st =
    then-KeepsStep
      (then-KeepsStep
        (emit_if-KeepsStep (λ s. st.tamper && not s.battery.last_tamper) on_tamper (λ f. refl))
        (emit_if-KeepsStep (λ s. st.duress && not s.battery.last_duress) on_duress (λ f. refl)))
      (set_alarms-KeepsStep st.tamper st.duress)

publish_readings-KeepsStep : (epoch : ℕ) (a : Advert) → KeepsStep (publish_readings epoch a)
unfolding publish_readings
publish_readings-KeepsStep epoch a =
    then-KeepsStep
      (then-KeepsStep
        (then-KeepsStep
          (then-KeepsStep (emit_if-KeepsStep (λ s. s.wiring.rssi) (publish_rssi a.rssi) (λ f. refl))
            (publish_last_seen_now-KeepsStep epoch))
          (learn_info-KeepsStep a))
        (publish_level-KeepsStep a.status.battery))
      (publish_flags-KeepsStep a.status)

pub apply_advert-KeepsStep :
    (epoch : ℕ) (is_scanning : Bool) (a : Advert) → KeepsStep (apply_advert epoch is_scanning a)
unfolding apply_advert
apply_advert-KeepsStep epoch is_scanning a =
    then-KeepsStep
      (then-KeepsStep (publish_readings-KeepsStep epoch a) (raise_alarms-KeepsStep a.status))
      (emit_if-KeepsStep (λ s. s.battery.scan_active && is_scanning) stop_scan (λ f. refl))
