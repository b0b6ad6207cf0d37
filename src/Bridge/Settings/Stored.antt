-- ===== src/Bridge/Settings/Stored.antt =====
-- components/switchbot_keypad_bridge/switchbot_keypad_bridge.cpp: settings that the web page sets are in
-- range, and come back from the flash.
use switchbot_keypad_bridge.Common.{
  ℕ, ◌≤◌, ◌≡◌, refl, Bool, Option, none, some, arith, ℤ, pos, negsuc,
}
use switchbot_keypad_bridge.Bridge.State.{Unlocks, Battery, Bridge}
use switchbot_keypad_bridge.Bridge.Settings.{
  SettingsRequest, clamp, set_interval, set_min_unlock, set_scan_enabled, set_web_settings,
  settings_blob, adopt_settings, load_settings, web_settings,
}

clamp_bounds : (lo hi : ℕ) (secs : ℤ) → lo ≤ hi → (lo ≤ clamp lo hi secs) × (clamp lo hi secs ≤ hi)
unfolding clamp
clamp_bounds lo hi (negsuc n) h = omega arith
clamp_bounds lo hi (pos n) h = ground arith

-- The ranges that the flash accepts again; all of them fit 32 bits.
abbrev pub InRange : Bridge → Type 0
InRange s =
    (30000 ≤ s.battery.scan_interval_ms)
    × (s.battery.scan_interval_ms ≤ 86400000)
    × (s.unlocks.min_interval_ms ≤ 60000)

set_interval-InRange :
    (q : Option ℤ) (b : Battery)
    → (30000 ≤ b.scan_interval_ms) × (b.scan_interval_ms ≤ 86400000)
    → (30000 ≤ (set_interval q b).scan_interval_ms)
      × ((set_interval q b).scan_interval_ms ≤ 86400000)
unfolding set_interval
set_interval-InRange none b h = h
set_interval-InRange (some secs) b h = omega (arith, clamp_bounds 30 86400 secs)

set_min_unlock-InRange :
    (q : Option ℤ) (u : Unlocks)
    → u.min_interval_ms ≤ 60000
    → (set_min_unlock q u).min_interval_ms ≤ 60000
unfolding set_min_unlock
set_min_unlock-InRange none u h = h
set_min_unlock-InRange (some secs) u h = omega (arith, clamp_bounds 0 60 secs)

scan_enabled_apart :
    (q : Option Bool) (b : Battery) → (set_scan_enabled q b).scan_interval_ms ≡ b.scan_interval_ms
unfolding set_scan_enabled
scan_enabled_apart none b = refl
scan_enabled_apart (some on) b = refl

-- Whatever a request to the settings page asks for, numbers out of range and negative ones included,
-- the scan interval stays between 30 seconds and a day and the debounce within a minute.
pub set_web_settings-InRange :
    (q : Option SettingsRequest) (s : Bridge) → InRange s → InRange (set_web_settings q s).1
unfolding set_web_settings
set_web_settings-InRange none s h = h
set_web_settings-InRange (some q) s h =
    let i =
      set_interval-InRange q.battery_scan_interval_s s.battery
        (omega (arith, h.0), omega (arith, h.1)) in
    rw (scan_enabled_apart q.scan_enabled (set_interval q.battery_scan_interval_s s.battery))
      (i.0, i.1, set_min_unlock-InRange q.min_unlock_interval_s s.unlocks h.2)

-- Settings in these ranges that are saved replace, at the next start, whatever the configuration had
-- set: the page shows the same values after a restart.
pub load_settings-save :
    (s boot : Bridge)
    → InRange s
    → web_settings (load_settings (some (settings_blob s)) boot) ≡ web_settings s
unfolding web_settings load_settings settings_blob adopt_settings
load_settings-save s boot h = ground arith
