-- ===== src/Bridge/Settings.antt =====
-- components/switchbot_keypad_bridge/switchbot_keypad_bridge.cpp: the settings that the web page edits
-- and the flash keeps. The JSON parser is not part of the program: a request is what it reports.
pub mod Stored
use switchbot_keypad_bridge.Common.{
  ℕ, ◌*◌, ◌/◌, Bool, true, false, not, ◌||◌, Option, none, some, [], ◌∷◌, ltb, leb, ◌==◌,
  if◌then◌else◌, ℤ, pos, negsuc,
}
use switchbot_keypad_bridge.Bridge.State.{
  SettingsBlob, Unlocks, Battery, Bridge, Method, save_settings,
}

-- The members that the handler asks for, where they have the type it wants; a number is truncated.
pub record SettingsRequest : Type 0 where
  pub battery_scan_interval_s : Option ℤ
  pub min_unlock_interval_s : Option ℤ
  pub scan_enabled : Option Bool

-- `if (secs < lo) secs = lo; if (secs > hi) secs = hi;`
unfoldable pub clamp : ℕ → ℕ → ℤ → ℕ
clamp lo hi (negsuc n) = lo
clamp lo hi (pos n) = if ltb n lo then lo else if ltb hi n then hi else n

unfoldable pub set_interval : Option ℤ → Battery → Battery
set_interval none b = b
set_interval (some secs) b = record b { scan_interval_ms = clamp 30 86400 secs * 1000 }

unfoldable pub set_min_unlock : Option ℤ → Unlocks → Unlocks
set_min_unlock none u = u
set_min_unlock (some secs) u = record u { min_interval_ms = clamp 0 60 secs * 1000 }

unfoldable pub set_scan_enabled : Option Bool → Battery → Battery
set_scan_enabled none b = b
set_scan_enabled (some on) b = record b { scan_enabled = on }

abbrev pub is_given {ℓ} : {A : Type ℓ} → Option A → Bool
is_given none = false
is_given (some x) = true

abbrev pub changes : SettingsRequest → Bool
changes q =
    is_given q.battery_scan_interval_s
    || is_given q.min_unlock_interval_s
    || is_given q.scan_enabled

-- `none` is a body that does not parse. The result says whether anything was set.
unfoldable pub set_web_settings : Option SettingsRequest → Bridge → Bool × Bridge
set_web_settings none s = (false, s)
set_web_settings (some q) s = (
  changes q,
  record s {
    battery = set_scan_enabled q.scan_enabled (set_interval q.battery_scan_interval_s s.battery);
    unlocks = set_min_unlock q.min_unlock_interval_s s.unlocks;
    pending = record (s.pending) { settings_dirty = changes q || s.pending.settings_dirty };
  },
)

unfoldable pub settings_blob : Bridge → SettingsBlob
settings_blob s = record {
  version = 2;
  battery_scan_interval_ms = s.battery.scan_interval_ms;
  min_unlock_interval_ms = s.unlocks.min_interval_ms;
  scan_enabled = if s.battery.scan_enabled then 1 else 0;
}

unfoldable pub save_settings_now : Method
save_settings_now s = (save_settings (settings_blob s) ∷ [], s)

-- The values of a blob that pass their checks.
unfoldable pub adopt_settings : SettingsBlob → Bridge → Bridge
adopt_settings blob s = record s {
  battery = record (s.battery) {
    scan_interval_ms =
        if leb 30000 blob.battery_scan_interval_ms
        then blob.battery_scan_interval_ms
        else s.battery.scan_interval_ms;
    scan_enabled = not (blob.scan_enabled == 0);
  };
  unlocks = record (s.unlocks) {
    min_interval_ms =
        if leb blob.min_unlock_interval_ms 60000
        then blob.min_unlock_interval_ms
        else s.unlocks.min_interval_ms;
  };
}

-- `none` is a preference that does not load.
unfoldable pub load_settings : Option SettingsBlob → Bridge → Bridge
load_settings none s = s
load_settings (some blob) s = if blob.version == 2 then adopt_settings blob s else s

-- What the settings page shows: the two intervals in seconds, and whether scanning is on.
unfoldable pub web_settings : Bridge → ℕ × ℕ × Bool
web_settings s =
    (s.battery.scan_interval_ms / 1000, s.unlocks.min_interval_ms / 1000, s.battery.scan_enabled)
