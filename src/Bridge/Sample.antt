-- ===== src/Bridge/Sample.antt =====
-- A bridge of components/switchbot_keypad_bridge/switchbot_keypad_bridge.cpp that a keypad is paired
-- with, for tests.
use switchbot_keypad_bridge.KeypadAdvert.{no_status, original, vision}
use switchbot_keypad_bridge.LockSession.Sample.{live_session}
use switchbot_keypad_bridge.Bridge.Users.{UserEntry}
use switchbot_keypad_bridge.Bridge.Events.{Clock}
use switchbot_keypad_bridge.Bridge.Scan.{Radio}
use switchbot_keypad_bridge.Common.{true, false, none, some, [], ◌∷◌, replicate, pos, negsuc, text}
use switchbot_keypad_bridge.Bridge.Startup.{Boot}
use switchbot_keypad_bridge.Bridge.State.{KeypadInfo, Wiring, Advert, Bridge, locked}

abbrev pub wired : Wiring
wired = record {
  keypad_event = true;
  keypad_text = true;
  last_method = true;
  last_user = true;
  unlock_counts = replicate 5 true;
  connected = true;
  last_seen = true;
  rssi = true;
  battery_level = true;
  charging = true;
  lockout = true;
  motion = true;
  tamper = true;
  duress = true;
}

abbrev pub anna : UserEntry
anna = record { method = 0x04; index = pos 0; name = text "Anna" }

abbrev pub visitor : UserEntry
visitor = record { method = 0xFF; index = negsuc 0; name = text "Visitor" }

abbrev pub known_keypad : KeypadInfo
known_keypad = record { mac = 1 ∷ 2 ∷ 3 ∷ 4 ∷ 5 ∷ 6 ∷ []; family = original; valid = true }

abbrev pub paired_bridge : Bridge
paired_bridge = record {
  session = live_session;
  lock = record { state = locked; auto_relock_ms = 5000; relock_at = 0; relock_pending = false };
  unlocks = record {
    min_interval_ms = 3000;
    last_ms = 0;
    last_method = 0x00;
    last_index = negsuc 1;
    counts = replicate 5 0;
  };
  web_users = visitor ∷ [];
  users = anna ∷ [];
  event_log = [];
  battery = record {
    scan_active = true;
    next_scan_at = 0;
    scan_interval_ms = 900000;
    scan_enabled = true;
    last_battery = negsuc 0;
    last_tamper = false;
    last_duress = false;
    pending = none;
  };
  identity = record {
    name = text "Keypad";
    info = known_keypad;
    paired = true;
    shared_key = replicate 16 0x5A;
    aes_key_handle = 7;
  };
  pending = record {
    pair_apply = none;
    web_users_dirty = false;
    settings_dirty = false;
    settings_read_inflight = false;
    settings_read_deadline = 0;
    queue = [];
  };
  wiring = wired;
}

abbrev pub noon : Clock
noon = record { unlock_ms = 10000; log_ms = 10001; relock_ms = 10002; epoch = 1700000000 }

abbrev pub quiet_radio : Radio
quiet_radio = record {
  is_scanning = false;
  is_ble_scan_busy = false;
  is_connected = false;
  starts = true;
}

-- An advertisement of a keypad that was tampered with.
abbrev pub alarm_advert : Advert
alarm_advert = record {
  status = record no_status { valid = true; battery = pos 80; tamper = true };
  rssi = negsuc 59;
  mac = 1 ∷ 2 ∷ 3 ∷ 4 ∷ 5 ∷ 6 ∷ [];
  family = vision;
}

-- The first start of a bridge.
abbrev pub first_boot : Boot
first_boot = record {
  flash = record { key = none; name = none; info = none; web_users = none; settings = none };
  fresh_key = replicate 16 0xA7;
  now = 0;
  psa_ready = true;
  handle = some 3;
  factory_mac = some (0x24 ∷ 0x6F ∷ 0x28 ∷ 0x0A ∷ 0x0B ∷ 0x0C ∷ []);
  mac_accepted = true;
}
