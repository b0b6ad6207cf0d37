-- ===== src/Bridge/Configured.antt =====
-- components/switchbot_keypad_bridge/switchbot_keypad_bridge.h: the bridge as it is constructed, and what the
-- generated code sets before `setup()`. The setters of entities are the `Wiring` that it is constructed with.
use switchbot_keypad_bridge.Common.{
  ℕ, true, false, none, [], ◌∷◌, ◌++◌, replicate, ℤ, int16, negsuc, Bytes, u8, u32,
}
use switchbot_keypad_bridge.LockProtocol.Method.{unknown}
use switchbot_keypad_bridge.LockSession.{new_session}
use switchbot_keypad_bridge.Bridge.Users.{UserEntry}
use switchbot_keypad_bridge.Bridge.State.{no_keypad_info, Wiring, Bridge, locked}
use switchbot_keypad_bridge.Bridge.Pairing.{keypad_name_max}

-- The initialisers of the class, where -2 is no credential and -1 no battery level.
unfoldable pub new_bridge : Wiring → Bridge
new_bridge wiring = record {
  session = new_session;
  lock = record { state = locked; auto_relock_ms = 0; relock_at = 0; relock_pending = false };
  unlocks = record {
    min_interval_ms = 0;
    last_ms = 0;
    last_method = unknown;
    last_index = negsuc 1;
    counts = replicate 5 0;
  };
  web_users = [];
  users = [];
  event_log = [];
  battery = record {
    scan_active = false;
    next_scan_at = 0;
    scan_interval_ms = 900000;
    scan_enabled = true;
    last_battery = negsuc 0;
    last_tamper = false;
    last_duress = false;
    pending = none;
  };
  identity = record {
    name = replicate keypad_name_max 0;
    info = no_keypad_info;
    paired = false;
    shared_key = replicate 16 0;
    aes_key_handle = 0;
  };
  pending = record {
    pair_apply = none;
    web_users_dirty = false;
    settings_dirty = false;
    settings_read_inflight = false;
    settings_read_deadline = 0;
    queue = [];
  };
  wiring = wiring;
}

unfoldable pub add_user : ℕ → ℤ → Bytes → Bridge → Bridge
add_user method index name s =
    let u : UserEntry = record { method = u8 method; index = int16 index; name = name } in
    record s { users = s.users ++ u ∷ [] }

unfoldable pub set_min_unlock_interval : ℕ → Bridge → Bridge
set_min_unlock_interval ms s = record s {
  unlocks = record (s.unlocks) { min_interval_ms = u32 ms };
}

unfoldable pub set_auto_relock : ℕ → Bridge → Bridge
set_auto_relock ms s = record s { lock = record (s.lock) { auto_relock_ms = u32 ms } }

unfoldable pub set_battery_scan_interval : ℕ → Bridge → Bridge
set_battery_scan_interval ms s = record s {
  battery = record (s.battery) { scan_interval_ms = u32 ms };
}
