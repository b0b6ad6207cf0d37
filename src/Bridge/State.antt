-- ===== src/Bridge/State.antt =====
-- components/switchbot_keypad_bridge/switchbot_keypad_bridge.h: the state of the bridge component, and
-- what it does to the outside. Entities are pointers that may be null: `Wiring` says which are set.
use switchbot_keypad_bridge.Common.{
  ℕ, ◌+◌, ◌-◌, ◌%◌, ◌^◌, Bool, false, Option, List, [], ◌∷◌, ◌++◌, ltb, if◌then◌else◌, replicate, ℤ,
  Bytes,
}
use switchbot_keypad_bridge.LockProtocol.{UnlockMethod}
use switchbot_keypad_bridge.KeypadAdvert.{KeypadFamily, KeypadStatus, original}
use switchbot_keypad_bridge.LockSession.{LockSession}
use switchbot_keypad_bridge.Bridge.Users.{UserEntry}
use switchbot_keypad_bridge.Bridge.EventLog.{LogEvent}

pub data LockState : Type 0 where
  locked unlocked : LockState

-- The enumerators' values, which a state poll reports.
abbrev pub lock_state_byte : LockState → ℕ
lock_state_byte locked = 0x81
lock_state_byte unlocked = 0x91

pub record KeypadInfo : Type 0 where
  pub mac : Bytes
  pub family : KeypadFamily
  pub valid : Bool

abbrev pub no_keypad_info : KeypadInfo
no_keypad_info = record { mac = replicate 6 0; family = original; valid = false }

-- What the flash keeps of the user names and of the settings; `name` is a buffer of 24 bytes.
pub record WebUserRec : Type 0 where
  pub method : ℕ
  pub index : ℤ
  pub name : Bytes

pub record WebUsersBlob : Type 0 where
  pub version : ℕ
  pub count : ℕ
  pub entries : List WebUserRec

pub record SettingsBlob : Type 0 where
  pub version : ℕ
  pub battery_scan_interval_ms : ℕ
  pub min_unlock_interval_ms : ℕ
  pub scan_enabled : ℕ

-- A change that someone outside the component can see, in the order of the calls.
pub data Effect : Type 0 where
  notify : Bytes → Effect
  trigger_event : Bytes → Effect
  on_lock : Effect
  on_unlock : Bytes → ℤ → Bytes → Effect
  on_doorbell : Effect
  on_tamper : Effect
  on_duress : Effect
  on_settings_read : List ℤ → Effect
  publish_keypad : Bytes → Effect
  publish_last_method : Bytes → Effect
  publish_last_user : Bytes → Effect
  publish_unlock_count : ℕ → ℕ → Effect
  publish_connected : Bool → Effect
  publish_last_seen : ℕ → Effect
  publish_rssi : ℤ → Effect
  publish_battery : Option ℤ → Effect
  publish_charging : Bool → Effect
  publish_lockout : Bool → Effect
  publish_motion : Bool → Effect
  publish_tamper : Bool → Effect
  publish_duress : Bool → Effect
  start_advertising : Effect
  stop_scan : Effect
  start_scan : Effect
  clear_results : Effect
  save_name : Bytes → Effect
  save_info : KeypadInfo → Effect
  save_key : Bytes → Effect
  save_web_users : WebUsersBlob → Effect
  save_settings : SettingsBlob → Effect
  clear_comm_key : Effect
  destroy_key : ℕ → Effect
  start_ui : Bytes → Effect
  set_base_mac : Bytes → Effect

-- The entity pointers that are not null.
pub record Wiring : Type 0 where
  pub keypad_event : Bool
  pub keypad_text : Bool
  pub last_method : Bool
  pub last_user : Bool
  pub unlock_counts : List Bool
  pub connected : Bool
  pub last_seen : Bool
  pub rssi : Bool
  pub battery_level : Bool
  pub charging : Bool
  pub lockout : Bool
  pub motion : Bool
  pub tamper : Bool
  pub duress : Bool

-- The emulated lock and its relock timer; times are of `millis()`, which wraps at 2 ^ 32.
pub record Lock : Type 0 where
  pub state : LockState
  pub auto_relock_ms : ℕ
  pub relock_at : ℕ
  pub relock_pending : Bool

-- Debounce of unlocks and their counters.
pub record Unlocks : Type 0 where
  pub min_interval_ms : ℕ
  pub last_ms : ℕ
  pub last_method : UnlockMethod
  pub last_index : ℤ
  pub counts : List ℕ

pub data QueuedEvent : Type 0 where
  connect disconnect : QueuedEvent
  rx : Bytes → QueuedEvent

-- The advert that the scan callback hands over.
pub record Advert : Type 0 where
  pub status : KeypadStatus
  pub rssi : ℤ
  pub mac : Bytes
  pub family : KeypadFamily

pub record Battery : Type 0 where
  pub scan_active : Bool
  pub next_scan_at : ℕ
  pub scan_interval_ms : ℕ
  pub scan_enabled : Bool
  pub last_battery : ℤ
  pub last_tamper : Bool
  pub last_duress : Bool
  pub pending : Option Advert

pub record Identity : Type 0 where
  pub name : Bytes
  pub info : KeypadInfo
  pub paired : Bool
  pub shared_key : Bytes
  pub aes_key_handle : ℕ

-- What other tasks hand to the main task; `pair_apply` carries the three `pending_keypad_*` fields.
pub record Pending : Type 0 where
  pub pair_apply : Option (Bytes × Bytes × KeypadFamily)
  pub web_users_dirty : Bool
  pub settings_dirty : Bool
  pub settings_read_inflight : Bool
  pub settings_read_deadline : ℕ
  pub queue : List QueuedEvent

pub record Bridge : Type 0 where
  pub session : LockSession
  pub lock : Lock
  pub unlocks : Unlocks
  pub web_users : List UserEntry
  pub users : List UserEntry
  pub event_log : List LogEvent
  pub battery : Battery
  pub identity : Identity
  pub pending : Pending
  pub wiring : Wiring

-- A method of the component: its effects in order, and the state after it.
abbrev pub Method : Type 0
Method = Bridge → List Effect × Bridge

-- One method after another.
infixl 5 ◌>>◌
abbrev pub ◌>>◌ : Method → Method → Method
◌>>◌ f g s = let (es, s') = f s in let (es', s'') = g s' in (es ++ es', s'')

abbrev pub emit : Effect → Method
emit e s = (e ∷ [], s)

abbrev pub skip : Method
skip s = ([], s)

-- An effect where its entity is there.
abbrev pub emit_if : Bool → Effect → Method
emit_if b e s = ((if b then e ∷ [] else []), s)

-- `now - at` on `uint32_t`.
abbrev pub elapsed : ℕ → ℕ → ℕ
elapsed now at = (now + 2 ^ 32 - at) % 2 ^ 32

-- `static_cast<int32_t>(now - at) >= 0`
abbrev pub is_due : ℕ → ℕ → Bool
is_due now at = ltb (elapsed now at) (2 ^ 31)
