-- ===== src/Bridge/EventLog.antt =====
-- components/switchbot_keypad_bridge/switchbot_keypad_bridge.cpp: the on-device log of the last
-- events (`log_event_`, and what `events_json_` reports of it).
pub mod Bounded
use switchbot_keypad_bridge.Common.{
  ℕ, ◌+◌, ◌-◌, ◌%◌, ◌^◌, Option, none, some, List, [], ◌∷◌, ◌++◌, ltb, if◌then◌else◌, length, ℤ,
  Bytes, text,
}
use switchbot_keypad_bridge.LockProtocol.{unlock_method_name, lock, unlock, doorbell, UnlockMethod}

pub data EventType : Type 0 where
  lock_event unlock_event doorbell_event : EventType

pub record LogEvent : Type 0 where
  pub ts : ℕ
  pub up_ms : ℕ
  pub type : EventType
  pub method : UnlockMethod
  pub index : ℤ
  pub name : Bytes

abbrev pub event_log_max : ℕ
event_log_max = 32

-- `while (size > EVENT_LOG_MAX) pop_front();`, the oldest first
unfoldable pub pop_excess : List LogEvent → List LogEvent
pop_excess [] = []
pop_excess (e ∷ es) =
    let rest = pop_excess es in if ltb event_log_max (length (e ∷ es)) then rest else e ∷ es

unfoldable pub push_event : LogEvent → List LogEvent → List LogEvent
push_event ev log = pop_excess (log ++ ev ∷ [])

-- One object of the array that `events_json_` serialises: the age of the event, and the credential of
-- an unlock.
pub record EventReport : Type 0 where
  pub type_name : Bytes
  pub ts : ℕ
  pub ago : ℕ
  pub credential : Option (Bytes × ℤ × Bytes)

unfoldable pub event_type_name : EventType → Bytes
event_type_name lock_event = text "lock"
event_type_name unlock_event = text "unlock"
event_type_name doorbell_event = text "doorbell"

abbrev credential_of : EventType → LogEvent → Option (Bytes × ℤ × Bytes)
credential_of unlock_event e = some (unlock_method_name e.method, e.index, e.name)
credential_of _ e = none

unfoldable pub report_event : ℕ → LogEvent → EventReport
unfolding event_type_name
report_event now_ms e = record {
  type_name = event_type_name e.type;
  ts = e.ts;
  ago = (now_ms + 2 ^ 32 - e.up_ms) % 2 ^ 32;
  credential = credential_of e.type e;
}

-- From the newest to the oldest, as the reverse iterator goes.
unfoldable pub report_newest_first : ℕ → List LogEvent → List EventReport → List EventReport
unfolding report_event
report_newest_first now_ms [] acc = acc
report_newest_first now_ms (e ∷ es) acc =
    report_newest_first now_ms es (report_event now_ms e ∷ acc)

unfoldable pub events_json : ℕ → List LogEvent → List EventReport
unfolding report_newest_first
events_json now_ms log = report_newest_first now_ms log []
