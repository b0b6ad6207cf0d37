-- ===== src/Bridge/Events.antt =====
-- components/switchbot_keypad_bridge/switchbot_keypad_bridge.cpp: publishing lock, unlock and doorbell
-- events, with the debounce of repeated unlocks.
pub mod Announced
pub mod Debounce
pub mod Packets
use switchbot_keypad_bridge.Common.{
  show_int, ℕ, ◌+◌, Bool, false, ◌&&◌, [], ◌++◌, ltb, ◌==◌, if◌then◌else◌, get_or, set, is_nil, ℤ,
  ◌==ℤ◌, int16, negsuc, Bytes, u32, text,
}
use switchbot_keypad_bridge.LockProtocol.{unlock_method_name, unknown, UnlockMethod}
use switchbot_keypad_bridge.Bridge.Users.{lookup_user}
use switchbot_keypad_bridge.Bridge.EventLog.{
  EventType, LogEvent, push_event, lock_event, unlock_event, doorbell_event,
}
use switchbot_keypad_bridge.Bridge.State.{
  Lock, Unlocks, Method, ◌>>◌, emit, emit_if, elapsed, trigger_event, on_lock, on_unlock,
  on_doorbell, publish_last_method, publish_last_user, publish_unlock_count,
}
use switchbot_keypad_bridge.LockProtocol.Method

-- What the clocks read where a handler asks them: `millis()` in the debounce, in the log and when the
-- relock timer is armed, and `time()` in seconds.
pub record Clock : Type 0 where
  pub unlock_ms : ℕ
  pub log_ms : ℕ
  pub relock_ms : ℕ
  pub epoch : ℕ

unfoldable pub log_event : Clock → EventType → UnlockMethod → ℤ → Bytes → Method
log_event c type m i name s =
    let ev : LogEvent = record {
      ts = u32 c.epoch;
      up_ms = c.log_ms;
      type = type;
      method = m;
      index = int16 i;
      name = name;
    } in
    ([], record s { event_log = push_event ev s.event_log })

-- The name, or "<method> #<index>" for an unmapped slot; 32 bytes hold every such label.
unfoldable pub user_label : UnlockMethod → ℤ → Bytes → Bytes
unfolding show_int
user_label m i name =
    if is_nil name then unlock_method_name m ++ (text " #" ++ show_int i) else name

unfoldable pub method_slot : UnlockMethod → ℕ
method_slot m =
    if m == Method.pin
    then 0
    else if m == Method.nfc
    then 1
    else if m == Method.fingerprint
    then 2
    else if m == Method.face
    then 3
    else 4

unfoldable pub publish_lock : Clock → Method
publish_lock c =
    (λ s. emit_if s.wiring.keypad_event (trigger_event (text "Lock")) s)
    >> log_event c lock_event Method.unknown (negsuc 0) []
    >> emit on_lock

unfoldable pub publish_doorbell : Clock → Method
publish_doorbell c =
    (λ s. emit_if s.wiring.keypad_event (trigger_event (text "Doorbell")) s)
    >> log_event c doorbell_event Method.unknown (negsuc 0) []
    >> emit on_doorbell

-- A repeat of the last credential inside the window, when there is one.
unfoldable pub is_debounced : ℕ → UnlockMethod → ℤ → Unlocks → Bool
is_debounced now m i u =
    (u.last_index ==ℤ i) && (u.last_method == m) && ltb (elapsed now u.last_ms) u.min_interval_ms

-- `unlock_counts_[slot]++`, a uint32_t, and its sensor.
unfoldable pub count_unlock : UnlockMethod → Method
count_unlock m s =
    let slot = method_slot m in
    let n = u32 (get_or s.unlocks.counts slot 0 + 1) in
    let s' = record s { unlocks = record (s.unlocks) { counts = set s.unlocks.counts slot n } } in
    emit_if (get_or s.wiring.unlock_counts slot false) (publish_unlock_count slot n) s'

-- The part of `publish_unlock_` behind the debounce.
unfoldable pub announce_unlock : Clock → UnlockMethod → ℤ → Method
announce_unlock c m i s =
    let name = lookup_user s.web_users s.users m i in
    (emit_if s.wiring.last_method (publish_last_method (unlock_method_name m))
        >> emit_if s.wiring.last_user (publish_last_user (user_label m i name))
        >> count_unlock m
        >> log_event c unlock_event m i name
        >> emit_if s.wiring.keypad_event (trigger_event (text "Unlock"))
        >> emit (on_unlock (unlock_method_name m) i name))
      s

-- `last_unlock_ms_ = now`, where there is a window.
unfoldable pub stamp : ℕ → Unlocks → Unlocks
stamp now u = if ltb 0 u.min_interval_ms then record u { last_ms = now } else u

unfoldable pub publish_unlock : Clock → UnlockMethod → ℤ → Method
publish_unlock c m i s =
    let timed = stamp c.unlock_ms s.unlocks in
    if ltb 0 s.unlocks.min_interval_ms && is_debounced c.unlock_ms m i s.unlocks
    then ([], record s { unlocks = timed })
    else announce_unlock c m i
        (record s { unlocks = record timed { last_method = m; last_index = i } })
