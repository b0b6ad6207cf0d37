-- ===== src/Bridge/Loop.antt =====
-- components/switchbot_keypad_bridge/switchbot_keypad_bridge.cpp: one pass of `loop()` on the main task,
-- and the queue that the BLE task fills for it.
pub mod Relock
pub mod Queue
pub mod Session
use switchbot_keypad_bridge.Common.{
  ℕ, Bool, true, false, not, ◌&&◌, ◌||◌, Option, none, some, List, [], ◌∷◌, ◌++◌, ◌==◌,
  if◌then◌else◌, get_or, drop, is_nil, ℤ, Bytes,
}
use switchbot_keypad_bridge.AesCtr.Cipher.{Xcrypt}
use switchbot_keypad_bridge.LockSession.{Entropy, reset}
use switchbot_keypad_bridge.Bridge.State.{
  Wiring, QueuedEvent, Bridge, Method, ◌>>◌, emit, skip, emit_if, elapsed, is_due, locked,
  on_settings_read, publish_connected, start_advertising, connect, disconnect, rx,
}
use switchbot_keypad_bridge.Bridge.Events.{Clock}
use switchbot_keypad_bridge.Bridge.Commands.{on_rx_frame}
use switchbot_keypad_bridge.Bridge.Settings.{save_settings_now}
use switchbot_keypad_bridge.Bridge.WebUsers.{save_web_users_now}
use switchbot_keypad_bridge.Bridge.Pairing.{apply_pairing}
use switchbot_keypad_bridge.Bridge.Scan.{
  Radio, maybe_start_battery_scan, publish_last_seen_now, apply_pending_battery,
}

-- `push_connect_`, `push_disconnect_` and `push_rx_`.
unfoldable pub push_queue : QueuedEvent → Bridge → Bridge
push_queue ev s = record s { pending = record (s.pending) { queue = s.pending.queue ++ ev ∷ [] } }

-- The callback of the characteristic: an empty value is no frame.
unfoldable pub on_write : Bytes → Bridge → Bridge
on_write value s = if is_nil value then s else push_queue (rx value) s

-- Edits of the web page are written on the main task.
unfoldable pub flush_edits : Method
flush_edits =
    (λ s. (
      (if s.pending.web_users_dirty then (save_web_users_now s).0 else []),
      record s { pending = record (s.pending) { web_users_dirty = false } },
    ))
    >> (λ s. (
      (if s.pending.settings_dirty then (save_settings_now s).0 else []),
      record s { pending = record (s.pending) { settings_dirty = false } },
    ))

unfoldable pub relock_step : ℕ → Method
relock_step now s =
    if s.lock.relock_pending && is_due now s.lock.relock_at
    then ([], record s { lock = record (s.lock) { relock_pending = false; state = locked } })
    else ([], s)

abbrev end_read : Bridge → Bridge
end_read s = record s { pending = record (s.pending) { settings_read_inflight = false } }

-- `static_cast<int32_t>(now - at) > 0`
abbrev is_past : ℕ → ℕ → Bool
is_past now at = is_due now at && not (elapsed now at == 0)

-- The values that the pairer's task has, if it has any, or the end of the wait.
unfoldable pub settings_read_step : ℕ → Option (List ℤ) → Method
settings_read_step now none s =
    if s.pending.settings_read_inflight && is_past now s.pending.settings_read_deadline
    then ([], end_read s)
    else ([], s)
settings_read_step now (some vals) s =
    if s.pending.settings_read_inflight then (on_settings_read vals ∷ [], end_read s) else ([], s)

-- The session starts afresh with a connection and ends with it.
abbrev reset_session : Method
reset_session s = ([], record s { session = reset s.session })

unfoldable pub on_connect : ℕ → Method
on_connect epoch =
    reset_session
    >> (λ s. emit_if s.wiring.connected (publish_connected true) s)
    >> publish_last_seen_now epoch

unfoldable pub on_disconnect : Method
on_disconnect =
    reset_session
    >> emit start_advertising
    >> (λ s. emit_if s.wiring.connected (publish_connected false) s)

-- What the clocks and the random source give while one event is handled.
pub record Moment : Type 0 where
  pub clock : Clock
  pub entropy : Entropy

-- What `loop()` asks the outside for: the time at its start and at its end, the values of a settings
-- read, whether the radio scans when an advertisement is applied, and the radio after that.
pub record Pass : Type 0 where
  pub now : ℕ
  pub epoch : ℕ
  pub settings : Option (List ℤ)
  pub moments : List Moment
  pub was_scanning : Bool
  pub radio : Radio
  pub scan_now : ℕ

abbrev pub no_moment : Moment
no_moment = record {
  clock = record { unlock_ms = 0; log_ms = 0; relock_ms = 0; epoch = 0 };
  entropy = record { w0 = 0; w1 = 0; w2 = 0; w3 = 0 };
}

-- Some entity shows what the advertisements say.
abbrev pub wants_adverts : Wiring → Bool
wants_adverts w =
    w.battery_level || w.rssi || w.last_seen || w.tamper || w.duress || w.lockout || w.motion
    || w.charging

unfoldable pub scan_step : Pass → Method
scan_step p s =
    if wants_adverts s.wiring
    then (apply_pending_battery p.epoch p.was_scanning
          >> maybe_start_battery_scan p.scan_now p.radio)
        s
    else ([], s)

module _ (xcrypt : Xcrypt ℕ) where
  unfoldable pub handle_event : ℕ → Moment → QueuedEvent → Method
  handle_event epoch m connect = on_connect epoch
  handle_event epoch m disconnect = on_disconnect
  handle_event epoch m (rx frame) = on_rx_frame xcrypt m.clock m.entropy frame

  -- The events of the queue, the oldest first; `moments` has what each of them meets.
  unfoldable pub drain : ℕ → List Moment → List QueuedEvent → Method
  drain epoch ms [] = skip
  drain epoch ms (ev ∷ evs) =
      handle_event epoch (get_or ms 0 no_moment) ev >> drain epoch (drop 1 ms) evs

  -- The queue is swapped for an empty one, and what it held is handled.
  unfoldable pub drain_queue : ℕ → List Moment → Method
  drain_queue epoch ms s =
      drain epoch ms s.pending.queue (record s { pending = record (s.pending) { queue = [] } })

  unfoldable pub loop : Pass → Method
  loop p =
      apply_pairing p.now
      >> flush_edits
      >> relock_step p.now
      >> settings_read_step p.now p.settings
      >> drain_queue p.epoch p.moments
      >> scan_step p
