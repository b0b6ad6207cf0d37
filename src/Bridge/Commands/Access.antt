-- ===== src/Bridge/Commands/Access.antt =====
-- components/switchbot_keypad_bridge/switchbot_keypad_bridge.cpp: what a received frame may do to the
-- emulated lock.
use switchbot_keypad_bridge.Common.{
  ℕ, ◌≡◌, refl, sym, ap, ◌∙◌, ◌⊎◌, inl, inr, false, Bool-cases, ℤ, Bytes,
}
use switchbot_keypad_bridge.AesCtr.Cipher.{Xcrypt}
use switchbot_keypad_bridge.LockProtocol.{
  CommandType, DecodedCommand, decode_lock_command, unlock, UnlockMethod,
}
use switchbot_keypad_bridge.LockSession.{
  process_frame, FrameHeader, Action, drop_frame, send_iv, command, Entropy,
}
use switchbot_keypad_bridge.LockSession.Gate.{IsAccepted, process_frame-command_iff}
use switchbot_keypad_bridge.Bridge.State.{Lock, Bridge, locked, unlocked}
use switchbot_keypad_bridge.Bridge.Events.{
  Clock, log_event, publish_lock, publish_doorbell, count_unlock, announce_unlock, publish_unlock,
}
use switchbot_keypad_bridge.Bridge.Commands.{
  send_ack, arm_relock, send_encrypted_response, handle_state_poll, handle_lock, handle_unlock,
  dispatch_command, handle_command, after_frame, on_rx_frame,
}
use switchbot_keypad_bridge.Bridge.Events.Debounce.{
  is_repeat, publish_unlock-repeat, armed, publish_unlock-other,
}
use switchbot_keypad_bridge.LockSession.Accepted.{last_command-accepted}

announce_unlock-lock :
    (c : Clock) (m : UnlockMethod) (i : ℤ) (s : Bridge) → (announce_unlock c m i s).1.lock ≡ s.lock
unfolding announce_unlock log_event count_unlock
announce_unlock-lock c m i s = refl

publish_unlock-lock :
    (c : Clock) (m : UnlockMethod) (i : ℤ) (s : Bridge) → (publish_unlock c m i s).1.lock ≡ s.lock
publish_unlock-lock c m i s = elim (Bool-cases (is_repeat c m i s.unlocks)) [
  | inl same ↦ rw (publish_unlock-repeat c m i s same) refl
  | inr other ↦ rw (publish_unlock-other c m i s other) (announce_unlock-lock c m i (armed c m i s))
]

module _ (xcrypt : Xcrypt ℕ) where
  handle_lock-lock :
      (c : Clock) (h : FrameHeader) (s : Bridge)
      → (handle_lock xcrypt c h s).1.lock
        ≡ record (s.lock) { state = locked; relock_pending = false }
  unfolding handle_lock publish_lock log_event send_encrypted_response
  handle_lock-lock c h s = refl

  handle_unlock-lock :
      (c : Clock) (h : FrameHeader) (d : DecodedCommand) (s : Bridge)
      → (handle_unlock xcrypt c h d s).1.lock
        ≡ arm_relock c.relock_ms (record (s.lock) { state = unlocked })
  unfolding handle_unlock send_encrypted_response
  handle_unlock-lock c h d s = ap (arm_relock c.relock_ms) (
      publish_unlock-lock c d.method d.credential_index
        (record s { lock = record (s.lock) { state = unlocked } }))

  -- The lock after a command.
  pub lock_after : CommandType → Clock → Lock → Lock
  lock_after CommandType.lock c l = record l { state = locked; relock_pending = false }
  lock_after CommandType.unlock c l = arm_relock c.relock_ms (record l { state = unlocked })
  lock_after _ c l = l

  dispatch_command-lock :
      (t : CommandType) (c : Clock) (h : FrameHeader) (d : DecodedCommand) (s : Bridge)
      → (dispatch_command xcrypt t c h d s).1.lock ≡ lock_after t c s.lock
  unfolding dispatch_command lock_after handle_state_poll send_encrypted_response publish_doorbell
      log_event send_ack
  dispatch_command-lock CommandType.lock c h d s = handle_lock-lock c h s
  dispatch_command-lock CommandType.unlock c h d s = handle_unlock-lock c h d s
  dispatch_command-lock CommandType.state_poll c h d s = refl
  dispatch_command-lock CommandType.doorbell c h d s = refl
  dispatch_command-lock CommandType.unknown c h d s = refl

  pub on_rx_frame-lock :
      (c : Clock) (r : Entropy) (frame : Bytes) (s : Bridge)
      → ((on_rx_frame xcrypt c r frame s).1.lock ≡ s.lock)
        ⊎ ((a : IsAccepted xcrypt frame s.session) × ((on_rx_frame xcrypt c r frame s).1.lock
              ≡ lock_after (decode_lock_command a.plaintext).type c s.lock))
  unfolding on_rx_frame after_frame handle_command
  on_rx_frame-lock c r frame s = go (process_frame xcrypt r frame s.session).0 refl
    where
      s' : Bridge
      s' = record s { session = (process_frame xcrypt r frame s.session).1 }

      go :
          (k : Action)
          → (process_frame xcrypt r frame s.session).0 ≡ k
          → ((after_frame xcrypt k c s').1.lock ≡ s.lock)
            ⊎ ((a : IsAccepted xcrypt frame s.session) × ((after_frame xcrypt k c s').1.lock
                  ≡ lock_after (decode_lock_command a.plaintext).type c s.lock))
      go drop_frame e = inl refl
      go send_iv e = inl refl
      go command e =
          let a = (process_frame-command_iff xcrypt r frame s.session).0 e in
          let d = s'.session.last_command in
          inr (
            a,
            dispatch_command-lock d.type c s'.session.header d s'
                ∙ ap (λ (x : DecodedCommand). lock_after x.type c s.lock)
                    (last_command-accepted xcrypt r frame s.session a),
          )

  lock_after-opens :
      (t : CommandType) (c : Clock) (l : Lock)
      → l.state ≡ locked
      → (lock_after t c l).state ≡ unlocked
      → t ≡ unlock
  unfolding lock_after
  lock_after-opens CommandType.lock c l shut opened = cc
  lock_after-opens CommandType.unlock c l shut opened = refl
  lock_after-opens CommandType.state_poll c l shut opened = cc
  lock_after-opens CommandType.doorbell c l shut opened = cc
  lock_after-opens CommandType.unknown c l shut opened = cc

  -- Only an accepted unlock opens a lock that is locked.
  on_rx_frame-opens :
      (c : Clock) (r : Entropy) (frame : Bytes) (s : Bridge)
      → s.lock.state ≡ locked
      → (on_rx_frame xcrypt c r frame s).1.lock.state ≡ unlocked
      → (a : IsAccepted xcrypt frame s.session) × ((decode_lock_command a.plaintext).type ≡ unlock)
  on_rx_frame-opens c r frame s shut opened = elim (on_rx_frame-lock c r frame s) [
    | inl same ↦ absurd (cc (ap (λ (l : Lock). l.state) same))
    | inr (a, moved) ↦ (
      a,
      lock_after-opens (decode_lock_command a.plaintext).type c s.lock shut
          (ap (λ (l : Lock). l.state) (sym moved) ∙ opened),
    )
  ]
