-- ===== src/Bridge/Commands.antt =====
-- components/switchbot_keypad_bridge/switchbot_keypad_bridge.cpp: from a received frame to the lock's
-- state, its events and its answer.
pub mod Access
pub mod Answers
use switchbot_keypad_bridge.Common.{
  ℕ, ◌+◌, true, false, none, some, [], ◌∷◌, ltb, if◌then◌else◌, Bytes, u32,
}
use switchbot_keypad_bridge.AesCtr.Cipher.{Xcrypt}
use switchbot_keypad_bridge.LockProtocol.{
  CommandType, DecodedCommand, unknown, lock, unlock, state_poll, doorbell,
}
use switchbot_keypad_bridge.LockSession.{
  process_frame, encrypt_response, FrameHeader, Action, drop_frame, send_iv, command, Entropy,
}
use switchbot_keypad_bridge.Bridge.State.{
  lock_state_byte, Lock, Method, ◌>>◌, emit, locked, unlocked, notify,
}
use switchbot_keypad_bridge.Bridge.Events.{Clock, publish_lock, publish_doorbell, publish_unlock}

abbrev pub response_lock : Bytes
response_lock = 0x90 ∷ 0x0A ∷ 0x7F ∷ 0x7F ∷ 0x00 ∷ []

abbrev pub response_unlock : Bytes
response_unlock = 0x98 ∷ 0x08 ∷ 0x7F ∷ 0x7F ∷ 0x00 ∷ []

abbrev pub state_payload_tail : Bytes
state_payload_tail =
    0x08 ∷ 0x08 ∷ 0x41 ∷ 0x00 ∷ 0x00 ∷ 0x00 ∷ 0x00 ∷ 0x80 ∷ 0xF2 ∷ 0xFB ∷ 0x00 ∷ 0x00 ∷ 0x00 ∷ []

unfoldable pub send_ack : FrameHeader → Method
send_ack h = emit (notify (0x01 ∷ h.key_id ∷ h.seq_a ∷ h.seq_b ∷ []))

-- The relock timer after an unlock.
unfoldable pub arm_relock : ℕ → Lock → Lock
arm_relock now l =
    if ltb 0 l.auto_relock_ms
    then record l { relock_at = u32 (now + l.auto_relock_ms); relock_pending = true }
    else l

module _ (xcrypt : Xcrypt ℕ) where
  unfoldable pub send_encrypted_response : FrameHeader → Bytes → Method
  send_encrypted_response h plaintext s = (
    elim (encrypt_response xcrypt h plaintext s.session) [
      | none ↦ []
      | some packet ↦ notify packet ∷ []
    ],
    s,
  )

  unfoldable pub handle_state_poll : FrameHeader → Method
  handle_state_poll h s =
      send_encrypted_response h (lock_state_byte s.lock.state ∷ state_payload_tail) s

  unfoldable pub handle_lock : Clock → FrameHeader → Method
  handle_lock c h =
      (λ s. ([], record s { lock = record (s.lock) { state = locked; relock_pending = false } }))
      >> publish_lock c
      >> send_encrypted_response h response_lock

  unfoldable pub handle_unlock : Clock → FrameHeader → DecodedCommand → Method
  handle_unlock c h d =
      (λ s. ([], record s { lock = record (s.lock) { state = unlocked } }))
      >> publish_unlock c d.method d.credential_index
      >> send_encrypted_response h response_unlock
      >> (λ s. ([], record s { lock = arm_relock c.relock_ms s.lock }))

  -- The `switch` on the command's type.
  unfoldable pub dispatch_command : CommandType → Clock → FrameHeader → DecodedCommand → Method
  dispatch_command CommandType.lock c h d = handle_lock c h
  dispatch_command CommandType.unlock c h d = handle_unlock c h d
  dispatch_command CommandType.state_poll c h d = handle_state_poll h
  dispatch_command CommandType.doorbell c h d = publish_doorbell c >> send_ack h
  dispatch_command CommandType.unknown c h d = send_ack h

  unfoldable pub handle_command : Clock → FrameHeader → DecodedCommand → Method
  unfolding dispatch_command
  handle_command c h d = dispatch_command d.type c h d

  -- The `switch` on what the session made of the frame.
  unfoldable pub after_frame : Action → Clock → Method
  after_frame send_iv c s = (notify s.session.iv_response ∷ [], s)
  after_frame command c s = handle_command c s.session.header s.session.last_command s
  after_frame drop_frame c s = ([], s)

  unfoldable pub on_rx_frame : Clock → Entropy → Bytes → Method
  unfolding after_frame
  on_rx_frame c r frame s =
      let (action, session) = process_frame xcrypt r frame s.session in
      after_frame action c (record s { session = session })
