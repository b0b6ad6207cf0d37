-- ===== src/LockSession.antt =====
-- components/switchbot_keypad_bridge/lock_session.h and lock_session.cpp: the encrypted session of the
-- emulated lock. The object is a record and a method returns the new one; AES-CTR is the section's
-- parameter `xcrypt`, and the words of `esp_random()` are an argument.
pub mod State
pub mod Replay
pub mod Transport
pub mod Sample
mod Tests
pub mod Accepted
pub mod Steps
pub mod Traces
pub mod Gate
pub mod Invariant
use switchbot_keypad_bridge.Common.{
  ℕ, ◌+◌, ◌-◌, Bool, true, false, not, ◌&&◌, ◌||◌, Option, none, some, ◌∷◌, ltb, leb, ◌==◌,
  if◌then◌else◌, length, get_or, drop, Bytes,
}
use switchbot_keypad_bridge.LockProtocol.{CommandType, decode_lock_command, lock, unlock}
use switchbot_keypad_bridge.AesCtr.Cipher.{Xcrypt}
pub use State.{
  FrameHeader, Action, drop_frame, send_iv, command, ReplayEntry, LockSession, Entropy, header_len,
  max_payload, protocol_magic, session_iv_req_min, iv_response_header, replay_history_size,
  session_iv,
}
unfoldable pub use State.{
  new_session, set_aes_key, forget_slot, clear_replay_history, reset, rotate_iv,
  is_replayed_ciphertext, record_ciphertext,
}

unfoldable pub is_iv_request : Bytes → Bool
is_iv_request frame =
    leb session_iv_req_min (length frame)
    && (get_or frame 0 0 == protocol_magic)
    && (get_or frame 1 0 == 0x00)
    && (get_or frame 5 0 == 0x21)
    && (get_or frame 6 0 == 0x03)

-- The answer to an IV request, which also names the token slot of the rest of the session.
unfoldable pub accept_iv_request : Entropy → Bytes → LockSession → Action × LockSession
accept_iv_request r frame s =
    let adopted = record s { slot_id = get_or frame 7 0 } in
    (send_iv, record (clear_replay_history (rotate_iv r adopted)) { iv_established = true })

unfoldable pub frame_header : Bytes → FrameHeader
frame_header frame = record {
  key_id = get_or frame 1 0;
  seq_a = get_or frame 2 0;
  seq_b = get_or frame 3 0;
}

-- `seq_a` and `seq_b` echo the first two bytes of the IV.
abbrev pub echoes_iv : FrameHeader → LockSession → Bool
echoes_iv h s =
    (h.seq_a == get_or s.iv_response iv_response_header 0)
    && (h.seq_b == get_or s.iv_response (iv_response_header + 1) 0)

abbrev pub is_filtered : CommandType → Bool
is_filtered lock = true
is_filtered unlock = true
is_filtered _ = false

-- A decoded command: an action is dropped if its ciphertext is on record, else put on record.
unfoldable pub finish_command : Bytes → Bool → LockSession → Action × LockSession
finish_command ciphertext seen s =
    if is_filtered s.last_command.type
    then (if seen then (drop_frame, s) else (command, record_ciphertext ciphertext s))
    else (command, s)

module _ (xcrypt : Xcrypt ℕ) where
  -- The tail of `process_frame`, from the look into the replay history on.
  unfoldable pub decrypt_frame : Bytes → LockSession → Action × LockSession
  decrypt_frame ciphertext s = elim (xcrypt s.aes_key (session_iv s) ciphertext) [
    | none ↦ (drop_frame, s)
    | some plaintext ↦
        finish_command ciphertext (is_replayed_ciphertext ciphertext s)
          (record s { last_command = decode_lock_command plaintext })
  ]

  -- The guards of `process_frame` on an encrypted frame, in their order.
  unfoldable pub encrypted_frame : Bytes → LockSession → Action × LockSession
  encrypted_frame frame s =
      let h = frame_header frame in
      let s' = record s { header = h } in
      if not (h.key_id == s.slot_id)
      then (drop_frame, s')
      else if not s.iv_established
      then (drop_frame, s')
      else if not (echoes_iv h s)
      then (drop_frame, s')
      else if ltb max_payload (length frame - header_len)
      then (drop_frame, s')
      else decrypt_frame (drop header_len frame) s'

  unfoldable pub process_frame : Entropy → Bytes → LockSession → Action × LockSession
  process_frame r frame s =
      if is_iv_request frame
      then accept_iv_request r frame s
      else if leb (length frame) header_len || not (get_or frame 0 0 == protocol_magic)
      then (drop_frame, s)
      else encrypted_frame frame s

  -- The notify-ready packet; `none` is the length 0 that the method returns on failure.
  unfoldable pub encrypt_response : FrameHeader → Bytes → LockSession → Option Bytes
  encrypt_response h plaintext s =
      if ltb max_payload (length plaintext)
      then none
      else elim (xcrypt s.aes_key (session_iv s) plaintext) [
        | none ↦ none
        | some ciphertext ↦ some (0x01 ∷ h.key_id ∷ h.seq_a ∷ h.seq_b ∷ ciphertext)
      ]
