-- ===== src/LockSession/Transport.antt =====
-- components/switchbot_keypad_bridge/lock_session.cpp: messages between a keypad and the session that
-- share a key and an IV, in both directions.
use switchbot_keypad_bridge.Common.{
  ℕ, ◌+◌, ◌≤◌, ◌<◌, ◌≡◌, ◌∙◌, ◌≢◌, ◌⊎◌, inl, inr, Bool, true, false, ◌&&◌, none, some, ◌∷◌, arith,
  ltb, Bool-cases, Option-cases, length, get_or, All, length-drop, Bytes, IsByte,
}
use switchbot_keypad_bridge.AesCtr.Cipher.{Xcrypt, IsStream}
use switchbot_keypad_bridge.LockProtocol.{DecodedCommand, decode_lock_command}
use switchbot_keypad_bridge.LockProtocol.Shape.{Means, decode_of_Means}
use switchbot_keypad_bridge.LockSession.{
  is_iv_request, is_filtered, process_frame, encrypt_response, FrameHeader, command, LockSession,
  Entropy, session_iv,
}
use switchbot_keypad_bridge.LockSession.Invariant.{IsValid}
use switchbot_keypad_bridge.LockSession.Replay.{has_seen, history, is_replayed-eq-has_seen}
use switchbot_keypad_bridge.LockSession.Accepted.{last_command-accepted}
use switchbot_keypad_bridge.LockSession.Gate.{
  IsLive, is_replay, IsAccepted, process_frame-command_iff,
}
use switchbot_keypad_bridge.LockSession.State.{is_recordable}

-- The frame that a keypad sends for a ciphertext, and the packet that the bridge answers with.
abbrev pub keypad_frame : LockSession → Bytes → Bytes
keypad_frame s ciphertext =
    0x57 ∷ s.slot_id ∷ get_or s.iv_response 4 0 ∷ get_or s.iv_response 5 0 ∷ ciphertext

abbrev pub response_packet : FrameHeader → Bytes → Bytes
response_packet h ciphertext = 0x01 ∷ h.key_id ∷ h.seq_a ∷ h.seq_b ∷ ciphertext

length-session_iv : (s : LockSession) → IsValid s → length (session_iv s) ≡ 16
length-session_iv s v = omega (arith, v.iv_size, length-drop 4 s.iv_response)

keypad_frame-IsLive :
    (s : LockSession) (ct : Bytes)
    → s.iv_established ≡ true
    → s.slot_id ≢ 0
    → 1 ≤ length ct
    → length ct ≤ 32
    → IsLive (keypad_frame s ct) s
unfolding is_iv_request
keypad_frame-IsLive s ct est slot lo hi = ground arith

drop_middle : (a b c : Bool) → (a && c) ≡ false → (a && (b && c)) ≡ false
drop_middle a b c h = ground arith

module _ (xcrypt : Xcrypt ℕ) (stream : IsStream xcrypt) where
  -- A response that was encrypted is at most 36 bytes, echoes the header of the command, and decrypts
  -- to the plaintext at the keypad, which has the same key and IV; none is sent only where the plaintext is
  -- longer than 32 bytes or the cipher fails on it.
  pub encrypt_response_lem :
      (h : FrameHeader) (plaintext : Bytes) (s : LockSession)
      → IsValid s
      → All IsByte plaintext
      → ((encrypt_response xcrypt h plaintext s ≡ none)
          × ((32 < length plaintext) ⊎ (xcrypt s.aes_key (session_iv s) plaintext ≡ none)))
        ⊎ ((ciphertext : Bytes) × (encrypt_response xcrypt h plaintext s
              ≡ some (response_packet h ciphertext))
            × (length (response_packet h ciphertext) ≡ 4 + length plaintext)
            × (length plaintext ≤ 32)
            × (xcrypt s.aes_key (session_iv s) ciphertext ≡ some plaintext))
  unfolding encrypt_response
  encrypt_response_lem h p s v b = elim (Bool-cases (ltb 32 (length p))) [
    | inl long ↦ inl (rw long, inl (ground arith))
    | inr short ↦ elim (Option-cases (xcrypt s.aes_key (session_iv s) p)) [
      | inl e ↦ inl (rw (short, e), inr e)
      | inr (c, e) ↦
          let (n, d) = stream s.aes_key (session_iv s) p c (length-session_iv s v) b e in
          inr (c, rw (short, e), omega (arith, n), ground arith, d)
    ]
  ]

  -- A keypad that holds the session's key, slot and IV and sends a command of 1 to 32 bytes has it
  -- accepted, with the header echoed and the command decoded, unless the same lock or unlock is on
  -- record: the session then hands the bridge exactly the command that the frame means.
  pub process_frame-keypad_frame :
      (r : Entropy) (s : LockSession) {plaintext : Bytes} {c : DecodedCommand} (ciphertext : Bytes)
      → IsValid s
      → s.iv_established ≡ true
      → s.slot_id ≢ 0
      → All IsByte plaintext
      → 1 ≤ length plaintext
      → length plaintext ≤ 32
      → Means plaintext c
      → xcrypt s.aes_key (session_iv s) plaintext ≡ some ciphertext
      → (is_filtered c.type && has_seen ciphertext (history s)) ≡ false
      → ((process_frame xcrypt r (keypad_frame s ciphertext) s).0 ≡ command)
        × ((process_frame xcrypt r (keypad_frame s ciphertext) s).1.last_command ≡ c)
  process_frame-keypad_frame r s {plaintext} {c} ct v est slot b lo hi m e fresh =
      let (n, d) = stream s.aes_key (session_iv s) plaintext ct (length-session_iv s v) b e in
      let meant : decode_lock_command plaintext ≡ c = decode_of_Means m in
      let first_time : is_replay ct plaintext s ≡ false =
        rw (is_replayed-eq-has_seen ct s v, meant)
          (drop_middle (is_filtered c.type) (is_recordable ct) (has_seen ct (history s)) fresh) in
      let a : IsAccepted xcrypt (keypad_frame s ct) s = record {
        live = keypad_frame-IsLive s ct est slot (omega (arith, n)) (omega (arith, n));
        plaintext = plaintext;
        decrypts = d;
        fresh = first_time;
      } in
      (
        (process_frame-command_iff xcrypt r (keypad_frame s ct) s).1 a,
        last_command-accepted xcrypt r (keypad_frame s ct) s a ∙ meant,
      )
