-- ===== src/Bridge/Commands/Answers.antt =====
-- components/switchbot_keypad_bridge/switchbot_keypad_bridge.cpp: what the keypad is answered.
use switchbot_keypad_bridge.Common.{
  ℕ, ◌≤◌, ◌≡◌, refl, sym, subst, ◌⊎◌, inl, inr, false, none, some, List, [], ◌∷◌, ◌++◌, append-nil,
  arith, length, drop, All, Bytes, IsByte,
}
use switchbot_keypad_bridge.LockProtocol.{CommandType, DecodedCommand, decode_lock_command}
use switchbot_keypad_bridge.Bridge.State.{
  LockState, lock_state_byte, Effect, Bridge, locked, unlocked, notify,
}
use switchbot_keypad_bridge.Bridge.Events.{
  Clock, log_event, publish_lock, publish_doorbell, publish_unlock,
}
use switchbot_keypad_bridge.AesCtr.Cipher.{Xcrypt, IsStream}
use switchbot_keypad_bridge.Bridge.Events.Packets.{
  NoPacket, publish_unlock-NoPacket, publish_lock-NoPacket, publish_doorbell-NoPacket,
  publish_unlock-session,
}
use switchbot_keypad_bridge.Bridge.Commands.{
  response_lock, response_unlock, state_payload_tail, send_ack, send_encrypted_response,
  handle_state_poll, handle_lock, handle_unlock, dispatch_command, handle_command, after_frame,
  on_rx_frame,
}
use switchbot_keypad_bridge.LockSession.{
  frame_header, process_frame, FrameHeader, Entropy, session_iv,
}
use switchbot_keypad_bridge.LockSession.Invariant.{IsValid, process_frame-IsValid}
use switchbot_keypad_bridge.LockSession.Transport.{response_packet, encrypt_response_lem}
use switchbot_keypad_bridge.LockSession.Gate.{IsAccepted, process_frame-command_iff}
use switchbot_keypad_bridge.LockSession.Accepted.{last_command-accepted, header-accepted}
use switchbot_keypad_bridge.LockSession.Steps.{process_frame-Keeps}

response_lock-IsByte : All IsByte response_lock
response_lock-IsByte = omega arith

response_unlock-IsByte : All IsByte response_unlock
response_unlock-IsByte = omega arith

state-IsByte : (l : LockState) → All IsByte (lock_state_byte l ∷ state_payload_tail)
state-IsByte locked = omega arith
state-IsByte unlocked = omega arith

state-fits : (l : LockState) → length (lock_state_byte l ∷ state_payload_tail) ≤ 32
state-fits l = omega arith

abbrev pub ack_packet : FrameHeader → Bytes
ack_packet h = 0x01 ∷ h.key_id ∷ h.seq_a ∷ h.seq_b ∷ []

module _ (xcrypt : Xcrypt ℕ) where
  -- Nothing, and then the cipher has failed on the plaintext, or one packet with the header echoed, which
  -- decrypts to the plaintext under the key and the IV of the session.
  abbrev pub Delivers : FrameHeader → Bytes → ℕ → Bytes → List Effect → Type 0
  Delivers h plaintext key iv es =
      ((es ≡ []) × (xcrypt key iv plaintext ≡ none))
      ⊎ ((ciphertext : Bytes) × (es ≡ notify (response_packet h ciphertext) ∷ [])
          × (xcrypt key iv ciphertext ≡ some plaintext))

  -- The answer that a command calls for: an encrypted one to lock, unlock and the state poll, which
  -- reports the emulated lock, and a bare acknowledgement to everything else.
  abbrev pub IsAnswer : CommandType → FrameHeader → LockState → ℕ → Bytes → List Effect → Type 0
  IsAnswer CommandType.lock h l key iv = Delivers h response_lock key iv
  IsAnswer CommandType.unlock h l key iv = Delivers h response_unlock key iv
  IsAnswer CommandType.state_poll h l key iv =
      Delivers h (lock_state_byte l ∷ state_payload_tail) key iv
  IsAnswer _ h l key iv = λ es. es ≡ notify (ack_packet h) ∷ []

  -- Events first, none of them a packet, and then the answer.
  abbrev pub Answered : CommandType → FrameHeader → LockState → ℕ → Bytes → List Effect → Type 0
  Answered t h l key iv es =
      (before answer : List Effect) × (es ≡ before ++ answer)
      × NoPacket before
      × IsAnswer t h l key iv answer

  module _ (stream : IsStream xcrypt) where
    send-Delivers :
        (h : FrameHeader) (p : Bytes) (s : Bridge)
        → IsValid s.session
        → All IsByte p
        → length p ≤ 32
        → Delivers h p s.session.aes_key
            (session_iv s.session)
            (send_encrypted_response xcrypt h p s).0
    unfolding send_encrypted_response
    send-Delivers h p s v b short = elim (encrypt_response_lem xcrypt stream h p s.session v b) [
      | inl (e, inl long) ↦ absurd (omega (arith, short, long))
      | inl (e, inr failed) ↦ rw (e, send_encrypted_response) (inl (refl, failed))
      | inr (ct, e, n, fits, d) ↦ rw (e, send_encrypted_response) (inr (ct, refl, d))
    ]

    dispatch-Answered :
        (t : CommandType) (c : Clock) (h : FrameHeader) (d : DecodedCommand) (s : Bridge)
        → IsValid s.session
        → Answered t h s.lock.state s.session.aes_key
            (session_iv s.session)
            (dispatch_command xcrypt t c h d s).0
    unfolding dispatch_command handle_lock handle_unlock handle_state_poll send_ack
    dispatch-Answered CommandType.lock c h d s v =
        let s1 = record s { lock = record (s.lock) { state = locked; relock_pending = false } } in
        (
          (publish_lock c s1).0,
          _,
          refl,
          publish_lock-NoPacket c s1,
          unfold publish_lock log_event in
              send-Delivers h response_lock (publish_lock c s1).1 v response_lock-IsByte
                (omega arith),
        )
    dispatch-Answered CommandType.unlock c h d s v =
        let s1 = record s { lock = record (s.lock) { state = unlocked } } in
        let s2 = (publish_unlock c d.method d.credential_index s1).1 in
        let same = publish_unlock-session c d.method d.credential_index s1 in
        (
          (publish_unlock c d.method d.credential_index s1).0,
          _,
          append-nil _,
          publish_unlock-NoPacket c d.method d.credential_index s1,
          subst
              (λ t.
                Delivers h response_unlock t.aes_key (session_iv t)
                  (send_encrypted_response xcrypt h response_unlock s2).0)
              same
              (send-Delivers h response_unlock s2 (subst IsValid (sym same) v)
                response_unlock-IsByte (omega arith)),
        )
    dispatch-Answered CommandType.state_poll c h d s v = (
      [],
      _,
      refl,
      tt,
      send-Delivers h _ s v (state-IsByte s.lock.state) (state-fits s.lock.state),
    )
    dispatch-Answered CommandType.doorbell c h d s v =
        ((publish_doorbell c s).0, _, refl, publish_doorbell-NoPacket c s, refl)
    dispatch-Answered CommandType.unknown c h d s v = ([], _, refl, tt, refl)

    -- Every accepted frame is answered, once and after the events it causes: to a lock and an unlock
    -- goes the fixed response, also when the unlock is debounced, to a poll the state of the emulated
    -- lock, each readable with the key and the IV of the session, and to every other command a bare
    -- acknowledgement. An encrypted answer is left out only where the cipher fails on its plaintext.
    pub on_rx_frame-answers :
        (c : Clock) (r : Entropy) (frame : Bytes) (s : Bridge)
        (a : IsAccepted xcrypt frame s.session)
        → IsValid s.session
        → Answered
            (decode_lock_command a.plaintext).type
            (frame_header frame)
            s.lock.state
            s.session.aes_key
            (session_iv s.session)
            (on_rx_frame xcrypt c r frame s).0
    unfolding on_rx_frame after_frame handle_command
    on_rx_frame-answers c r frame s a v =
        let s1 = record s { session = (process_frame xcrypt r frame s.session).1 } in
        let k = process_frame-Keeps xcrypt r frame s.session v a.live.not_iv_request in
        let e = (process_frame-command_iff xcrypt r frame s.session).1 a in
        let d = s1.session.last_command in
        let es = (after_frame xcrypt (process_frame xcrypt r frame s.session).0 c s1).0 in
        let found : Answered d.type s1.session.header s.lock.state s1.session.aes_key
            (session_iv s1.session) es =
          rw e (
            dispatch-Answered d.type c s1.session.header d s1
              (process_frame-IsValid xcrypt r frame s.session v)) in
        let same_command : Answered (decode_lock_command a.plaintext).type s1.session.header
            s.lock.state s1.session.aes_key (session_iv s1.session) es =
          subst
            (λ (x : DecodedCommand).
              Answered x.type s1.session.header s.lock.state s1.session.aes_key
                (session_iv s1.session) es)
            (last_command-accepted xcrypt r frame s.session a) found in
        let same_header =
          subst
            (λ h.
              Answered (decode_lock_command a.plaintext).type h s.lock.state s1.session.aes_key
                (session_iv s1.session) es)
            (header-accepted xcrypt r frame s.session a) same_command in
        subst
          (λ iv.
            Answered (decode_lock_command a.plaintext).type (frame_header frame) s.lock.state
              s.session.aes_key (drop 4 iv) es)
          k.same_iv
          (subst
            (λ key.
              Answered (decode_lock_command a.plaintext).type (frame_header frame) s.lock.state key
                (session_iv s1.session) es)
            k.same_key same_header)
