-- ===== src/LockSession/Steps.antt =====
-- components/switchbot_keypad_bridge/lock_session.cpp: what one frame that is no IV request changes.
use switchbot_keypad_bridge.Common.{
  ℕ, ◌≡◌, refl, ap₂, ◌⊎◌, inl, inr, Bool, false, arith, Bool-cases, Option-cases, drop, Bytes,
}
use switchbot_keypad_bridge.AesCtr.Cipher.{Xcrypt}
use switchbot_keypad_bridge.LockSession.{
  is_iv_request, frame_header, finish_command, decrypt_frame, encrypted_frame, process_frame,
  FrameHeader, LockSession, Entropy, session_iv, is_replayed_ciphertext, record_ciphertext,
}
use switchbot_keypad_bridge.LockSession.State.{is_recordable}
use switchbot_keypad_bridge.LockSession.Invariant.{IsValid, same_buffers-IsValid}
use switchbot_keypad_bridge.LockSession.Replay.{
  remember, newest_first, contents, history, history-record_ciphertext,
}
use switchbot_keypad_bridge.LockProtocol.{DecodedCommand, decode_lock_command}

-- The key, the slot and the IV stay, and the history stays or takes one ciphertext.
pub record Keeps (s t : LockSession) : Type 0 where
  pub same_key : t.aes_key ≡ s.aes_key
  pub same_slot : t.slot_id ≡ s.slot_id
  pub same_iv : t.iv_response ≡ s.iv_response
  pub same_flag : t.iv_established ≡ s.iv_established
  pub grows : (history t ≡ history s) ⊎ ((ct : Bytes) × (history t ≡ remember ct (history s)))

Keeps-same :
    {s t : LockSession}
    → t.aes_key ≡ s.aes_key
    → t.slot_id ≡ s.slot_id
    → t.iv_response ≡ s.iv_response
    → t.iv_established ≡ s.iv_established
    → t.replay_history ≡ s.replay_history
    → t.replay_head ≡ s.replay_head
    → Keeps s t
Keeps-same e1 e2 e3 e4 e5 e6 = record {
  same_key = e1;
  same_slot = e2;
  same_iv = e3;
  same_flag = e4;
  grows = inl (ap₂ (λ es h. newest_first h (contents es)) e5 e6);
}

record-Keeps : (ct : Bytes) (s : LockSession) → IsValid s → Keeps s (record_ciphertext ct s)
record-Keeps ct s v = elim (Bool-cases (is_recordable ct)) [
  | inr f ↦ unfold record_ciphertext in rw f (Keeps-same refl refl refl refl refl refl)
  | inl t ↦ record {
    same_key = unfold record_ciphertext in rw t;
    same_slot = unfold record_ciphertext in rw t;
    same_iv = unfold record_ciphertext in rw t;
    same_flag = unfold record_ciphertext in rw t;
    grows = inr (ct, history-record_ciphertext ct s v t);
  }
]

finish_cases :
    (ct : Bytes) (seen : Bool) (t : LockSession)
    → ((finish_command ct seen t).1 ≡ t) ⊎ ((finish_command ct seen t).1 ≡ record_ciphertext ct t)
unfolding finish_command
finish_cases ct seen t = ground arith

finish-Keeps :
    (ct : Bytes) (seen : Bool) (t : LockSession) → IsValid t → Keeps t (finish_command ct seen t).1
finish-Keeps ct seen t v = elim (finish_cases ct seen t) [
  | inl e ↦ rw e (Keeps-same refl refl refl refl refl refl)
  | inr e ↦ rw e (record-Keeps ct t v)
]

-- The header and the last command play no part.
Keeps-results :
    {t : LockSession} (h : FrameHeader) (c : DecodedCommand) (s : LockSession)
    → Keeps (record s { header = h; last_command = c }) t
    → Keeps s t
Keeps-results h c s k = record {
  same_key = k.same_key;
  same_slot = k.same_slot;
  same_iv = k.same_iv;
  same_flag = k.same_flag;
  grows = k.grows;
}

module _ (xcrypt : Xcrypt ℕ) where
  decrypt-Keeps :
      (ct : Bytes) (h : FrameHeader) (s : LockSession)
      → IsValid s
      → Keeps s (decrypt_frame xcrypt ct (record s { header = h })).1
  unfolding decrypt_frame
  decrypt-Keeps ct h s v = elim (Option-cases (xcrypt s.aes_key (session_iv s) ct)) [
    | inl e ↦ rw (e, decrypt_frame) (Keeps-same refl refl refl refl refl refl)
    | inr (p, e) ↦
        rw (e, decrypt_frame)
          (let c = decode_lock_command p in
            let t = record s { header = h; last_command = c } in
            Keeps-results h c s (
              finish-Keeps ct (is_replayed_ciphertext ct (record s { header = h })) t
                (same_buffers-IsValid {s = s} refl refl refl v)))
  ]

  encrypted_cases :
      (frame : Bytes) (s : LockSession)
      → let s' = record s { header = frame_header frame } in
        ((encrypted_frame xcrypt frame s).1 ≡ s')
        ⊎ ((encrypted_frame xcrypt frame s).1 ≡ (decrypt_frame xcrypt (drop 4 frame) s').1)
  unfolding encrypted_frame
  encrypted_cases frame s = ground arith

  encrypted-Keeps :
      (frame : Bytes) (s : LockSession) → IsValid s → Keeps s (encrypted_frame xcrypt frame s).1
  encrypted-Keeps frame s v = elim (encrypted_cases frame s) [
    | inl e ↦ rw e (Keeps-same refl refl refl refl refl refl)
    | inr e ↦ rw e (decrypt-Keeps (drop 4 frame) (frame_header frame) s v)
  ]

  process_cases :
      (r : Entropy) (frame : Bytes) (s : LockSession)
      → is_iv_request frame ≡ false
      → ((process_frame xcrypt r frame s).1 ≡ s)
        ⊎ ((process_frame xcrypt r frame s).1 ≡ (encrypted_frame xcrypt frame s).1)
  unfolding process_frame
  process_cases r frame s n = ground arith

  -- A frame that is no IV request leaves the key, the learned slot and the IV as they are, and puts at
  -- most one ciphertext into the replay history.
  pub process_frame-Keeps :
      (r : Entropy) (frame : Bytes) (s : LockSession)
      → IsValid s
      → is_iv_request frame ≡ false
      → Keeps s (process_frame xcrypt r frame s).1
  process_frame-Keeps r frame s v n = elim (process_cases r frame s n) [
    | inl e ↦ rw e (Keeps-same refl refl refl refl refl refl)
    | inr e ↦ rw e (encrypted-Keeps frame s v)
  ]
