-- ===== src/LockSession/Accepted.antt =====
-- components/switchbot_keypad_bridge/lock_session.cpp: the session after a frame that it accepted.
use switchbot_keypad_bridge.Common.{
  ℕ, ◌≡◌, refl, ap, ◌∙◌, inl, inr, true, false, arith, if◌then◌else◌, Bool-cases, drop, length-drop,
  Bytes,
}
use switchbot_keypad_bridge.AesCtr.Cipher.{Xcrypt}
use switchbot_keypad_bridge.LockProtocol.{decode_lock_command}
use switchbot_keypad_bridge.LockSession.{
  is_iv_request, accept_iv_request, frame_header, is_filtered, finish_command, decrypt_frame,
  encrypted_frame, process_frame, Action, LockSession, Entropy, is_replayed_ciphertext,
  record_ciphertext,
}
use switchbot_keypad_bridge.LockSession.State.{is_recordable}
use switchbot_keypad_bridge.LockSession.Invariant.{IsValid, same_buffers-IsValid}
use switchbot_keypad_bridge.LockSession.Replay.{remember, history, history-record_ciphertext}
use switchbot_keypad_bridge.LockSession.Gate.{IsLive, is_replay, DecryptsTo, IsAccepted}

-- Filtered commands that are fresh go on record; others leave the session as it is.
finish-fresh :
    (ct p : Bytes) (s t : LockSession)
    → t.last_command ≡ decode_lock_command p
    → is_replay ct p s ≡ false
    → (finish_command ct (is_replayed_ciphertext ct s) t).1
      ≡ (if is_filtered (decode_lock_command p).type then record_ciphertext ct t else t)
unfolding finish_command
finish-fresh ct p s t e f = ground arith

-- The session in which an accepted frame is finished.
abbrev decoded_session : Bytes → Bytes → LockSession → LockSession
decoded_session frame p s = record s {
  header = frame_header frame;
  last_command = decode_lock_command p;
}

module _ (xcrypt : Xcrypt ℕ) where
  process-live :
      (r : Entropy) (frame : Bytes) (s : LockSession)
      → IsLive frame s
      → process_frame xcrypt r frame s
        ≡ decrypt_frame xcrypt (drop 4 frame) (record s { header = frame_header frame })
  unfolding process_frame encrypted_frame frame_header
  process-live r frame s l = ground arith

  decrypt-fresh :
      (frame p : Bytes) (s : LockSession)
      → DecryptsTo xcrypt frame p s
      → decrypt_frame xcrypt (drop 4 frame) (record s { header = frame_header frame })
        ≡ finish_command
            (drop 4 frame)
            (is_replayed_ciphertext (drop 4 frame) s)
            (decoded_session frame p s)
  unfolding decrypt_frame is_replayed_ciphertext
  decrypt-fresh frame p s d = rw (d, decrypt_frame)

  -- An accepted frame leaves its header and its decoded command in the session, and puts its
  -- ciphertext on record exactly if the command is a lock or an unlock; nothing else changes.
  process_frame-accepted :
      (r : Entropy) (frame : Bytes) (s : LockSession) (a : IsAccepted xcrypt frame s)
      → (process_frame xcrypt r frame s).1 ≡ (
          if is_filtered (decode_lock_command a.plaintext).type
          then record_ciphertext (drop 4 frame) (decoded_session frame a.plaintext s)
          else decoded_session frame a.plaintext s)
  process_frame-accepted r frame s a =
      ap (λ (x : Action × LockSession). x.1)
        (process-live r frame s a.live ∙ decrypt-fresh frame a.plaintext s a.decrypts)
      ∙ finish-fresh (drop 4 frame) a.plaintext s (decoded_session frame a.plaintext s) refl a.fresh

  pub live-is_recordable :
      (frame : Bytes) (s : LockSession) → IsLive frame s → is_recordable (drop 4 frame) ≡ true
  live-is_recordable frame s l = ground (arith, length-drop 4 frame)

  -- An accepted lock or unlock leaves its ciphertext at the head of the replay history.
  pub history-accepted :
      (r : Entropy) (frame : Bytes) (s : LockSession) (a : IsAccepted xcrypt frame s)
      → IsValid s
      → is_filtered (decode_lock_command a.plaintext).type ≡ true
      → history (process_frame xcrypt r frame s).1 ≡ remember (drop 4 frame) (history s)
  history-accepted r frame s a v f =
      rw (process_frame-accepted r frame s a, f)
        (history-record_ciphertext (drop 4 frame) (decoded_session frame a.plaintext s)
          (same_buffers-IsValid {s = s} refl refl refl v) (live-is_recordable frame s a.live))

  last_command-record_ciphertext :
      (ct : Bytes) (s : LockSession) → (record_ciphertext ct s).last_command ≡ s.last_command
  unfolding record_ciphertext
  last_command-record_ciphertext ct s = ground arith

  -- The command that the bridge then reads is the one that the plaintext decodes to.
  pub last_command-accepted :
      (r : Entropy) (frame : Bytes) (s : LockSession) (a : IsAccepted xcrypt frame s)
      → (process_frame xcrypt r frame s).1.last_command ≡ decode_lock_command a.plaintext
  last_command-accepted r frame s a =
      let t = decoded_session frame a.plaintext s in
      elim (Bool-cases (is_filtered (decode_lock_command a.plaintext).type)) [
        | inl e ↦
            rw (process_frame-accepted r frame s a, e)
              (last_command-record_ciphertext (drop 4 frame) t)
        | inr e ↦ rw (process_frame-accepted r frame s a, e)
      ]

  header-record_ciphertext :
      (ct : Bytes) (s : LockSession) → (record_ciphertext ct s).header ≡ s.header
  unfolding record_ciphertext
  header-record_ciphertext ct s = ground arith

  -- The header that the answer echoes is the frame's.
  pub header-accepted :
      (r : Entropy) (frame : Bytes) (s : LockSession) (a : IsAccepted xcrypt frame s)
      → (process_frame xcrypt r frame s).1.header ≡ frame_header frame
  header-accepted r frame s a =
      let t = decoded_session frame a.plaintext s in
      elim (Bool-cases (is_filtered (decode_lock_command a.plaintext).type)) [
        | inl e ↦
            rw (process_frame-accepted r frame s a, e) (header-record_ciphertext (drop 4 frame) t)
        | inr e ↦ rw (process_frame-accepted r frame s a, e) refl
      ]

  pub process-iv_request :
      (r : Entropy) (frame : Bytes) (s : LockSession)
      → is_iv_request frame ≡ true
      → process_frame xcrypt r frame s ≡ accept_iv_request r frame s
  unfolding process_frame
  process-iv_request r frame s i = rw i
