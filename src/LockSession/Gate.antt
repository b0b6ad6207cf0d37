-- ===== src/LockSession/Gate.antt =====
-- components/switchbot_keypad_bridge/lock_session.cpp: which frames `process_frame` accepts, and what
-- it may change.
use switchbot_keypad_bridge.Common.{
  ℕ, ◌≤◌, ◌<◌, ◌≡◌, refl, ◌↔◌, ◌⊎◌, inl, inr, Bool, true, false, ◌&&◌, some, arith, Option-cases,
  length, get_or, drop, Bytes,
}
use switchbot_keypad_bridge.AesCtr.Cipher.{Xcrypt}
use switchbot_keypad_bridge.LockProtocol.{decode_lock_command}
use switchbot_keypad_bridge.LockSession.{
  is_iv_request, accept_iv_request, frame_header, is_filtered, finish_command, decrypt_frame,
  encrypted_frame, process_frame, drop_frame, command, LockSession, Entropy, session_iv,
  is_replayed_ciphertext,
}

-- A frame of the live session: the magic byte, the token slot and two bytes of the IV that was issued
-- on this connection, with a payload of 1 to 32 bytes.
pub record IsLive (frame : Bytes) (s : LockSession) : Type 0 where
  pub not_iv_request : is_iv_request frame ≡ false
  pub magic : get_or frame 0 0 ≡ 0x57
  pub same_slot : get_or frame 1 0 ≡ s.slot_id
  pub negotiated : s.iv_established ≡ true
  pub echo_a : get_or frame 2 0 ≡ get_or s.iv_response 4 0
  pub echo_b : get_or frame 3 0 ≡ get_or s.iv_response 5 0
  pub has_payload : 4 < length frame
  pub payload_fits : length frame ≤ 36

-- The plaintext names an action, and its ciphertext has been seen under this IV.
abbrev pub is_replay : Bytes → Bytes → LockSession → Bool
is_replay ciphertext plaintext s =
    is_filtered (decode_lock_command plaintext).type && is_replayed_ciphertext ciphertext s

finish-command_iff :
    (ct p : Bytes) (s t : LockSession)
    → t.last_command ≡ decode_lock_command p
    → ((finish_command ct (is_replayed_ciphertext ct s) t).0 ≡ command) ↔ (is_replay ct p s ≡ false)
unfolding finish_command
finish-command_iff ct p s t e = (λ h. ground arith, λ h. ground arith)

module _ (xcrypt : Xcrypt ℕ) where
  abbrev pub DecryptsTo : Bytes → Bytes → LockSession → Type 0
  DecryptsTo frame plaintext s = xcrypt s.aes_key (session_iv s) (drop 4 frame) ≡ some plaintext

  -- What a frame that yields a command has passed.
  pub record IsAccepted (frame : Bytes) (s : LockSession) : Type 0 where
    pub live : IsLive frame s
    pub plaintext : Bytes
    pub decrypts : DecryptsTo frame plaintext s
    pub fresh : is_replay (drop 4 frame) plaintext s ≡ false

  decrypt-command :
      (frame p : Bytes) (s : LockSession)
      → DecryptsTo frame p s
      → is_replay (drop 4 frame) p s ≡ false
      → (decrypt_frame xcrypt (drop 4 frame) (record s { header = frame_header frame })).0 ≡ command
  unfolding decrypt_frame is_replayed_ciphertext
  decrypt-command frame p s d f =
      let t = record s { header = frame_header frame; last_command = decode_lock_command p } in
      rw (d, decrypt_frame) ((finish-command_iff (drop 4 frame) p s t refl).1 f)

  decrypt-accepted :
      (frame : Bytes) (s : LockSession)
      → (decrypt_frame xcrypt (drop 4 frame) (record s { header = frame_header frame })).0 ≡ command
      → (p : Bytes) × DecryptsTo frame p s × (is_replay (drop 4 frame) p s ≡ false)
  unfolding decrypt_frame is_replayed_ciphertext
  decrypt-accepted frame s h =
      elim (Option-cases (xcrypt s.aes_key (session_iv s) (drop 4 frame))) [
        | inl e ↦ absurd (cc (rw (e, decrypt_frame) at h))
        | inr (p, e) ↦
            let t = record s {
              header = frame_header frame;
              last_command = decode_lock_command p;
            } in
            (p, e, (finish-command_iff (drop 4 frame) p s t refl).0 (rw (e, decrypt_frame) at h))
      ]

  encrypted_iff :
      (r : Entropy) (frame : Bytes) (s : LockSession)
      → ((process_frame xcrypt r frame s).0 ≡ command) ↔ (
          IsLive frame s
          × ((decrypt_frame xcrypt (drop 4 frame) (record s { header = frame_header frame })).0
              ≡ command))
  unfolding process_frame encrypted_frame accept_iv_request frame_header
  encrypted_iff r frame s = (λ h. ground arith, λ h. ground arith)

  -- `process_frame` hands a command to the bridge exactly when the frame is no IV request, carries
  -- the magic byte, the learned token slot and the first two bytes of the IV issued on this
  -- connection, has a payload of 1 to 32 bytes, decrypts, and is no replay of a recorded lock or
  -- unlock; before an IV was negotiated there is no such frame.
  pub process_frame-command_iff :
      (r : Entropy) (frame : Bytes) (s : LockSession)
      → ((process_frame xcrypt r frame s).0 ≡ command) ↔ IsAccepted frame s
  process_frame-command_iff r frame s = (
    λ h.
        let (l, d) = (encrypted_iff r frame s).0 h in
        let (p, e, f) = decrypt-accepted frame s d in
        record { live = l; plaintext = p; decrypts = e; fresh = f },
    λ a.
        (encrypted_iff r frame s).1
          (a.live, decrypt-command frame a.plaintext s a.decrypts a.fresh),
  )

  finish_outcomes :
      (ct : Bytes) (seen : Bool) (s : LockSession)
      → ((finish_command ct seen s).0 ≡ drop_frame) ⊎ ((finish_command ct seen s).0 ≡ command)
  unfolding finish_command
  finish_outcomes ct seen s = ground arith

  decrypt_outcomes :
      (ct : Bytes) (s : LockSession)
      → ((decrypt_frame xcrypt ct s).0 ≡ drop_frame) ⊎ ((decrypt_frame xcrypt ct s).0 ≡ command)
  unfolding decrypt_frame
  decrypt_outcomes ct s = elim (Option-cases (xcrypt s.aes_key (session_iv s) ct)) [
    | inl e ↦ rw (e, decrypt_frame) (inl refl)
    | inr (p, e) ↦
        rw (e, decrypt_frame)
          (finish_outcomes ct (is_replayed_ciphertext ct s)
            (record s { last_command = decode_lock_command p }))
  ]

  -- A frame that is no IV request yields a command or is dropped.
  pub process_frame_outcomes :
      (r : Entropy) (frame : Bytes) (s : LockSession)
      → is_iv_request frame ≡ false
      → ((process_frame xcrypt r frame s).0 ≡ drop_frame)
        ⊎ ((process_frame xcrypt r frame s).0 ≡ command)
  unfolding process_frame encrypted_frame
  process_frame_outcomes r frame s n =
      ground (arith, decrypt_outcomes (drop 4 frame) (record s { header = frame_header frame }))
