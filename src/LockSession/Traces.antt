-- ===== src/LockSession/Traces.antt =====
-- components/switchbot_keypad_bridge/lock_session.cpp: what the session does over the frames of a
-- connection.
use switchbot_keypad_bridge.Common.{
  ℕ, zero, suc, ◌+◌, ◌/◌, ◌^◌, ◌≤◌, ◌≡◌, refl, sym, ap, ap₂, ◌∙◌, ◌≢◌, ◌⊎◌, inl, inr, Bool, true,
  false, ◌&&◌, some, List, [], ◌∷◌, arith, length, get_or, take, drop, All, take-take, Bytes, u8,
  bytes_eq_refl,
}
use switchbot_keypad_bridge.AesCtr.Cipher.{Xcrypt}
use switchbot_keypad_bridge.LockSession.{
  is_iv_request, accept_iv_request, is_filtered, process_frame, drop_frame, command, LockSession,
  Entropy, reset, is_replayed_ciphertext,
}
use switchbot_keypad_bridge.LockSession.Invariant.{
  IsValid, reset-IsValid, accept-IsValid, iv_response-accept, process_frame-IsValid,
}
use switchbot_keypad_bridge.LockSession.Replay.{
  History, remember, has_seen, history, is_replayed-eq-has_seen,
}
use switchbot_keypad_bridge.LockSession.Steps.{Keeps, process_frame-Keeps}
use switchbot_keypad_bridge.LockSession.Gate.{
  IsLive, is_replay, DecryptsTo, process_frame-command_iff, process_frame_outcomes,
}
use switchbot_keypad_bridge.LockProtocol.{decode_lock_command}
use switchbot_keypad_bridge.LockSession.Accepted.{
  live-is_recordable, history-accepted, last_command-accepted, process-iv_request,
}

-- A received frame, with the random words at hand should it be an IV request.
abbrev pub Arrival : Type 0
Arrival = Entropy × Bytes

-- No frame of the list asks for a new IV.
abbrev pub IsQuiet : List Arrival → Type 0
IsQuiet = All (λ a. is_iv_request a.1 ≡ false)

-- The newest `k` ciphertexts of the history.
abbrev seen_within : ℕ → Bytes → History → Bool
seen_within k ct h = has_seen ct (take k h)

seen_within-suc :
    (k : ℕ) (ct : Bytes) (h : History) → seen_within k ct h ≡ true → seen_within (suc k) ct h ≡ true
seen_within-suc zero ct h e = cc
seen_within-suc (suc k) ct [] e = e
seen_within-suc (suc k) ct (x ∷ h) e = ground (arith, seen_within-suc k ct h)

take-take7 : (k : ℕ) (h : History) → k ≤ 7 → take k (take 7 h) ≡ take k h
take-take7 k h le = take-take k 7 h le

seen_within-remember :
    (k : ℕ) (ct x : Bytes) (h : History)
    → k ≤ 7
    → seen_within k ct h ≡ true
    → seen_within (suc k) ct (remember x h) ≡ true
seen_within-remember k ct x h le e = rw (take-take7 k h le, e) (ground arith)

seen_within-Keeps :
    (k : ℕ) (ct : Bytes) {s t : LockSession}
    → Keeps s t
    → k ≤ 7
    → seen_within k ct (history s) ≡ true
    → seen_within (suc k) ct (history t) ≡ true
seen_within-Keeps k ct {s} kp le e = elim kp.grows [
  | inl q ↦ rw q (seen_within-suc k ct (history s) e)
  | inr (x, q) ↦ rw q (seen_within-remember k ct x (history s) le e)
]

has_seen_of_within :
    (k : ℕ) (ct : Bytes) (h : History) → seen_within k ct h ≡ true → has_seen ct h ≡ true
has_seen_of_within zero ct h e = cc
has_seen_of_within (suc k) ct [] e = e
has_seen_of_within (suc k) ct (x ∷ h) e = ground (arith, has_seen_of_within k ct h)

within_remember : (ct : Bytes) (h : History) → seen_within 1 ct (remember ct h) ≡ true
within_remember ct h = rw (bytes_eq_refl ct)

module _ (xcrypt : Xcrypt ℕ) where
  -- The session after a list of frames.
  unfoldable pub feed : List Arrival → LockSession → LockSession
  feed [] s = s
  feed ((r, frame) ∷ fs) s = feed fs (process_frame xcrypt r frame s).1

  feed-IsValid : (fs : List Arrival) (s : LockSession) → IsValid s → IsValid (feed fs s)
  unfolding feed
  feed-IsValid [] s v = v
  feed-IsValid ((r, frame) ∷ fs) s v = feed-IsValid fs _ (process_frame-IsValid xcrypt r frame s v)

  -- The parts that a quiet list leaves alone.
  record Fixed (s t : LockSession) : Type 0 where
    same_key : t.aes_key ≡ s.aes_key
    same_slot : t.slot_id ≡ s.slot_id
    same_iv : t.iv_response ≡ s.iv_response
    same_flag : t.iv_established ≡ s.iv_established

  feed-Fixed : (fs : List Arrival) (s : LockSession) → IsValid s → IsQuiet fs → Fixed s (feed fs s)
  unfolding feed
  feed-Fixed [] s v q = record {
    same_key = refl;
    same_slot = refl;
    same_iv = refl;
    same_flag = refl;
  }
  feed-Fixed ((r, frame) ∷ fs) s v q =
      let k = process_frame-Keeps xcrypt r frame s v q.0 in
      let f = feed-Fixed fs _ (process_frame-IsValid xcrypt r frame s v) q.1 in
      record {
        same_key = f.same_key ∙ k.same_key;
        same_slot = f.same_slot ∙ k.same_slot;
        same_iv = f.same_iv ∙ k.same_iv;
        same_flag = f.same_flag ∙ k.same_flag;
      }

  not_command→drop :
      (r : Entropy) (frame : Bytes) (s : LockSession)
      → is_iv_request frame ≡ false
      → ¬ ((process_frame xcrypt r frame s).0 ≡ command)
      → (process_frame xcrypt r frame s).0 ≡ drop_frame
  not_command→drop r frame s n h = elim (process_frame_outcomes xcrypt r frame s n) [
    | inl d ↦ d
    | inr c ↦ absurd (h c)
  ]

  pub no_iv_drops :
      (t : LockSession) (fs : List Arrival) (r : Entropy) (frame : Bytes)
      → IsValid t
      → t.iv_established ≡ false
      → IsQuiet fs
      → is_iv_request frame ≡ false
      → (process_frame xcrypt r frame (feed fs t)).0 ≡ drop_frame
  no_iv_drops t fs r frame v off q n = not_command→drop r frame (feed fs t) n λ e.
      let a = (process_frame-command_iff xcrypt r frame (feed fs t)).0 e in
      let k = feed-Fixed fs t v q in cc (a.live.negotiated, k.same_flag, off)

  -- From a connect or disconnect on, until the keypad asks for an IV, every frame is dropped: no
  -- ciphertext captured earlier can act on the lock.
  pub reset_drops :
      (s : LockSession) (fs : List Arrival) (r : Entropy) (frame : Bytes)
      → IsValid s
      → IsQuiet fs
      → is_iv_request frame ≡ false
      → (process_frame xcrypt r frame (feed fs (reset s))).0 ≡ drop_frame
  unfolding reset
  reset_drops s fs r frame v q n = no_iv_drops (reset s) fs r frame (reset-IsValid s v) refl q n

  -- After an IV request was answered with the random words `r`, and until the next one, a frame whose
  -- third and fourth byte are not the first two bytes of those words is dropped, whatever else it
  -- holds: a frame captured under an IV that starts otherwise cannot be replayed.
  pub other_iv_drops :
      (s : LockSession) (r : Entropy) (request : Bytes) (fs : List Arrival) (r' : Entropy)
      (frame : Bytes)
      → IsValid s
      → is_iv_request request ≡ true
      → IsQuiet fs
      → is_iv_request frame ≡ false
      → (get_or frame 2 0 ≢ u8 r.w0) ⊎ (get_or frame 3 0 ≢ u8 (r.w0 / 2 ^ 8))
      → (process_frame xcrypt r' frame (feed fs (process_frame xcrypt r request s).1)).0
        ≡ drop_frame
  other_iv_drops s r request fs r' frame v i q n d =
      let s1 = (accept_iv_request r request s).1 in
      let k = feed-Fixed fs s1 (accept-IsValid r request s v) q in
      rw (process-iv_request xcrypt r request s i) (
        not_command→drop r' frame (feed fs s1) n λ e.
          let a = (process_frame-command_iff xcrypt r' frame (feed fs s1)).0 e in
          let iv = k.same_iv ∙ iv_response-accept r request s v in
          let first : get_or frame 2 0 ≡ u8 r.w0 = a.live.echo_a ∙ ap (λ b. get_or b 4 0) iv in
          let second : get_or frame 3 0 ≡ u8 (r.w0 / 2 ^ 8) =
            a.live.echo_b ∙ ap (λ b. get_or b 5 0) iv in
          elim d [ inl x ↦ x first | inr y ↦ y second ])

  feed-has_seen :
      (k : ℕ) (fs : List Arrival) (ct : Bytes) (s : LockSession)
      → IsValid s
      → IsQuiet fs
      → k + length fs ≤ 8
      → seen_within k ct (history s) ≡ true
      → has_seen ct (history (feed fs s)) ≡ true
  unfolding feed
  feed-has_seen k [] ct s v q le e = has_seen_of_within k ct (history s) e
  feed-has_seen k ((r, frame) ∷ fs) ct s v q le e =
      feed-has_seen (suc k) fs ct _ (process_frame-IsValid xcrypt r frame s v) q.1 (omega arith)
        (seen_within-Keeps k ct (process_frame-Keeps xcrypt r frame s v q.0) (omega arith) e)

  -- Under the same key and IV the same ciphertext has the same plaintext, so it is a replay.
  second_is_replay :
      (frame p p' : Bytes) (s s2 : LockSession)
      → IsValid s2
      → s2.aes_key ≡ s.aes_key
      → s2.iv_response ≡ s.iv_response
      → IsLive frame s
      → DecryptsTo xcrypt frame p s
      → DecryptsTo xcrypt frame p' s2
      → is_filtered (decode_lock_command p).type ≡ true
      → has_seen (drop 4 frame) (history s2) ≡ true
      → is_replay (drop 4 frame) p' s2 ≡ false
      → ⊥
  second_is_replay frame p p' s s2 v ek ei l d d' f seen fresh =
      let e : some p' ≡ some p =
        sym d' ∙ ap₂ (λ k iv. xcrypt k (drop 4 iv) (drop 4 frame)) ek ei ∙ d in
      let same : p' ≡ p = cc e in
      let filtered : is_filtered (decode_lock_command p').type ≡ true = rw same f in
      let replayed : is_replayed_ciphertext (drop 4 frame) s2 ≡ true =
        is_replayed-eq-has_seen (drop 4 frame) s2 v
        ∙ ap₂ ◌&&◌ (live-is_recordable xcrypt frame s l) seen in
      cc (fresh, ap₂ ◌&&◌ filtered replayed)

  -- A lock or unlock that was accepted is dropped when the same frame comes again on the same IV, as
  -- long as at most seven frames came between.
  pub replay_drops :
      (s : LockSession) (r : Entropy) (frame : Bytes) (fs : List Arrival) (r' : Entropy)
      → IsValid s
      → (process_frame xcrypt r frame s).0 ≡ command
      → is_filtered (process_frame xcrypt r frame s).1.last_command.type ≡ true
      → IsQuiet fs
      → length fs ≤ 7
      → (process_frame xcrypt r' frame (feed fs (process_frame xcrypt r frame s).1)).0 ≡ drop_frame
  replay_drops s r frame fs r' v c f q le =
      let a = (process_frame-command_iff xcrypt r frame s).0 c in
      let s1 = (process_frame xcrypt r frame s).1 in
      let v1 : IsValid s1 = process_frame-IsValid xcrypt r frame s v in
      let s2 = feed fs s1 in
      let k1 = process_frame-Keeps xcrypt r frame s v a.live.not_iv_request in
      let k2 = feed-Fixed fs s1 v1 q in
      let filtered : is_filtered (decode_lock_command a.plaintext).type ≡ true =
        rw (last_command-accepted xcrypt r frame s a) at f in
      let seen : has_seen (drop 4 frame) (history s2) ≡ true =
        feed-has_seen 1 fs (drop 4 frame) s1 v1 q (omega arith) (
          rw (history-accepted xcrypt r frame s a v filtered)
            (within_remember (drop 4 frame) (history s))) in
      not_command→drop r' frame s2 a.live.not_iv_request λ e.
        let b = (process_frame-command_iff xcrypt r' frame s2).0 e in
        second_is_replay frame a.plaintext b.plaintext s s2 (feed-IsValid fs s1 v1)
          (k2.same_key ∙ k1.same_key) (k2.same_iv ∙ k1.same_iv) a.live a.decrypts b.decrypts
          filtered seen b.fresh
