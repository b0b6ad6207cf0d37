-- ===== src/LockProtocol/Shape.antt =====
-- components/switchbot_keypad_bridge/lock_protocol.cpp: the frames of each command, and the decoder
-- against them.
use switchbot_keypad_bridge.Common.{
  ℕ, ◌≤◌, ◌≡◌, refl, sym, ap, ◌∙◌, subst, ◌≢◌, ◌↔◌, ◌⊎◌, inl, inr, true, false, ◌&&◌, [], ◌∷◌, ◌++◌,
  arith, leb, ◌==◌, leb→le, ==_iff, Bool-cases, &&_true, length, get_or, pos, Bytes, memcmp_eq,
  memcmp_eq→append,
}
use switchbot_keypad_bridge.LockProtocol.{
  DecodedCommand, no_command, frame_lock, frame_action, frame_state_poll_prefix, frame_doorbell,
  credential_slot, decode_lock_command, unknown, lock, unlock, state_poll, doorbell,
}

-- A frame with the command that it stands for, as the protocol describes it: a `lock` frame is fixed,
-- an `unlock` frame carries a method, the marker 0x80 and an index byte, a poll ends in a model byte.
pub data Means : Bytes → DecodedCommand → Type 0 where
  means_lock : Means frame_lock (record no_command { type = lock })
  means_poll :
      (model : ℕ)
      → Means (0x0F ∷ 0x4F ∷ 0x81 ∷ model ∷ []) (record no_command { type = state_poll })
  means_doorbell : Means (0x01 ∷ 0x03 ∷ []) (record no_command { type = doorbell })
  means_unlock :
      (method index x : ℕ) (rest : Bytes)
      → Means (0x0F ∷ 0x4E ∷ 0x01 ∷ 0x03 ∷ method ∷ 0x80 ∷ index ∷ x ∷ rest) (record {
        type = unlock;
        method = method;
        credential_index = pos (credential_slot index);
      })

-- A frame of a command decodes to that command.
pub decode_of_Means : {p : Bytes} {c : DecodedCommand} → Means p c → decode_lock_command p ≡ c
unfolding decode_lock_command
decode_of_Means means_lock = refl
decode_of_Means (means_poll model) = refl
decode_of_Means means_doorbell = refl
decode_of_Means (means_unlock method index x rest) = ground arith

-- What the decoder returns is a meaning of the frame, or names no command.
Outcome : Bytes → Type 0
Outcome p = Means p (decode_lock_command p) ⊎ (decode_lock_command p ≡ no_command)

Outcome-of_Means : {p : Bytes} {c : DecodedCommand} → Means p c → Outcome p
unfolding Outcome
Outcome-of_Means {p} m = inl (subst (Means p) (sym (decode_of_Means m)) m)

-- The tests of the decoder, each with the frames that pass it.
lock_case : (p : Bytes) → ((length p == 8) && memcmp_eq frame_lock p) ≡ true → Outcome p
lock_case p h =
    let (n, m) = &&_true (length p == 8) (memcmp_eq frame_lock p) h in
    let (rest, e) = memcmp_eq→append frame_lock p m in exact rest e n
  where
    exact : (rest : Bytes) → p ≡ frame_lock ++ rest → (length p == 8) ≡ true → Outcome p
    exact [] e n = subst Outcome (sym e) (Outcome-of_Means means_lock)
    exact (x ∷ rest) e n = absurd (ground (arith, ap length e))

poll_case :
    (p : Bytes) → ((length p == 4) && memcmp_eq frame_state_poll_prefix p) ≡ true → Outcome p
poll_case p h =
    let (n, m) = &&_true (length p == 4) (memcmp_eq frame_state_poll_prefix p) h in
    let (rest, e) = memcmp_eq→append frame_state_poll_prefix p m in exact rest e n
  where
    exact :
        (rest : Bytes) → p ≡ frame_state_poll_prefix ++ rest → (length p == 4) ≡ true → Outcome p
    exact [] e n = absurd (ground (arith, ap length e))
    exact (x ∷ []) e n = subst Outcome (sym e) (Outcome-of_Means (means_poll x))
    exact (x ∷ y ∷ rest) e n = absurd (ground (arith, ap length e))

doorbell_case : (p : Bytes) → ((length p == 2) && memcmp_eq frame_doorbell p) ≡ true → Outcome p
doorbell_case p h =
    let (n, m) = &&_true (length p == 2) (memcmp_eq frame_doorbell p) h in
    let (rest, e) = memcmp_eq→append frame_doorbell p m in exact rest e n
  where
    exact : (rest : Bytes) → p ≡ frame_doorbell ++ rest → (length p == 2) ≡ true → Outcome p
    exact [] e n = subst Outcome (sym e) (Outcome-of_Means means_doorbell)
    exact (x ∷ rest) e n = absurd (ground (arith, ap length e))

unlock_case :
    (p : Bytes)
    → (leb 8 (length p) && memcmp_eq frame_action p && (get_or p 5 0 == 0x80)) ≡ true
    → Outcome p
unlock_case p h =
    let (nm, k) = &&_true (leb 8 (length p) && memcmp_eq frame_action p) (get_or p 5 0 == 0x80) h in
    let (n, m) = &&_true (leb 8 (length p)) (memcmp_eq frame_action p) nm in
    let (rest, e) = memcmp_eq→append frame_action p m in
    exact rest e (leb→le 8 (length p) n) ((==_iff _ _).0 k)
  where
    exact :
        (rest : Bytes) → p ≡ frame_action ++ rest → 8 ≤ length p → get_or p 5 0 ≡ 0x80 → Outcome p
    exact (a ∷ b ∷ c ∷ d ∷ rest) e n k =
        let hb : b ≡ 0x80 = sym (ap (λ q. get_or q 5 0) e) ∙ k in
        subst Outcome (sym (e ∙ ap (λ m. frame_action ++ a ∷ m ∷ c ∷ d ∷ rest) hb))
          (Outcome-of_Means (means_unlock a c d rest))
    exact _ e n k = absurd (omega (arith, ap length e))

no_test_passes :
    (p : Bytes)
    → ((length p == 8) && memcmp_eq frame_lock p) ≡ false
    → ((length p == 4) && memcmp_eq frame_state_poll_prefix p) ≡ false
    → ((length p == 2) && memcmp_eq frame_doorbell p) ≡ false
    → (leb 8 (length p) && memcmp_eq frame_action p && (get_or p 5 0 == 0x80)) ≡ false
    → decode_lock_command p ≡ no_command
unfolding decode_lock_command
no_test_passes p f1 f2 f3 f4 = rw (f1, f2, f3, f4)

-- The order of the decoder's tests does not matter: whichever passes, the frame has that shape.
outcome : (p : Bytes) → Outcome p
unfolding Outcome
outcome p = elim (Bool-cases ((length p == 8) && memcmp_eq frame_lock p)) [
  | inl t ↦ lock_case p t
  | inr f1 ↦ elim (Bool-cases ((length p == 4) && memcmp_eq frame_state_poll_prefix p)) [
    | inl t ↦ poll_case p t
    | inr f2 ↦ elim (Bool-cases ((length p == 2) && memcmp_eq frame_doorbell p)) [
      | inl t ↦ doorbell_case p t
      | inr f3 ↦
          elim (Bool-cases
            (leb 8 (length p) && memcmp_eq frame_action p && (get_or p 5 0 == 0x80))) [
              | inl t ↦ unlock_case p t
              | inr f4 ↦ inr (no_test_passes p f1 f2 f3 f4)
            ]
    ]
  ]
]

-- A decoded frame names a command exactly when it has that command's shape: `decode_lock_command p`
-- is a command `c` of a known type if and only if `p` is one of the frames that mean `c`.
pub decode-iff-Means :
    (p : Bytes) (c : DecodedCommand) → c.type ≢ unknown → (decode_lock_command p ≡ c) ↔ Means p c
unfolding Outcome
decode-iff-Means p c known = (from_code, decode_of_Means)
  where
    from_code : decode_lock_command p ≡ c → Means p c
    from_code e = elim (outcome p) [
      | inl m ↦ subst (Means p) e m
      | inr n ↦ absurd (known (ap (λ (d : DecodedCommand). d.type) (sym e ∙ n)))
    ]
