-- ===== src/PairingUi/Credentials.antt =====
-- components/switchbot_keypad_bridge/pairing_ui.cpp: which credentials pass.
use Prim.Native.Nat.{bit_xor, bit_or}
use switchbot_keypad_bridge.Common.{
  pair_misses, no_pair_misses, ℕ, zero, suc, ◌%◌, ◌≤◌, ◌<◌, ◌≡◌, refl, sym, ap, ap₂, ◌∙◌, ◌↔◌, inl,
  inr, Bool, true, false, not, ◌&&◌, Option, some, [], ◌∷◌, arith, ltb, ◌==◌, ==_iff, Option-cases,
  length, get_or, drop, is_nil, All, Bytes, IsByte, u8, memcmp_eq,
}
use switchbot_keypad_bridge.PairingUi.Auth.{
  Credentials, expected_text, fold_diff, credentials_diff, basic_prefix, header_max, check_decoded,
  check_header, require_auth,
}

-- Two tests have the same result.
abbrev agree : Bool → Bool → Bool
agree true b = b
agree false b = not b

abbrev xor_tells : ℕ → ℕ → Bool
xor_tells a b = ltb (bit_xor a b) 256 && agree (bit_xor a b == 0) (a == b)

abbrev or_tells : ℕ → ℕ → Bool
or_tells a b = ltb (bit_or a b) 256 && agree (bit_or a b == 0) ((a == 0) && (b == 0))

abbrev low_tells : ℕ → ℕ → Bool
low_tells a b = agree (u8 (bit_xor a b) == 0) (a % 256 == b % 256)

xor_table : pair_misses xor_tells 256 256 ≡ 0
unfolding pair_misses
xor_table = refl

or_table : pair_misses or_tells 256 256 ≡ 0
unfolding pair_misses
or_table = refl

low_table : pair_misses low_tells 401 512 ≡ 0
unfolding pair_misses
low_table = refl

xor_facts : (a b : ℕ) → IsByte a → IsByte b → IsByte (bit_xor a b) × ((bit_xor a b ≡ 0) ↔ (a ≡ b))
xor_facts a b ha hb = ground (arith, no_pair_misses xor_tells 256 256 a b xor_table ha hb)

or_facts :
    (a b : ℕ) → IsByte a → IsByte b → IsByte (bit_or a b) × ((bit_or a b ≡ 0) ↔ ((a ≡ 0) × (b ≡ 0)))
or_facts a b ha hb = ground (arith, no_pair_misses or_tells 256 256 a b or_table ha hb)

-- The first `n` bytes of a text, with NULs for the missing ones.
abbrev pub pad : ℕ → Bytes → Bytes
pad zero creds = []
pad (suc n) [] = 0 ∷ pad n []
pad (suc n) (c ∷ creds) = c ∷ pad n creds

pad-all : (creds : Bytes) → pad (length creds) creds ≡ creds
pad-all [] = refl
pad-all (c ∷ creds) = ap (c ∷◌) (pad-all creds)

abbrev tail : Bytes → Bytes
tail [] = []
tail (c ∷ cs) = cs

step_iff :
    (d c e : ℕ) (cs expected : Bytes)
    → IsByte d
    → IsByte c
    → IsByte e
    → ((bit_or d (bit_xor c e) ≡ 0) × (pad (length expected) cs ≡ expected))
      ↔ ((d ≡ 0) × (c ∷ pad (length expected) cs ≡ e ∷ expected))
step_iff d c e cs expected hd hc he =
    let (xb, (x_to, x_from)) = xor_facts c e hc he in
    let (ob, (o_to, o_from)) = or_facts d (bit_xor c e) hd xb in
    (
      λ h. ((o_to h.0).0, ap₂ ◌∷◌ (x_to (o_to h.0).1) h.1),
      λ h. (o_from (h.0, x_from (ap (λ s. get_or s 0 0) h.1)), ap tail h.1),
    )

or_IsByte : (d c e : ℕ) → IsByte d → IsByte c → IsByte e → IsByte (bit_or d (bit_xor c e))
or_IsByte d c e hd hc he = (or_facts d (bit_xor c e) hd (xor_facts c e hc he).0).0

-- The loop ends with 0 exactly if it began with 0 and found no difference.
fold_diff_iff :
    (creds expected : Bytes) (d : ℕ)
    → IsByte d
    → All IsByte creds
    → All IsByte expected
    → (fold_diff creds expected d ≡ 0) ↔ ((d ≡ 0) × (pad (length expected) creds ≡ expected))
unfolding fold_diff
fold_diff_iff creds [] d hd hc he = (λ h. (h, refl), λ h. h.0)
fold_diff_iff [] (e ∷ expected) d hd hc he =
    let next = bit_or d (bit_xor 0 e) in
    let ih = fold_diff_iff [] expected next (or_IsByte d 0 e hd (omega arith) he.0) tt he.1 in
    let st = step_iff d 0 e [] expected hd (omega arith) he.0 in
    (λ h. st.0 (ih.0 h), λ h. ih.1 (st.1 h))
fold_diff_iff (c ∷ creds) (e ∷ expected) d hd hc he =
    let next = bit_or d (bit_xor c e) in
    let ih = fold_diff_iff creds expected next (or_IsByte d c e hd hc.0 he.0) hc.1 he.1 in
    let st = step_iff d c e creds expected hd hc.0 he.0 in (λ h. st.0 (ih.0 h), λ h. ih.1 (st.1 h))

low_facts : (a b : ℕ) → a ≤ 400 → b < 512 → (u8 (bit_xor a b) ≡ 0) ↔ (a % 256 ≡ b % 256)
low_facts a b ha hb =
    ground (arith, no_pair_misses low_tells 401 512 a b low_table (omega arith) hb)

-- Credentials that fit the decoder's buffer pass the comparison exactly when they agree with the
-- expected text as far as that goes and their length differs from its length by a multiple of 256:
-- of the lengths only the low byte is compared.
pub credentials_diff_iff :
    (creds expected : Bytes)
    → length creds ≤ 400
    → length expected < 512
    → All IsByte creds
    → All IsByte expected
    → (credentials_diff creds expected ≡ 0)
      ↔ ((length creds % 256 ≡ length expected % 256) × (pad (length expected) creds ≡ expected))
unfolding credentials_diff
credentials_diff_iff creds expected hn hm hc he =
    let seed = u8 (bit_xor (length creds) (length expected)) in
    let all = fold_diff_iff creds expected seed (omega arith) hc he in
    let low = low_facts (length creds) (length expected) hn hm in
    (λ h. (low.0 (all.0 h).0, (all.0 h).1), λ h. all.1 (low.1 h.0, h.1))

-- Where both are shorter than 256 bytes, only the expected text itself passes.
pub credentials_diff-short :
    (creds expected : Bytes)
    → length creds < 256
    → length expected < 256
    → All IsByte creds
    → All IsByte expected
    → (credentials_diff creds expected ≡ 0) ↔ (creds ≡ expected)
credentials_diff-short creds expected hn hm hc he =
    let i = credentials_diff_iff creds expected (omega arith) (omega arith) hc he in
    (
      λ h.
          let (n, p) = i.0 h in
          let same : length creds ≡ length expected = omega (arith, n) in
          sym (pad-all creds) ∙ ap (λ k. pad k creds) same ∙ p,
      λ e. i.1 (ap (λ s. length s % 256) e, ap (λ s. pad (length expected) s) e ∙ pad-all expected),
    )

module _ (base64_decode : Bytes → Option Bytes) where
  -- A header of 1 to 512 bytes that begins with "Basic " and goes on with the base64 of credentials that
  -- pass the comparison.
  pub record Passes (header : Bytes) (k : Credentials) : Type 0 where
    pub not_empty : 0 < length header
    pub fits : length header ≤ header_max
    pub is_basic : memcmp_eq basic_prefix header ≡ true
    pub creds : Bytes
    pub decodes : base64_decode (drop 6 header) ≡ some creds
    pub same : credentials_diff creds (expected_text k) ≡ 0

  checked :
      (header : Bytes) (k : Credentials)
      → check_header base64_decode header k ≡ true
      → (memcmp_eq basic_prefix header ≡ true)
        × (check_decoded (base64_decode (drop 6 header)) k ≡ true)
  unfolding check_header
  checked header k h = ground arith

  guarded :
      (header : Bytes) (k : Credentials)
      → is_nil k.pass ≡ false
      → require_auth base64_decode (some header) k ≡ true
      → (0 < length header)
        × (length header ≤ header_max)
        × (check_header base64_decode header k ≡ true)
  unfolding require_auth
  guarded header k n h = ground (arith, n, h)

  passed :
      (header : Bytes) (k : Credentials)
      → require_auth base64_decode (some header) k ≡ true
      → is_nil k.pass ≡ false
      → Passes header k
  passed header k h n =
      let (some_bytes, fits, ok) = guarded header k n h in
      let (basic, decoded) = checked header k ok in
      elim (Option-cases (base64_decode (drop 6 header))) [
        | inl e ↦ absurd (cc (ap (λ o. check_decoded o k) (sym e) ∙ decoded))
        | inr (creds, e) ↦ record {
          not_empty = some_bytes;
          fits = fits;
          is_basic = basic;
          creds = creds;
          decodes = e;
          same =
              (==_iff (credentials_diff creds (expected_text k)) 0).0
                (ap (λ o. check_decoded o k) (sym e) ∙ decoded);
        }
      ]

  admitted :
      (header : Bytes) (k : Credentials)
      → Passes header k
      → require_auth base64_decode (some header) k ≡ true
  unfolding require_auth check_header
  admitted header k p =
      let decoded : check_decoded (base64_decode (drop 6 header)) k ≡ true =
        ap (λ o. check_decoded o k) p.decodes
        ∙ (==_iff (credentials_diff p.creds (expected_text k)) 0).1 p.same in
      ground (arith, decoded, p.not_empty, p.fits, p.is_basic)

  -- Where a password is set, a request with an Authorization header goes on exactly when that header is
  -- of at most 512 bytes, is of the Basic scheme, and decodes to credentials that pass the comparison
  -- with the configured ones.
  pub require_auth_iff :
      (header : Bytes) (k : Credentials)
      → is_nil k.pass ≡ false
      → (require_auth base64_decode (some header) k ≡ true) ↔ Passes header k
  require_auth_iff header k n = (λ h. passed header k h n, λ p. admitted header k p)
