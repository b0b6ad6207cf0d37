-- ===== src/AesCtr/Laws.antt =====
-- components/switchbot_keypad_bridge/aes_ctr.cpp: the cipher built from the calls of PSA Crypto is a
-- stream cipher, if PSA behaves as its documentation of PSA_ALG_CTR says.
use switchbot_keypad_bridge.Common.{
  pair_misses, no_pair_misses, ℕ, suc, ◌≡◌, refl, sym, ap, ap₂, ◌∙◌, inl, inr, Bool, true, false,
  none, some, [], ◌∷◌, append-nil, ◌==◌, ==_iff, Bool-cases, length, All, pos, Bytes, IsByte,
}
use switchbot_keypad_bridge.AesCtr.Cipher.{IsStream}
use switchbot_keypad_bridge.AesCtr.{is_success, Psa, aes_ctr_xcrypt, aes_ctr_xcrypt_raw_key}
use Prim.Native.Nat.{bit_xor}

abbrev pub xor_bytes : Bytes → Bytes → Bytes
xor_bytes [] ks = []
xor_bytes (x ∷ xs) [] = x ∷ xs
xor_bytes (x ∷ xs) (k ∷ ks) = bit_xor x k ∷ xor_bytes xs ks

abbrev undone : ℕ → ℕ → Bool
undone key byte = bit_xor (bit_xor byte key) key == byte

-- All pairs of a key byte and a byte, by computation.
undone_for_all : pair_misses undone 256 256 ≡ 0
unfolding pair_misses
undone_for_all = refl

bit_xor_twice : (x k : ℕ) → IsByte x → IsByte k → bit_xor (bit_xor x k) k ≡ x
bit_xor_twice x k hx hk =
    (==_iff (bit_xor (bit_xor x k) k) x).0 (no_pair_misses undone 256 256 k x undone_for_all hk hx)

xor_bytes_twice :
    (xs ks : Bytes) → All IsByte xs → All IsByte ks → xor_bytes (xor_bytes xs ks) ks ≡ xs
xor_bytes_twice [] ks hx hk = refl
xor_bytes_twice (x ∷ xs) [] hx hk = refl
xor_bytes_twice (x ∷ xs) (k ∷ ks) hx hk =
    ap₂ ◌∷◌ (bit_xor_twice x k hx.0 hk.0) (xor_bytes_twice xs ks hx.1 hk.1)

length-xor_bytes : (xs ks : Bytes) → length (xor_bytes xs ks) ≡ length xs
length-xor_bytes [] ks = refl
length-xor_bytes (x ∷ xs) [] = refl
length-xor_bytes (x ∷ xs) (k ∷ ks) = ap suc (length-xor_bytes xs ks)

-- PSA's multi-part CTR operation as documented: setup is accepted for a usable key, a 16-byte IV is
-- accepted after it, and the one update then writes the input XORed with the key stream of the key
-- and the IV, which depends on nothing else; finish adds nothing. `with_key` and `with_iv` name the
-- states of the operation.
pub record Documented (psa : Psa) : Type 0 where
  pub usable : ℕ → Bool
  pub stream : ℕ → Bytes → ℕ → Bytes
  pub with_key : ℕ → psa.Operation
  pub with_iv : ℕ → Bytes → psa.Operation
  pub finished : psa.Operation
  pub stream_bytes : (k : ℕ) (iv : Bytes) (n : ℕ) → All IsByte (stream k iv n)
  pub setup_accepts :
      (k : ℕ) → usable k ≡ true → psa.encrypt_setup psa.operation_init k ≡ (pos 0, with_key k)
  pub setup_refuses :
      (k : ℕ) → usable k ≡ false → is_success (psa.encrypt_setup psa.operation_init k).0 ≡ false
  pub set_iv_accepts :
      (k : ℕ) (iv : Bytes) → length iv ≡ 16 → psa.set_iv (with_key k) iv ≡ (pos 0, with_iv k iv)
  pub update_writes :
      (k : ℕ) (iv x : Bytes)
      → psa.update (with_iv k iv) x ≡ (pos 0, xor_bytes x (stream k iv (length x)), finished)
  pub finish_adds_nothing : psa.finish finished ≡ (pos 0, [])

module _ (psa : Psa) (doc : Documented psa) where
  open doc use {
    usable, stream, stream_bytes, setup_accepts, setup_refuses, set_iv_accepts, update_writes,
    finish_adds_nothing,
  }

  -- With a usable key and a 16-byte IV the call succeeds, and its output is the input XORed with the
  -- key stream.
  pub aes_ctr_xcrypt-usable :
      (k : ℕ) (iv x : Bytes)
      → usable k ≡ true
      → length iv ≡ 16
      → aes_ctr_xcrypt psa k iv x ≡ some (xor_bytes x (stream k iv (length x)))
  unfolding aes_ctr_xcrypt
  aes_ctr_xcrypt-usable k iv x u h =
      rw (setup_accepts k u, set_iv_accepts k iv h, update_writes k iv x, finish_adds_nothing)
        (ap some (append-nil _))

  aes_ctr_xcrypt-unusable :
      (k : ℕ) (iv x : Bytes) → usable k ≡ false → aes_ctr_xcrypt psa k iv x ≡ none
  unfolding aes_ctr_xcrypt
  aes_ctr_xcrypt-unusable k iv x u = rw (setup_refuses k u)

  -- Whenever the call succeeds on bytes under a 16-byte IV, the output is as long as the input, and
  -- the same call on the output gives the input back: one primitive both encrypts and decrypts.
  pub aes_ctr_xcrypt-involutive :
      (k : ℕ) (iv x y : Bytes)
      → length iv ≡ 16
      → All IsByte x
      → aes_ctr_xcrypt psa k iv x ≡ some y
      → (length y ≡ length x) × (aes_ctr_xcrypt psa k iv y ≡ some x)
  aes_ctr_xcrypt-involutive k iv x y h hx e = elim (Bool-cases (usable k)) [
    | inr f ↦ absurd (cc (aes_ctr_xcrypt-unusable k iv x f))
    | inl u ↦
        let ks = stream k iv (length x) in
        let out : xor_bytes x ks ≡ y = cc (aes_ctr_xcrypt-usable k iv x u h) in
        let n : length y ≡ length x = ap length (sym out) ∙ length-xor_bytes x ks in
        (
          n,
          aes_ctr_xcrypt-usable k iv y u h
              ∙ ap (λ m. some (xor_bytes y (stream k iv m))) n
              ∙ ap (λ z. some (xor_bytes z ks)) (sym out)
              ∙ ap some (xor_bytes_twice x ks hx (stream_bytes k iv (length x))),
        )
  ]

  -- So it fills the interface that the session takes.
  pub aes_ctr_xcrypt-IsStream : IsStream (aes_ctr_xcrypt psa)
  aes_ctr_xcrypt-IsStream = aes_ctr_xcrypt-involutive

  -- A key that is imported for one call only is as good: a key that cannot be imported encrypts nothing.
  pub aes_ctr_xcrypt_raw_key-IsStream : IsStream (aes_ctr_xcrypt_raw_key psa)
  unfolding aes_ctr_xcrypt_raw_key
  aes_ctr_xcrypt_raw_key-IsStream key iv x y h hx e =
      elim (Bool-cases (is_success (psa.import_key key).0)) [
        | inl ok ↦ rw ok (aes_ctr_xcrypt-involutive (psa.import_key key).1 iv x y h hx (rw ok at e))
        | inr bad ↦ absurd (cc (rw bad at e))
      ]
