-- ===== src/AesCtr/Toy.antt =====
-- A small cipher with the interface that components/switchbot_keypad_bridge/aes_ctr.cpp uses, for tests.
use switchbot_keypad_bridge.Common.{
  ℕ, zero, suc, ◌%◌, ◌<◌, ◌≡◌, refl, true, false, not, [], arith, ◌==◌, if◌then◌else◌, length,
  replicate, All, pos, negsuc, Bytes, IsByte,
}
use switchbot_keypad_bridge.AesCtr.{Status, is_success, Psa, aes_ctr_xcrypt}
use switchbot_keypad_bridge.AesCtr.Cipher.{Xcrypt, IsStream}
use switchbot_keypad_bridge.AesCtr.Laws.{xor_bytes, Documented, aes_ctr_xcrypt-IsStream}

-- The states of an operation that XORs each byte with the key.
pub data ToyOperation : Type 0 where
  fresh spent : ToyOperation
  keyed : ℕ → ToyOperation
  ready : ℕ → Bytes → ToyOperation

abbrev pub toy_stream : ℕ → Bytes → ℕ → Bytes
toy_stream k iv n = replicate n (k % 256)

abbrev pub toy_set_iv : ToyOperation → Bytes → Status × ToyOperation
toy_set_iv (keyed k) iv = if length iv == 16 then (pos 0, ready k iv) else (negsuc 0, spent)
toy_set_iv _ iv = (negsuc 0, spent)

abbrev pub toy_update : ToyOperation → Bytes → Status × Bytes × ToyOperation
toy_update (ready k iv) x = (pos 0, xor_bytes x (toy_stream k iv (length x)), spent)
toy_update _ x = (negsuc 0, [], spent)

-- Handle 0 is the null handle.
abbrev pub toy_psa : Psa
toy_psa = record {
  Operation = ToyOperation;
  operation_init = fresh;
  encrypt_setup = λ op k. if k == 0 then (negsuc 0, op) else (pos 0, keyed k);
  set_iv = toy_set_iv;
  update = toy_update;
  finish = λ op. (pos 0, []);
  import_key = λ key. (pos 0, 1);
}

pub replicate-IsByte : (n b : ℕ) → b < 256 → All IsByte (replicate n b)
replicate-IsByte zero b h = tt
replicate-IsByte (suc n) b h = (h, replicate-IsByte n b h)

pub toy_set_iv-accepts :
    (k : ℕ) (iv : Bytes) → length iv ≡ 16 → toy_set_iv (keyed k) iv ≡ (pos 0, ready k iv)
toy_set_iv-accepts k iv h = ground (arith, h)

pub toy_setup_accepts :
    (k : ℕ) → not (k == 0) ≡ true → toy_psa.encrypt_setup fresh k ≡ (pos 0, keyed k)
toy_setup_accepts k h = ground (arith, h)

pub toy_setup_refuses :
    (k : ℕ) → not (k == 0) ≡ false → is_success (toy_psa.encrypt_setup fresh k).0 ≡ false
toy_setup_refuses k h = ground (arith, h)

abbrev pub toy_documented : Documented toy_psa
toy_documented = record {
  usable = λ k. not (k == 0);
  stream = toy_stream;
  with_key = keyed;
  with_iv = ready;
  finished = spent;
  stream_bytes = λ k iv n. replicate-IsByte n (k % 256) (omega arith);
  setup_accepts = toy_setup_accepts;
  setup_refuses = toy_setup_refuses;
  set_iv_accepts = toy_set_iv-accepts;
  update_writes = λ k iv x. refl;
  finish_adds_nothing = refl;
}

abbrev pub toy_xcrypt : Xcrypt ℕ
toy_xcrypt = aes_ctr_xcrypt toy_psa

pub toy_IsStream : IsStream toy_xcrypt
toy_IsStream = aes_ctr_xcrypt-IsStream toy_psa toy_documented
