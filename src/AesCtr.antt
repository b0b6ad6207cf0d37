-- ===== src/AesCtr.antt =====
-- components/switchbot_keypad_bridge/aes_ctr.h and aes_ctr.cpp: AES-128-CTR over PSA Crypto. PSA is a
-- library, so its calls are a parameter here; `Laws` says what the bridge relies on.
pub mod Cipher
pub mod Laws
pub mod Toy
mod Tests
use switchbot_keypad_bridge.Common.{
  ℕ, Bool, Option, none, some, ◌++◌, ◌==◌, if◌then◌else◌, ℤ, ◌==ℤ◌, pos, Bytes,
}

-- `psa_status_t`; PSA_SUCCESS is 0.
abbrev pub Status : Type 0
Status = ℤ

abbrev pub is_success : Status → Bool
is_success s = s ==ℤ pos 0

-- The calls of PSA Crypto that the source makes. `Operation` is `psa_cipher_operation_t`. A call that
-- writes to a buffer returns the bytes written, a key handle is a number.
pub record Psa : Type 1 where
  pub Operation : Type 0
  pub operation_init : Operation
  pub encrypt_setup : Operation → ℕ → Status × Operation
  pub set_iv : Operation → Bytes → Status × Operation
  pub update : Operation → Bytes → Status × Bytes × Operation
  pub finish : Operation → Status × Bytes
  pub import_key : Bytes → Status × ℕ

module _ (psa : Psa) where
  open psa use {Operation, operation_init, encrypt_setup, set_iv, update, finish, import_key}

  -- The ladder of `if (status == PSA_SUCCESS)`, from its last step to its first: what each call adds
  -- to the output. `none` is the `false` that the function returns once it has called abort.
  finish_step : Operation → Bytes → Option Bytes
  finish_step op out =
      let (st, tail) = finish op in if is_success st then some (out ++ tail) else none

  update_step : Operation → Bytes → Option Bytes
  update_step op input =
      let (st, out, op') = update op input in if is_success st then finish_step op' out else none

  iv_step : Operation → Bytes → Bytes → Option Bytes
  iv_step op iv input =
      let (st, op') = set_iv op iv in if is_success st then update_step op' input else none

  unfoldable pub aes_ctr_xcrypt : ℕ → Bytes → Bytes → Option Bytes
  unfolding iv_step update_step finish_step
  aes_ctr_xcrypt key iv input =
      let (st, op) = encrypt_setup operation_init key in
      if is_success st then iv_step op iv input else none

  -- The key is imported, used once and destroyed.
  unfoldable pub aes_ctr_xcrypt_raw_key : Bytes → Bytes → Bytes → Option Bytes
  unfolding aes_ctr_xcrypt
  aes_ctr_xcrypt_raw_key key iv input =
      let (st, key_id) = import_key key in
      if is_success st then aes_ctr_xcrypt key_id iv input else none
