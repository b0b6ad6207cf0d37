-- ===== src/LockProtocol.antt =====
-- components/switchbot_keypad_bridge/lock_protocol.h and lock_protocol.cpp: what a decrypted keypad
-- frame asks for.
pub mod Method
pub mod Shape
pub mod Index
mod Tests
use switchbot_keypad_bridge.Common.{
  ℕ, ◌-◌, Bool, true, false, ◌&&◌, [], ◌∷◌, ℤ, pos, negsuc, Bytes, text, memcmp_eq, length, get_or,
  leb, ◌==◌, if◌then◌else◌,
}
pub use Method.{UnlockMethod}

unfoldable pub unlock_method_name : UnlockMethod → Bytes
unlock_method_name m =
    if m == Method.fingerprint
    then text "fingerprint"
    else if m == Method.pin
    then text "pin"
    else if m == Method.nfc
    then text "nfc"
    else if m == Method.face
    then text "face"
    else text "unknown"

pub data CommandType : Type 0 where
  unknown lock unlock state_poll doorbell : CommandType

-- `credential_index` is an int16_t, -1 where no credential is named.
pub record DecodedCommand : Type 0 where
  pub type : CommandType
  pub method : UnlockMethod
  pub credential_index : ℤ

-- The default member initialisers.
abbrev pub no_command : DecodedCommand
no_command = record { type = unknown; method = Method.unknown; credential_index = negsuc 0 }

abbrev pub frame_lock : Bytes
frame_lock = 0x0F ∷ 0x4E ∷ 0x01 ∷ 0x03 ∷ 0x00 ∷ 0x00 ∷ 0x00 ∷ 0x00 ∷ []

abbrev pub frame_action : Bytes
frame_action = 0x0F ∷ 0x4E ∷ 0x01 ∷ 0x03 ∷ []

abbrev pub frame_state_poll_prefix : Bytes
frame_state_poll_prefix = 0x0F ∷ 0x4F ∷ 0x81 ∷ []

abbrev pub frame_doorbell : Bytes
frame_doorbell = 0x01 ∷ 0x03 ∷ []

abbrev pub unlock_method_offset : ℕ
unlock_method_offset = 4

abbrev pub unlock_marker_offset : ℕ
unlock_marker_offset = 5

abbrev pub unlock_index_offset : ℕ
unlock_index_offset = 6

abbrev pub unlock_marker : ℕ
unlock_marker = 0x80

abbrev pub unlock_index_base : ℕ
unlock_index_base = 0x0A

-- The slot that an index byte stands for: biased by 0x0A on the original keypad, raw below it.
unfoldable pub credential_slot : ℕ → ℕ
credential_slot b = if leb unlock_index_base b then b - unlock_index_base else b

-- The list is `plaintext[0..length)`; every read is guarded by a test of the length.
unfoldable pub decode_lock_command : Bytes → DecodedCommand
unfolding credential_slot
decode_lock_command p =
    if (length p == 8) && memcmp_eq frame_lock p
    then record no_command { type = lock }
    else if (length p == 4) && memcmp_eq frame_state_poll_prefix p
    then record no_command { type = state_poll }
    else if (length p == 2) && memcmp_eq frame_doorbell p
    then record no_command { type = doorbell }
    else if leb 8 (length p)
        && memcmp_eq frame_action p
        && (get_or p unlock_marker_offset 0 == unlock_marker)
    then record {
      type = unlock;
      method = get_or p unlock_method_offset 0;
      credential_index = pos (credential_slot (get_or p unlock_index_offset 0));
    }
    else no_command
