-- ===== src/LockProtocol/Index.antt =====
-- components/switchbot_keypad_bridge/lock_protocol.cpp: the credential slot of an unlock frame.
use switchbot_keypad_bridge.Common.{
  ℕ, ◌+◌, ◌≤◌, ◌<◌, ◌≡◌, ◌≢◌, ◌↔◌, ◌⊎◌, ◌∷◌, arith, All, pos, negsuc, Bytes, IsByte, get_or-IsByte,
}
use switchbot_keypad_bridge.LockProtocol.{
  DecodedCommand, credential_slot, decode_lock_command, unlock,
}

-- No command but an unlock names a slot, and an unlock names one that an int16_t holds.
abbrev pub IndexInRange : DecodedCommand → Type 0
IndexInRange c =
    ((c.type ≡ unlock) × ((n : ℕ) × (c.credential_index ≡ pos n) × (n ≤ 245)))
    ⊎ ((c.type ≢ unlock) × (c.credential_index ≡ negsuc 0))

-- Of any bytes the decoder makes a command that either is an unlock with a slot from 0 to 245, or is
-- no unlock and has the credential index -1: the cast to int16_t never changes a value.
decode-IndexInRange : (p : Bytes) → All IsByte p → IndexInRange (decode_lock_command p)
unfolding decode_lock_command credential_slot
decode-IndexInRange p h = ground (arith, get_or-IsByte p 6 h)

-- The decoder on an original keypad's frame, whose index byte is 0x0A above the slot, gives the
-- method and the slot back, for every slot that fits in a byte.
decode-biased :
    (method slot x : ℕ) (rest : Bytes)
    → slot ≤ 245
    → decode_lock_command (0x0F ∷ 0x4E ∷ 0x01 ∷ 0x03 ∷ method ∷ 0x80 ∷ (0x0A + slot) ∷ x ∷ rest)
      ≡ record { type = unlock; method = method; credential_index = pos slot }
unfolding credential_slot decode_lock_command
decode-biased method slot x rest h = ground arith

-- Two index bytes name the same slot exactly when they are equal, or one is below 0x0A and the other
-- is its biased form: the raw slots of a Vision keypad are told apart as long as they are below ten.
pub credential_slot-eq :
    (a b : ℕ)
    → (credential_slot a ≡ credential_slot b)
      ↔ ((a ≡ b) ⊎ ((a < 10) × (b ≡ a + 10)) ⊎ ((b < 10) × (a ≡ b + 10)))
unfolding credential_slot
credential_slot-eq a b = (λ e. ground arith, λ e. ground arith)
