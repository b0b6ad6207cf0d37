-- ===== src/CloudClient/Hex.antt =====
-- components/switchbot_keypad_bridge/cloud_client.cpp: a key in hexadecimal digits.
pub mod RoundTrip
use switchbot_keypad_bridge.Common.{
  ℕ, ◌+◌, ◌*◌, ◌%◌, Option, none, some, [], ◌∷◌, ◌==◌, if◌then◌else◌, length, Bytes, u8,
}
use switchbot_keypad_bridge.MacUtils.{hex_digit}

-- Two digits; the lambda `digit` is `hex_digit` with -1 for none.
abbrev pub parse_hex_byte : ℕ → ℕ → Option ℕ
parse_hex_byte a b = elim (hex_digit a) [
  | none ↦ none
  | some hi ↦ elim (hex_digit b) [ none ↦ none | some lo ↦ some (u8 (hi * 16 + lo)) ]
]

abbrev pub cons? : Option ℕ → Option Bytes → Option Bytes
cons? none o = none
cons? (some b) none = none
cons? (some b) (some bs) = some (b ∷ bs)

-- The loop, in steps of two.
unfoldable pub parse_pairs : Bytes → Option Bytes
parse_pairs (a ∷ b ∷ rest) = cons? (parse_hex_byte a b) (parse_pairs rest)
parse_pairs _ = some []

unfoldable pub parse_hex_string : Bytes → Option Bytes
parse_hex_string hex = if length hex % 2 == 0 then parse_pairs hex else none
