-- ===== src/CloudClient/Hex/RoundTrip.antt =====
-- components/switchbot_keypad_bridge/cloud_client.cpp: which texts are keys.
use switchbot_keypad_bridge.Common.{
  hex_text, ℕ, ◌*◌, ◌/◌, ◌%◌, ◌<◌, ◌≡◌, refl, subst, inl, inr, Option, none, some, [], ◌∷◌, arith,
  ◌==◌, ==_iff, Bool-cases, length, All, Bytes, IsByte, hex_char_lower,
}
use switchbot_keypad_bridge.MacUtils.{hex_digit}
use switchbot_keypad_bridge.CloudClient.Hex.{parse_hex_byte, cons?, parse_pairs, parse_hex_string}

hex_digit-char : (d : ℕ) → d < 16 → hex_digit (hex_char_lower d) ≡ some d
unfolding hex_digit
hex_digit-char d h = ground arith

hex_digit-lt : (c d : ℕ) → hex_digit c ≡ some d → d < 16
unfolding hex_digit
hex_digit-lt c d h = ground arith

parse_hex_byte-text :
    (b : ℕ) → b < 256 → parse_hex_byte (hex_char_lower (b / 16)) (hex_char_lower (b % 16)) ≡ some b
parse_hex_byte-text b h =
    ground (arith, hex_digit-char (b / 16) (omega arith), hex_digit-char (b % 16) (omega arith))

parse_pairs-hex_text : (bs : Bytes) → All IsByte bs → parse_pairs (hex_text bs) ≡ some bs
unfolding parse_pairs hex_text
parse_pairs-hex_text [] h = refl
parse_pairs-hex_text (b ∷ bs) h = rw (parse_hex_byte-text b h.0, parse_pairs-hex_text bs h.1) refl

length-hex_text : (bs : Bytes) → length (hex_text bs) ≡ 2 * length bs
unfolding hex_text
length-hex_text [] = omega arith
length-hex_text (b ∷ bs) = omega (arith, length-hex_text bs)

-- Every byte string is read back from its text in hexadecimal digits, as it is shown on the page and logged.
pub parse_hex_string-hex_text :
    (bs : Bytes) → All IsByte bs → parse_hex_string (hex_text bs) ≡ some bs
unfolding parse_hex_string
parse_hex_string-hex_text bs h =
    let even : length (hex_text bs) % 2 ≡ 0 = omega (arith, length-hex_text bs) in
    rw ((==_iff _ _).1 even) (parse_pairs-hex_text bs h)

parse_hex_byte-IsByte : (a b v : ℕ) → parse_hex_byte a b ≡ some v → IsByte v
parse_hex_byte-IsByte a b v h = ground arith

abbrev ByteIn : Option ℕ → Type 0
ByteIn none = Unit
ByteIn (some b) = IsByte b

abbrev BytesIn : Option Bytes → Type 0
BytesIn none = Unit
BytesIn (some bs) = All IsByte bs

to_ByteIn : (o : Option ℕ) → ((v : ℕ) → o ≡ some v → IsByte v) → ByteIn o
to_ByteIn none h = tt
to_ByteIn (some v) h = h v refl

cons?-BytesIn : (o : Option ℕ) (p : Option Bytes) → ByteIn o → BytesIn p → BytesIn (cons? o p)
cons?-BytesIn none p ho hp = tt
cons?-BytesIn (some b) none ho hp = tt
cons?-BytesIn (some b) (some bs) ho hp = (ho, hp)

parse_pairs-BytesIn : (hex : Bytes) → BytesIn (parse_pairs hex)
unfolding parse_pairs
parse_pairs-BytesIn [] = tt
parse_pairs-BytesIn (a ∷ []) = tt
parse_pairs-BytesIn (a ∷ b ∷ hex) =
    cons?-BytesIn (parse_hex_byte a b) (parse_pairs hex)
      (to_ByteIn (parse_hex_byte a b) (parse_hex_byte-IsByte a b)) (parse_pairs-BytesIn hex)

pub parse_hex_string-IsByte : (hex bs : Bytes) → parse_hex_string hex ≡ some bs → All IsByte bs
unfolding parse_hex_string
parse_hex_string-IsByte hex bs h = elim (Bool-cases (length hex % 2 == 0)) [
  | inl e ↦ subst BytesIn (rw e at h) (parse_pairs-BytesIn hex)
  | inr e ↦ absurd (cc (rw e at h))
]
