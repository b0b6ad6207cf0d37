-- ===== src/MacUtils.antt =====
-- components/switchbot_keypad_bridge/mac_utils.h and mac_utils.cpp: MAC addresses as text and as bytes,
-- with the `snprintf` format "%02X:%02X:%02X:%02X:%02X:%02X" by which switchbot_keypad_bridge.cpp
-- prints one.
pub mod Text
pub mod RoundTrip
mod Tests
use switchbot_keypad_bridge.Common.{
  ℕ, zero, suc, ◌+◌, ◌-◌, ◌*◌, ◌/◌, ◌%◌, ◌^◌, Bool, true, false, ◌&&◌, ◌||◌, Option, none, some, [],
  ◌∷◌, ◌++◌, map, ltb, leb, ◌==◌, if◌then◌else◌, length, Bytes, u8, u32,
}
use mathlib.Core.Option

abbrev pub is_separator : ℕ → Bool
is_separator c = c == b':' || c == b'-'

-- `std::toupper` in the C locale
abbrev pub to_upper : ℕ → ℕ
to_upper c = if leb b'a' c && leb c b'z' then c - 32 else c

unfoldable pub compact_mac : Bytes → Bytes
compact_mac [] = []
compact_mac (c ∷ cs) =
    let rest = compact_mac cs in if is_separator c then rest else to_upper c ∷ rest

-- The loop of `pretty_mac` over the pairs of characters; `out` is empty in the first round only.
unfoldable pub join_pairs : Bool → Bytes → Bytes
join_pairs first (a ∷ b ∷ rest) =
    (if first then [] else b':' ∷ []) ++ (a ∷ b ∷ join_pairs false rest)
join_pairs first _ = []

unfoldable pub pretty_mac : Bytes → Bytes
pretty_mac raw =
    let compact = compact_mac raw in if length compact == 12 then join_pairs true compact else raw

unfoldable pub upper_mac : Bytes → Bytes
upper_mac [] = []
upper_mac (c ∷ cs) = to_upper c ∷ upper_mac cs

-- The value of a hexadecimal digit of either case.
unfoldable pub hex_digit : ℕ → Option ℕ
hex_digit c =
    if leb b'0' c && leb c b'9'
    then some (c - b'0')
    else if leb b'a' c && leb c b'f'
    then some (c - b'a' + 10)
    else if leb b'A' c && leb c b'F'
    then some (c - b'A' + 10)
    else none

abbrev pub is_space : ℕ → Bool
is_space c = c == b' ' || (leb 9 c && leb c 13)

abbrev pub skip_spaces : Bytes → Bytes
skip_spaces [] = []
skip_spaces (c ∷ cs) = let rest = skip_spaces cs in if is_space c then rest else c ∷ cs

-- The second character of the two that "%2x" may read, after a first digit `d`. A "0x" with no digit
-- behind it is no number.
hex_after_digit : ℕ → ℕ → Bytes → Option (ℕ × Bytes)
hex_after_digit c d [] = some (d, [])
hex_after_digit c d (e ∷ rest) = elim (hex_digit e) [
  | some d' ↦ some (16 * d + d', rest)
  | none ↦ if (c == b'0') && (e == b'x' || e == b'X') then none else some (d, e ∷ rest)
]

-- One digit after a sign; a minus negates in `unsigned`.
hex_after_sign : ℕ → Bytes → Option (ℕ × Bytes)
hex_after_sign sign [] = none
hex_after_sign sign (e ∷ rest) = elim (hex_digit e) [
  | some d ↦ some ((if sign == b'-' then u32 (2 ^ 32 - d) else d), rest)
  | none ↦ none
]

hex_field : Bytes → Option (ℕ × Bytes)
unfolding hex_after_sign hex_after_digit
hex_field [] = none
hex_field (c ∷ rest) =
    if c == b'+' || c == b'-'
    then hex_after_sign c rest
    else elim (hex_digit c) [ some d ↦ hex_after_digit c d rest | none ↦ none ]

-- `sscanf`'s "%2x", with the text that is left.
unfoldable pub scan_hex2 : Bytes → Option (ℕ × Bytes)
unfolding hex_field
scan_hex2 s = hex_field (skip_spaces s)

-- The literal ":" between two conversions.
abbrev pub scan_colon : Bytes → Option Bytes
scan_colon [] = none
scan_colon (c ∷ cs) = if c == b':' then some cs else none

-- `n` more conversions, each after a ":".
unfoldable pub scan_more : ℕ → Bytes → Option Bytes
scan_more zero s = some []
scan_more (suc n) s = elim (scan_colon s) [
  | none ↦ none
  | some s' ↦ elim (scan_hex2 s') [
    | none ↦ none
    | some (b, rest) ↦ Option.map (λ bs. u8 b ∷ bs) (scan_more n rest)
  ]
]

-- `none` is the `false` of fewer than six conversions.
unfoldable pub parse_mac_pretty : Bytes → Option Bytes
parse_mac_pretty s = elim (scan_hex2 s) [
  | none ↦ none
  | some (b, rest) ↦ Option.map (λ bs. u8 b ∷ bs) (scan_more 5 rest)
]

-- "%02X"
abbrev pub hex_char : ℕ → ℕ
hex_char d = if ltb d 10 then b'0' + d else b'A' + (d - 10)

unfoldable pub format_more : Bytes → Bytes
format_more [] = []
format_more (b ∷ bs) = b':' ∷ hex_char (b / 16) ∷ hex_char (b % 16) ∷ format_more bs

unfoldable pub format_mac : Bytes → Bytes
unfolding format_more
format_mac [] = []
format_mac (b ∷ bs) = hex_char (b / 16) ∷ hex_char (b % 16) ∷ format_more bs
