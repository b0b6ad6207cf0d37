-- ===== src/MacUtils/RoundTrip.antt =====
-- components/switchbot_keypad_bridge/mac_utils.cpp: `parse_mac_pretty` after the printed form.
use switchbot_keypad_bridge.Common.{
  ℕ, ◌/◌, ◌%◌, ◌<◌, ◌≡◌, refl, some, [], ◌∷◌, ◌++◌, arith, length, All, Bytes, IsByte,
}
use switchbot_keypad_bridge.MacUtils.{
  hex_digit, scan_hex2, scan_more, parse_mac_pretty, hex_char, format_more, format_mac,
}

hex_digit-hex_char : (d : ℕ) → d < 16 → hex_digit (hex_char d) ≡ some d
unfolding hex_digit
hex_digit-hex_char d h = ground arith

scan_hex2-format :
    (b : ℕ) (rest : Bytes)
    → IsByte b
    → scan_hex2 (hex_char (b / 16) ∷ hex_char (b % 16) ∷ rest) ≡ some (b, rest)
unfolding scan_hex2
scan_hex2-format b rest h = ground (arith, hex_digit-hex_char (b / 16), hex_digit-hex_char (b % 16))

scan_more-format :
    (bs rest : Bytes) → All IsByte bs → scan_more (length bs) (format_more bs ++ rest) ≡ some bs
unfolding scan_more format_more
scan_more-format [] rest h = refl
scan_more-format (b ∷ bs) rest h =
    ground (arith, scan_hex2-format b (format_more bs ++ rest) h.0, scan_more-format bs rest h.1)

-- Parsing a printed address gives the six bytes back, whatever text follows.
pub parse_mac_pretty-format_mac :
    (mac rest : Bytes)
    → length mac ≡ 6
    → All IsByte mac
    → parse_mac_pretty (format_mac mac ++ rest) ≡ some mac
unfolding parse_mac_pretty format_mac
parse_mac_pretty-format_mac [] rest n h = absurd (omega arith)
parse_mac_pretty-format_mac (b ∷ bs) rest n h =
    let five : length bs ≡ 5 = omega arith in
    let tail : scan_more 5 (format_more bs ++ rest) ≡ some bs =
      rw (← five) (scan_more-format bs rest h.1) in
    ground (arith, scan_hex2-format b (format_more bs ++ rest) h.0, tail)
