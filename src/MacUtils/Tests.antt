-- ===== src/MacUtils/Tests.antt =====
-- Tests of components/switchbot_keypad_bridge/mac_utils.cpp.
use switchbot_keypad_bridge.Common.{◌≡◌, refl, some, [], ◌∷◌, ◌++◌, arith, Bytes}
use switchbot_keypad_bridge.MacUtils.{parse_mac_pretty, format_mac}
use switchbot_keypad_bridge.MacUtils.RoundTrip.{parse_mac_pretty-format_mac}

abbrev some_mac : Bytes
some_mac = 0xB0 ∷ 0xE9 ∷ 0xFE ∷ 0x01 ∷ 0x02 ∷ 0x0A ∷ []

parse_mac_pretty-format_mac_example : parse_mac_pretty (format_mac some_mac ++ []) ≡ some some_mac
parse_mac_pretty-format_mac_example = parse_mac_pretty-format_mac some_mac [] refl (omega arith)
