-- ===== src/KeypadAdvert/Tests.antt =====
-- Tests of components/switchbot_keypad_bridge/keypad_advert.cpp on captured advertisements.
use switchbot_keypad_bridge.Common.{◌≡◌, ◌≢◌, ◌↔◌, true, some, [], ◌∷◌, get_or, Bytes}
use switchbot_keypad_bridge.KeypadAdvert.{low7, identify_keypad, vision}
use switchbot_keypad_bridge.KeypadAdvert.Identify.{HasVisionSignature, identify_keypad-vision_iff}

-- A Vision keypad with 85 percent, tampered with, and motion in front of it.
abbrev vision_mfr : Bytes
vision_mfr = 0x69 ∷ 0x09 ∷ 1 ∷ 2 ∷ 3 ∷ 4 ∷ 5 ∷ 6 ∷ 7 ∷ 0x55 ∷ 0x02 ∷ 0 ∷ 0 ∷ 0 ∷ 0 ∷ 0x02 ∷ []

abbrev vision_svc : Bytes
vision_svc = 0x00 ∷ 0x20 ∷ 0x55 ∷ 0x00 ∷ 0x11 ∷ 0x03 ∷ 0x78 ∷ []

identify_keypad-vision_iff_example :
    (identify_keypad (some vision_svc) ≡ record { is_keypad = true; family = vision })
    ↔ ((low7 (get_or vision_svc 0 0) ≢ 0x79) × HasVisionSignature vision_svc)
identify_keypad-vision_iff_example = identify_keypad-vision_iff vision_svc
