-- ===== src/AesCtr/Tests.antt =====
-- Tests of components/switchbot_keypad_bridge/aes_ctr.cpp.
use switchbot_keypad_bridge.Common.{◌≡◌, refl, some, [], ◌∷◌, arith, length, replicate, Bytes}
use switchbot_keypad_bridge.AesCtr.{aes_ctr_xcrypt}
use switchbot_keypad_bridge.AesCtr.Laws.{aes_ctr_xcrypt-usable, aes_ctr_xcrypt-involutive}
use switchbot_keypad_bridge.AesCtr.Toy.{toy_psa, toy_documented}

abbrev toy_plain : Bytes
toy_plain = 0x09 ∷ 0x02 ∷ []

abbrev toy_cipher : Bytes
toy_cipher = 0x0E ∷ 0x05 ∷ []

aes_ctr_xcrypt-involutive_example :
    (length toy_cipher ≡ length toy_plain)
    × (aes_ctr_xcrypt toy_psa 7 (replicate 16 0) toy_cipher ≡ some toy_plain)
aes_ctr_xcrypt-involutive_example =
    aes_ctr_xcrypt-involutive toy_psa toy_documented 7 (replicate 16 0) toy_plain toy_cipher refl
      (omega arith)
      (aes_ctr_xcrypt-usable toy_psa toy_documented 7 (replicate 16 0) toy_plain refl refl)
