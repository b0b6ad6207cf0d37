-- ===== src/Bridge/Startup/Named.antt =====
-- components/switchbot_keypad_bridge/switchbot_keypad_bridge.cpp: the name of a new keypad in the flash.
use switchbot_keypad_bridge.Common.{
  ℕ, zero, suc, ◌<◌, ◌≡◌, refl, ap, ap₂, ◌∙◌, true, false, some, [], ◌∷◌, ◌++◌, arith, ◌==◌, set,
  take, replicate, is_nil, Bytes,
}
use switchbot_keypad_bridge.Bridge.State.{publish_keypad}
use switchbot_keypad_bridge.Bridge.WebUsers.Stored.{NoNul}
use switchbot_keypad_bridge.KeypadAdvert.{KeypadFamily}
use switchbot_keypad_bridge.Bridge.WebUsers.{strncpy}
use switchbot_keypad_bridge.Bridge.Pairing.{name_buffer, info_of, adopt_pairing}
use switchbot_keypad_bridge.Bridge.Startup.{Flash, stored_name}
use switchbot_keypad_bridge.Bridge.Startup.InStep.{name_in, is_named, KeepsStep, saved-if}

-- A buffer that ends in NULs is its own text with one behind it.
strncpy-zeros : (n z : ℕ) → n < z → strncpy n [] ++ 0 ∷ [] ≡ take (suc n) (replicate z 0)
unfolding strncpy
strncpy-zeros n zero h = absurd (omega arith)
strncpy-zeros zero (suc z) h = refl
strncpy-zeros (suc n) (suc z) h = ap (0 ∷◌) (strncpy-zeros n z (omega arith))

strncpy-buffer :
    (n z : ℕ) (name : Bytes)
    → n < z
    → NoNul name
    → let buffer = take (suc n) (take n name ++ replicate z 0) in
      strncpy n (set buffer n 0) ++ 0 ∷ [] ≡ buffer
unfolding strncpy
strncpy-buffer n zero name h clean = absurd (omega arith)
strncpy-buffer zero (suc z) name h clean = refl
strncpy-buffer (suc n) (suc z) [] h clean = ap (0 ∷◌) (strncpy-zeros n z (omega arith))
strncpy-buffer (suc n) (suc z) (c ∷ name) h clean =
    let nonzero : (c == 0) ≡ false = ground (arith, clean.0) in
    rw nonzero (ap (c ∷◌) (strncpy-buffer n (suc z) name (omega arith) clean.1))

-- A name that is not empty and holds no NUL.
pub record IsName (name : Bytes) : Type 0 where
  pub some_text : is_nil name ≡ false
  pub clean : NoNul name

name_in-buffer :
    (name : Bytes)
    → IsName name
    → (name_in (stored_name (some (name_buffer name))) ≡ name_buffer name)
      × (is_named (stored_name (some (name_buffer name))) ≡ true)
unfolding stored_name name_buffer
name_in-buffer [] h = absurd (cc h.some_text)
name_in-buffer (c ∷ name) h =
    let nonzero : (c == 0) ≡ false = ground (arith, h.clean.0) in
    rw nonzero (strncpy-buffer 47 48 (c ∷ name) (omega arith) h.clean, refl)

pub adopt_pairing-KeepsStep :
    (now : ℕ) (name mac : Bytes) (family : KeypadFamily)
    → IsName name
    → KeepsStep (adopt_pairing now name mac family)
unfolding adopt_pairing
adopt_pairing-KeepsStep now name mac family named = record {
  at = λ f s h.
      let kept : Flash = record f {
        name = some (name_buffer name);
        info = some (info_of mac family);
      } in
      let (text_back, found) = name_in-buffer name named in
      saved-if s.wiring.keypad_text (publish_keypad name) kept refl
      ∙ ap₂ (λ n b. (f.key, n, b, info_of mac family)) text_back found
      ∙ ap (λ t. (t.0, name_buffer name, true, info_of mac family)) h;
}
