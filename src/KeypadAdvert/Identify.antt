-- ===== src/KeypadAdvert/Identify.antt =====
-- components/switchbot_keypad_bridge/keypad_advert.cpp: `identify_keypad`.
use switchbot_keypad_bridge.Common.{
  ℕ, ◌+◌, ◌-◌, ◌≤◌, ◌<◌, ◌≡◌, refl, sym, ap, ◌∙◌, ◌≢◌, ◌↔◌, ◌⊎◌, inl, inr, true, some, [], ◌∷◌,
  ◌++◌, arith, length, get_or, take, drop, length-append, take-append-drop, length-drop,
  get_or-drop, get_or-append, Bytes,
}
use switchbot_keypad_bridge.KeypadAdvert.{
  KeypadFamily, keypad_family_str, keypad_family_from_str, low7, suffix_is, is_vision_window,
  identify_keypad, original, vision,
}

-- The four trailing bytes of a Vision or Vision Pro advertisement: an encryption bit and the model.
abbrev pub IsVisionSuffix : Bytes → Type 0
IsVisionSuffix (e ∷ b1 ∷ b2 ∷ b3 ∷ []) =
    (e ≤ 1) × (b1 ≡ 0x11) × (((b2 ≡ 0x03) × (b3 ≡ 0x78)) ⊎ ((b2 ≡ 0x51) × (b3 ≡ 0x98)))
IsVisionSuffix _ = ⊥

-- Such a suffix stands at the end of more than five bytes, or one byte before the end.
abbrev pub HasVisionSignature : Bytes → Type 0
HasVisionSignature s =
    (before suffix after : Bytes) × (s ≡ before ++ (suffix ++ after))
    × IsVisionSuffix suffix
    × (length after ≤ 1)
    × (5 < length s)

window-drop : (s : Bytes) (at : ℕ) → is_vision_window s at ≡ is_vision_window (drop at s) 0
unfolding is_vision_window suffix_is
window-drop s at = rw (
  get_or-drop at 0 s 0,
  get_or-drop at (0 + 1) s 0,
  get_or-drop at (0 + 2) s 0,
  get_or-drop at (0 + 3) s 0,
)

window_suffix :
    (q : Bytes)
    → 4 ≤ length q
    → is_vision_window q 0 ≡ true
    → (suffix after : Bytes) × (q ≡ suffix ++ after)
      × IsVisionSuffix suffix
      × (length q ≡ 4 + length after)
unfolding is_vision_window suffix_is
window_suffix (e ∷ a ∷ b ∷ c ∷ rest) n h =
    (e ∷ a ∷ b ∷ c ∷ [], rest, refl, ground arith, omega arith)
window_suffix _ n h = absurd (omega arith)

-- A window that passes the test holds such a suffix, and the converse.
signature_at :
    (s : Bytes) (at : ℕ)
    → 5 < length s
    → at + 4 ≤ length s
    → length s ≤ at + 5
    → is_vision_window s at ≡ true
    → HasVisionSignature s
signature_at s at long inside last h =
    let (suffix, after, e, v, n) =
      window_suffix (drop at s) (omega (arith, length-drop at s)) (sym (window-drop s at) ∙ h) in
    (
      take at s,
      suffix,
      after,
      sym (take-append-drop at s) ∙ ap (λ q. take at s ++ q) e,
      v,
      omega (arith, n, length-drop at s),
      long,
    )

window_of_suffix :
    (before suffix after : Bytes)
    → IsVisionSuffix suffix
    → is_vision_window (before ++ (suffix ++ after)) (length before) ≡ true
unfolding is_vision_window suffix_is
window_of_suffix before (e ∷ a ∷ b ∷ c ∷ []) after v =
    let q = e ∷ a ∷ b ∷ c ∷ after in
    rw
      (
        get_or-append 0 before q 0,
        get_or-append 1 before q 0,
        get_or-append 2 before q 0,
        get_or-append 3 before q 0,
      )
      (ground arith)
window_of_suffix before [] after v = absurd v
window_of_suffix before (e ∷ []) after v = absurd v
window_of_suffix before (e ∷ a ∷ []) after v = absurd v
window_of_suffix before (e ∷ a ∷ b ∷ []) after v = absurd v
window_of_suffix before (e ∷ a ∷ b ∷ c ∷ d ∷ r) after v = absurd v

length_suffix : (w : Bytes) → IsVisionSuffix w → length w ≡ 4
length_suffix (e ∷ a ∷ b ∷ c ∷ []) v = refl
length_suffix [] v = absurd v
length_suffix (e ∷ []) v = absurd v
length_suffix (e ∷ a ∷ []) v = absurd v
length_suffix (e ∷ a ∷ b ∷ []) v = absurd v
length_suffix (e ∷ a ∷ b ∷ c ∷ d ∷ r) v = absurd v

identify_of_window :
    (s : Bytes) (at : ℕ)
    → low7 (get_or s 0 0) ≢ 0x79
    → 5 < length s
    → is_vision_window s at ≡ true
    → (at ≡ length s - 4) ⊎ (at ≡ length s - 5)
    → identify_keypad (some s) ≡ record { is_keypad = true; family = vision }
unfolding identify_keypad
identify_of_window s at ne long w place = ground arith

identify_of_signature :
    (s : Bytes)
    → low7 (get_or s 0 0) ≢ 0x79
    → HasVisionSignature s
    → identify_keypad (some s) ≡ record { is_keypad = true; family = vision }
identify_of_signature s ne (before, suffix, after, e, v, short, long) =
    let n : length s ≡ length before + (4 + length after) =
      ap length e
      ∙ length-append before (suffix ++ after)
      ∙ omega (arith, length-append suffix after, length_suffix suffix v) in
    identify_of_window s (length before) ne long (rw e (window_of_suffix before suffix after v))
      (omega arith)

windows_of_vision :
    (s : Bytes)
    → identify_keypad (some s) ≡ record { is_keypad = true; family = vision }
    → (low7 (get_or s 0 0) ≢ 0x79)
      × (5 < length s)
      × ((is_vision_window s (length s - 4) ≡ true) ⊎ (is_vision_window s (length s - 5) ≡ true))
unfolding identify_keypad
windows_of_vision s h = ground arith

-- Advertised service data is identified as a keypad of the original family exactly when there is a
-- first byte and its low seven bits are 0x79, whatever the encryption bit above them and all that
-- follows.
identify_keypad-original_iff :
    (s : Bytes)
    → (identify_keypad (some s) ≡ record { is_keypad = true; family = original })
      ↔ ((0 < length s) × (low7 (get_or s 0 0) ≡ 0x79))
unfolding identify_keypad
identify_keypad-original_iff s = (λ h. ground arith, λ h. ground arith)

-- Advertised service data is identified as a keypad of the Vision family exactly when its first byte
-- is not that of an original keypad and a Vision or Vision Pro suffix stands at the end or one byte
-- before the end of more than five bytes.
pub identify_keypad-vision_iff :
    (s : Bytes)
    → (identify_keypad (some s) ≡ record { is_keypad = true; family = vision })
      ↔ ((low7 (get_or s 0 0) ≢ 0x79) × HasVisionSignature s)
identify_keypad-vision_iff s = (from_code, λ h. identify_of_signature s h.0 h.1)
  where
    from_code :
        identify_keypad (some s) ≡ record { is_keypad = true; family = vision }
        → (low7 (get_or s 0 0) ≢ 0x79) × HasVisionSignature s
    from_code h =
        let (ne, long, w) = windows_of_vision s h in
        elim w [
          | inl a ↦ (ne, signature_at s (length s - 4) long (omega arith) (omega arith) a)
          | inr b ↦ (ne, signature_at s (length s - 5) long (omega arith) (omega arith) b)
        ]

-- The family name that the browser is given is read back as the same family.
keypad_family_from_str-str :
    (f : KeypadFamily) → keypad_family_from_str (some (keypad_family_str f)) ≡ f
unfolding keypad_family_from_str keypad_family_str
keypad_family_from_str-str original = refl
keypad_family_from_str-str vision = refl
