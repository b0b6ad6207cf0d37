-- ===== src/MacUtils/Text.antt =====
-- components/switchbot_keypad_bridge/mac_utils.cpp: the conversions between the compact and the pretty
-- form.
use switchbot_keypad_bridge.Common.{
  ℕ, zero, suc, ◌+◌, ◌≡◌, refl, sym, ap, ◌∙◌, inl, inr, Bool, true, false, [], ◌∷◌, arith, ◌==◌,
  ==_iff, Bool-cases, length, Bytes,
}
use switchbot_keypad_bridge.MacUtils.{compact_mac, join_pairs, pretty_mac}

pub compact_of_compact : (s : Bytes) → compact_mac (compact_mac s) ≡ compact_mac s
unfolding compact_mac
compact_of_compact [] = refl
compact_of_compact (c ∷ cs) = ground (arith, compact_of_compact cs)

compact-separator : (s : Bytes) → compact_mac (b':' ∷ s) ≡ compact_mac s
unfolding compact_mac
compact-separator s = refl

compact-join_pairs :
    (n : ℕ) (first : Bool) (s : Bytes)
    → length s ≡ n + n
    → compact_mac (join_pairs first s) ≡ compact_mac s
unfolding join_pairs compact_mac
compact-join_pairs zero first [] h = refl
compact-join_pairs zero first (a ∷ s) h = absurd (omega arith)
compact-join_pairs (suc n) first [] h = absurd (omega arith)
compact-join_pairs (suc n) first (a ∷ []) h = absurd (omega arith)
compact-join_pairs (suc n) true (a ∷ b ∷ s) h =
    ground (arith, compact-join_pairs n false s (omega arith))
compact-join_pairs (suc n) false (a ∷ b ∷ s) h =
    ground (arith, compact-join_pairs n false s (omega arith))

-- The compact form of the pretty form is the compact form of the text, whatever the text is.
pub compact_mac-pretty_mac : (s : Bytes) → compact_mac (pretty_mac s) ≡ compact_mac s
unfolding pretty_mac
compact_mac-pretty_mac s = elim (Bool-cases (length (compact_mac s) == 12)) [
  | inl e ↦
      rw e (compact-join_pairs 6 true (compact_mac s) ((==_iff _ _).0 e) ∙ compact_of_compact s)
  | inr e ↦ rw e
]

pretty-made :
    (t : Bytes)
    → (length (compact_mac t) == 12) ≡ true
    → pretty_mac t ≡ join_pairs true (compact_mac t)
unfolding pretty_mac
pretty-made t e = rw e

pretty-left : (t : Bytes) → (length (compact_mac t) == 12) ≡ false → pretty_mac t ≡ t
unfolding pretty_mac
pretty-left t e = rw e

-- `pretty_mac` is idempotent: a pretty text, and one that it cannot make pretty, stays as it is.
pretty_mac-pretty_mac : (s : Bytes) → pretty_mac (pretty_mac s) ≡ pretty_mac s
pretty_mac-pretty_mac s = elim (Bool-cases (length (compact_mac s) == 12)) [
  | inl e ↦
      pretty-made (pretty_mac s) (rw (compact_mac-pretty_mac s) e)
      ∙ ap (join_pairs true) (compact_mac-pretty_mac s)
      ∙ sym (pretty-made s e)
  | inr e ↦ ap pretty_mac (pretty-left s e)
]
