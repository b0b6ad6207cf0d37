-- ===== src/KeypadPairer/Triple.antt =====
-- Rules for the jobs of components/switchbot_keypad_bridge/keypad_pairer.cpp: what holds after a job that holds
-- something before, one condition for the way on and one for an early return.
use switchbot_keypad_bridge.Common.{Option, none, some}
use switchbot_keypad_bridge.KeypadPairer.Job.{Run, Job, and_then, ◌>>=◌}

abbrev pub After : {A : Type 0} → (A → Run → Type 0) → (Run → Type 0) → Option A × Run → Type 0
After Q E (some a, s) = Q a s
After Q E (none, s) = E s

pub record Triple {A : Type 0} (P : Run → Type 0) (m : Job A) (Q : A → Run → Type 0)
    (E : Run → Type 0) : Type 0 where
  pub at : (s : Run) → P s → After Q E (m s)

module _ {A B : Type 0} {Q : A → Run → Type 0} {R : B → Run → Type 0} {E : Run → Type 0} where
  pub After-and_then :
      (r : Option A × Run) (f : A → Job B)
      → After Q E r
      → ((a : A) → Triple (Q a) (f a) R E)
      → After R E (and_then r f)
  After-and_then (some a, s) f h k = (k a).at s h
  After-and_then (none, s) f h k = h

  pub Triple-bind :
      {P : Run → Type 0} (m : Job A) (f : A → Job B)
      → Triple P m Q E
      → ((a : A) → Triple (Q a) (f a) R E)
      → Triple P (m >>= f) R E
  Triple-bind m f h k = record { at = λ s p. After-and_then (m s) f (h.at s p) k }
