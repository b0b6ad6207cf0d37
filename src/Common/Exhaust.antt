-- ===== src/Common/Exhaust.antt =====
-- Statements about all small numbers, checked one by one by computation.
use Prim.Native.Nat.{ℕ, zero, suc, ◌+◌, ◌<◌}
use mathlib.Core.Path.{◌≡◌}
use mathlib.Core.Bool.{Bool, true}
use native.Mathlib.Omega.{arith}
use switchbot_keypad_bridge.Common.Tests.{◌==◌, if◌then◌else◌, ==_iff}

-- How many numbers below the bound do not pass a test.
unfoldable pub misses : (ℕ → Bool) → ℕ → ℕ
misses test zero = 0
misses test (suc top) = misses test top + (if test top then 0 else 1)

no_misses : (test : ℕ → Bool) (top k : ℕ) → misses test top ≡ 0 → k < top → test k ≡ true
unfolding misses
no_misses test zero k none_left below = absurd (omega arith)
no_misses test (suc top) k none_left below = ground (arith, no_misses test top k)

-- The same for the pairs below two bounds.
unfoldable pub pair_misses : (ℕ → ℕ → Bool) → ℕ → ℕ → ℕ
unfolding misses
pair_misses test n m = misses (λ a. misses (test a) m == 0) n

pub no_pair_misses :
    (test : ℕ → ℕ → Bool) (n m a b : ℕ) → pair_misses test n m ≡ 0 → a < n → b < m → test a b ≡ true
unfolding pair_misses
no_pair_misses test n m a b none_left ha hb =
    let row = no_misses (λ a. misses (test a) m == 0) n a none_left ha in
    no_misses (test a) m b ((==_iff (misses (test a) m) 0).0 row) hb
