-- ===== src/Base/Range.antt =====
-- A test of every number below a bound, by evaluation.
use Prim.Native.Nat.{ℕ, zero, suc, ◌<◌}
use mathlib.Core.Path.{◌≡◌}
use mathlib.Core.Bool.{Bool, true, ◌&&◌}
use native.Mathlib.Omega.{arith}

unfoldable pub every_below : ℕ → (ℕ → Bool) → Bool
every_below zero p = true
every_below (suc n) p = p n && every_below n p

pub every_below_at : (n : ℕ) (p : ℕ → Bool) (k : ℕ) → every_below n p ≡ true → k < n → p k ≡ true
unfolding every_below
every_below_at zero p k h lt = absurd (omega arith)
every_below_at (suc n) p k h lt = ground (arith, every_below_at n p k)
