-- ===== src/Prelude/Ranges.antt =====
-- A test on each index of a small array, by evaluation.
use Prim.Native.Nat.{ℕ, zero, suc, ◌<◌}
use mathlib.Core.Path.{◌≡◌}
use mathlib.Core.Bool.{Bool, true, ◌&&◌}
use native.Mathlib.Omega.{arith}

unfoldable pub each_index : (ℕ → Bool) → ℕ → Bool
each_index test zero = true
each_index test (suc last) = each_index test last && test last

pub each_index-true :
    (test : ℕ → Bool) (size i : ℕ) → i < size → each_index test size ≡ true → test i ≡ true
unfolding each_index
each_index-true test zero i inside all = absurd (omega arith)
each_index-true test (suc last) i inside all = ground (arith, each_index-true test last i)
