-- ===== src/Prelude/Counting.antt =====
-- How many numbers below a bound pass a test.
use Prim.Native.Nat.{ℕ, zero, suc, ◌+◌, ◌-◌, ◌<◌, min}
use mathlib.Core.Path.{◌≡◌}
use mathlib.Core.Bool.{Bool, true, false, ◌&&◌}
use native.Mathlib.Omega.{arith}
use ripcord.Prelude.Tests.{ltb, leb}

abbrev step_count : Bool → ℕ
step_count true = 1
step_count false = 0

unfoldable pub count_below : ℕ → (ℕ → Bool) → ℕ
count_below zero p = 0
count_below (suc n) p = count_below n p + step_count (p n)

interval_step :
    (n lo hi : ℕ) → (min n hi - lo) + step_count (leb lo n && ltb n hi) ≡ min (suc n) hi - lo
interval_step n lo hi = ground arith

-- A test that holds exactly from `lo` on and below `hi`.
pub count_below_interval :
    (n lo hi : ℕ) (p : ℕ → Bool)
    → ((b : ℕ) → b < n → p b ≡ (leb lo b && ltb b hi))
    → count_below n p ≡ min n hi - lo
unfolding count_below
count_below_interval zero lo hi p h = omega arith
count_below_interval (suc n) lo hi p h =
    rw (h n (omega arith), count_below_interval n lo hi p (λ b l. h b (omega arith)))
      (interval_step n lo hi)
