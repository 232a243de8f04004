-- ===== src/Checks/SurgeRuns.antt =====
-- internal/surge/surge_test.go, and the theorems about the curve at such counts.
use taxi_app.Base.{◌≡◌, refl, arith}
use taxi_app.Base.Int.{ℤ, pos, add_ℤ, neg_ℤ}
use taxi_app.Float64.Fixed.{fixed, Fixed-IsMonotone}
use taxi_app.Surge.{factor, min_surge, max_surge}
use taxi_app.Surge.Curve.{AtMost, factor_bounds, factor_mono, factor_anti}

abbrev Tested : ℤ → ℤ → ℤ → Type 0
Tested demand supply want = factor demand supply ≡ want

test_factor :
    Tested (pos 5) (pos 10) min_surge
    × Tested (pos 10) (pos 10) min_surge
    × Tested (pos 15) (pos 10) (pos 1_500_000_000)
    × Tested (pos 1000) (pos 10) max_surge
    × Tested (pos 3) (pos 0) max_surge
    × Tested (pos 0) (pos 0) min_surge
unfolding factor add_ℤ neg_ℤ
test_factor = (refl, refl, refl, refl, refl, refl)

factor_bounds_example :
    AtMost Fixed-IsMonotone min_surge (factor (pos 15) (pos 10))
    × AtMost Fixed-IsMonotone (factor (pos 15) (pos 10)) max_surge
factor_bounds_example = factor_bounds Fixed-IsMonotone (pos 15) (pos 10)

factor_mono_example : AtMost Fixed-IsMonotone (factor (pos 12) (pos 10)) (factor (pos 15) (pos 10))
factor_mono_example = factor_mono Fixed-IsMonotone (pos 12) (pos 15) (pos 10) (omega arith)

factor_anti_example : AtMost Fixed-IsMonotone (factor (pos 15) (pos 12)) (factor (pos 15) (pos 10))
factor_anti_example = factor_anti Fixed-IsMonotone 15 (pos 10) (pos 12) (omega arith)
