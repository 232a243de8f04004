-- ===== src/Float64.antt =====
-- Go's `float64`, as far as the services use it: comparisons, four operations and conversions.
-- The type and its operations are parameters; the IEEE 754 facts that a theorem relies on are
-- the fields of `IsBisectable` and `IsMonotone`.
pub mod Fixed
use taxi_app.Base.{ℕ, ◌+◌, ◌-◌, ◌*◌, ◌^◌, ◌≤◌, ◌<◌, ◌≡◌, Bool, true, false}
use taxi_app.Base.Int.{ℤ, pos, negative, ◌≤ℤ◌}

-- `x >= y` is `le y x` and `x > y` is `lt y x`; each is false where an operand is NaN.
pub record Float64 (F : Type 0) : Type 0 where
  pub le : F → F → Bool
  pub lt : F → F → Bool
  pub add : F → F → F
  pub sub : F → F → F
  pub div : F → F → F
  pub of_int : ℤ → F

module _ {F : Type 0} ⦃fl : Float64 F⦄ where
  infix 4 ◌≼◌ ◌≺◌
  abbrev pub ◌≼◌ : F → F → Type 0
  x ≼ y = fl.le x y ≡ true

  abbrev pub ◌≺◌ : F → F → Type 0
  x ≺ y = fl.lt x y ≡ true

  -- `(x + y) / 2`
  abbrev pub midpoint : F → F → F
  midpoint x y = fl.div (fl.add x y) (fl.of_int (pos 2))

  -- The literal `-n`.
  abbrev pub minus : ℕ → F
  minus n = fl.of_int (negative n)

  -- The literal `n`.
  abbrev pub whole : ℕ → F
  whole n = fl.of_int (pos n)

-- Order, and the midpoint of an interval in [-180, 180], where no sum overflows.
-- NaN is the value that is not `<=` itself.
pub record IsBisectable (F : Type 0) ⦃fl : Float64 F⦄ : Type 0 where
  pub of_int_mono : (a b : ℤ) → a ≤ℤ b → fl.of_int a ≼ fl.of_int b
  pub le_trans : (x y z : F) → x ≼ y → y ≼ z → x ≼ z
  pub lt_of_not_le : (x y : F) → x ≼ x → y ≼ y → fl.le x y ≡ false → y ≺ x
  pub lower_number : (x y : F) → x ≼ y → x ≼ x
  pub upper_number : (x y : F) → x ≼ y → y ≼ y
  pub number_of_lt : (x y : F) → x ≺ y → x ≼ x
  pub le-midpoint : (x y : F) → minus 180 ≼ x → x ≼ y → y ≼ whole 180 → x ≼ midpoint x y
  pub midpoint-le : (x y : F) → minus 180 ≼ x → x ≼ y → y ≼ whole 180 → midpoint x y ≼ y

-- Comparison of numbers; NaN is not `<=` itself.
pub record IsComparable (F : Type 0) ⦃fl : Float64 F⦄ : Type 0 where
  pub le_trans : (x y z : F) → x ≼ y → y ≼ z → x ≼ z
  pub le_of_not_lt : (x y : F) → x ≼ x → y ≼ y → fl.lt x y ≡ false → y ≼ x
  pub not_lt_of_le : (x y : F) → x ≼ y → fl.lt y x ≡ false
  pub le_of_lt : (x y : F) → x ≺ y → x ≼ y

-- Rounding keeps the order of integers, sums and quotients, and is exact on small whole results.
pub record IsMonotone (F : Type 0) ⦃fl : Float64 F⦄ : Type 0 where
  pub of_int_mono : (a b : ℤ) → a ≤ℤ b → fl.of_int a ≼ fl.of_int b
  pub le_trans : (x y z : F) → x ≼ y → y ≼ z → x ≼ z
  pub le_of_not_le : (x y : F) → x ≼ x → y ≼ y → fl.le x y ≡ false → y ≼ x
  pub le_of_not_lt : (x y : F) → x ≼ x → y ≼ y → fl.lt x y ≡ false → y ≼ x
  pub le_of_lt : (x y : F) → x ≺ y → x ≼ y
  pub le_of_whole : (a b : ℕ) → a ≤ 2 ^ 53 → b ≤ 2 ^ 53 → ◌≼◌ {F = F} (whole a) (whole b) → a ≤ b
  pub sub_one_mono : (x y : F) → x ≼ y → fl.sub x (whole 1) ≼ fl.sub y (whole 1)
  pub add_one_mono : (x y : F) → x ≼ y → fl.add (whole 1) x ≼ fl.add (whole 1) y
  pub sub_whole : (a b : ℕ) → b ≤ a → a ≤ 2 ^ 53 → fl.sub (whole a) (whole b) ≡ whole (a - b)
  pub add_whole : (a b : ℕ) → a + b ≤ 2 ^ 53 → fl.add (whole a) (whole b) ≡ whole (a + b)
  pub div_self : (s : ℕ) → 0 < s → fl.div (whole s) (whole s) ≡ whole 1
  pub div_exact : (k s : ℕ) → 0 < s → k * s ≤ 2 ^ 53 → fl.div (whole (k * s)) (whole s) ≡ whole k
  pub div_mono :
      (d e : ℤ) (s : ℕ)
      → d ≤ℤ e
      → 0 < s
      → fl.div (fl.of_int d) (whole s) ≼ fl.div (fl.of_int e) (whole s)
  pub div_anti :
      (d s t : ℕ) → 0 < s → s ≤ t → fl.div (whole d) (whole t) ≼ fl.div (whole d) (whole s)
