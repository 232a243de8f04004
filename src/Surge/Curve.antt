-- ===== src/Surge/Curve.antt =====
-- internal/surge/surge.go, `factor`: the shape of the curve, over the laws of rounded arithmetic.
use taxi_app.Base.{
  ap, ◌∙◌, subst, Bool-cases, inl, inr, ℕ, zero, suc, ◌*◌, ◌^◌, ◌≤◌, ◌<◌, ◌≡◌, true, arith,
  if◌then◌else◌,
}
use taxi_app.Base.Int.{ℤ, pos, ◌≤ℤ◌, leb_ℤ}
use taxi_app.Float64.{Float64, IsMonotone, ◌≼◌, whole}
use taxi_app.Surge.{factor, min_surge, max_surge}

module _ {F : Type 0} ⦃fl : Float64 F⦄ (laws : IsMonotone F) where
  open laws use {
    of_int_mono, le_trans, le_of_not_le, le_of_not_lt, le_of_lt, le_of_whole, sub_one_mono,
    add_one_mono, sub_whole, add_whole, div_self, div_exact, div_mono, div_anti,
  }

  abbrev pub AtMost : F → F → Type 0
  AtMost x y = x ≼ y

  abbrev ratio : ℤ → ℕ → F
  ratio d s = fl.div (fl.of_int d) (whole s)

  abbrev raised : F → F
  raised r = fl.add (whole 1) (fl.sub r (whole 1))

  raised_mono : (x y : F) → x ≼ y → raised x ≼ raised y
  raised_mono x y h = add_one_mono _ _ (sub_one_mono x y h)

  raised_one : raised (whole 1) ≡ whole 1
  raised_one =
      ap (fl.add (whole 1)) (sub_whole 1 1 (omega arith) (omega arith))
      ∙ add_whole 1 0 (omega arith)

  raised_three : raised (whole 3) ≡ whole 3
  raised_three =
      ap (fl.add (whole 1)) (sub_whole 3 1 (omega arith) (omega arith))
      ∙ add_whole 1 2 (omega arith)

  -- The curve on a positive supply, as a function of the ratio.
  curve : F → F
  curve r =
      if fl.le r (whole 1)
      then whole 1
      else if fl.lt (whole 3) (raised r)
      then whole 3
      else raised r

  factor-curve : (d : ℤ) (s : ℕ) → 0 < s → factor d (pos s) ≡ curve (ratio d s)
  unfolding factor curve
  factor-curve d s h = ground arith

  whole_mono : (m n : ℕ) → m ≤ n → ◌≼◌ {F = F} (whole m) (whole n)
  whole_mono m n h = of_int_mono (pos m) (pos n) (omega arith)

  raised_number : (x : F) → x ≼ x → raised x ≼ raised x
  raised_number x h = raised_mono x x h

  one-le-raised : (x : F) → whole 1 ≼ x → whole 1 ≼ raised x
  one-le-raised x h = subst (λ t. t ≼ raised x) raised_one (raised_mono (whole 1) x h)

  three-le-raised : (x : F) → whole 3 ≼ x → whole 3 ≼ raised x
  three-le-raised x h = subst (λ t. t ≼ raised x) raised_three (raised_mono (whole 3) x h)

  curve_bounds : (x : F) → x ≼ x → (whole 1 ≼ curve x) × (curve x ≼ whole 3)
  unfolding curve
  curve_bounds x nx = ground (
    arith,
    whole_mono 1 1,
    whole_mono 1 3,
    whole_mono 3 3,
    one-le-raised x,
    raised_number x,
    le_of_not_le x (whole 1),
    le_of_not_lt (whole 3) (raised x),
  )

  curve_mono : (x y : F) → x ≼ x → y ≼ y → x ≼ y → curve x ≼ curve y
  curve_mono x y nx ny h = elim (Bool-cases (fl.le x (whole 1))) [
    | inl low ↦ unfold curve in rw low (curve_bounds y ny).0
    | inr high ↦
        unfold curve in
        ground (
          arith,
          whole_mono 3 3,
          curve_bounds x nx,
          le_trans x y (whole 1),
          raised_mono x y,
          raised_number x,
          raised_number y,
          le_of_not_lt (whole 3) (raised x),
          le_of_not_lt (whole 3) (raised y),
          le_of_lt (whole 3) (raised x),
          le_trans (whole 3) (raised x) (raised y),
        )
  ]

  ratio_number : (d : ℤ) (s : ℕ) → 0 < s → ratio d s ≼ ratio d s
  ratio_number d s h = div_mono d d s (omega arith) h

  factor_no_supply :
      (d s : ℤ)
      → leb_ℤ s (pos 0) ≡ true
      → factor d s ≡ (if leb_ℤ d (pos 0) then whole {F = F} 1 else whole 3)
  unfolding factor
  factor_no_supply d s h = rw h

  -- The multiplier is between 1 and 3, whatever the two counters hold.
  pub factor_bounds : (d s : ℤ) → AtMost min_surge (factor d s) × AtMost (factor d s) max_surge
  factor_bounds d (pos (suc s)) =
      rw (factor-curve d (suc s) (omega arith))
        (curve_bounds _ (ratio_number d (suc s) (omega arith)))
  factor_bounds d s =
      ground (arith, factor_no_supply d s, whole_mono 1 1, whole_mono 1 3, whole_mono 3 3)

  -- There is no surge while the supply is positive and the demand at most the supply.
  factor_parity : (d : ℤ) (s : ℕ) → d ≤ℤ pos s → 0 < s → ◌≡◌ {A = F} (factor d (pos s)) min_surge
  unfolding curve
  factor_parity d s h k =
      let low : AtMost (ratio d s) (whole 1) =
        subst (AtMost (ratio d s)) (div_self s k) (div_mono d (pos s) s h k) in
      factor-curve d s k ∙ rw low

  -- More demand never lowers the multiplier.
  pub factor_mono : (d e s : ℤ) → d ≤ℤ e → AtMost (factor d s) (factor e s)
  factor_mono d e (pos (suc s)) h =
      rw (factor-curve d (suc s) (omega arith), factor-curve e (suc s) (omega arith))
        (curve_mono _ _ (ratio_number d (suc s) (omega arith))
          (ratio_number e (suc s) (omega arith)) (div_mono d e (suc s) h (omega arith)))
  factor_mono d e s h = ground (
    arith,
    factor_no_supply d s,
    factor_no_supply e s,
    whole_mono 1 1,
    whole_mono 1 3,
    whole_mono 3 3,
  )

  -- For a demand that is not negative, more supply never raises the multiplier.
  pub factor_anti : (d : ℕ) (s t : ℤ) → s ≤ℤ t → AtMost (factor (pos d) t) (factor (pos d) s)
  factor_anti d (pos (suc s)) (pos (suc t)) h =
      rw (factor-curve (pos d) (suc s) (omega arith), factor-curve (pos d) (suc t) (omega arith))
        (curve_mono _ _ (ratio_number (pos d) (suc t) (omega arith))
          (ratio_number (pos d) (suc s) (omega arith))
          (div_anti d (suc s) (suc t) (omega arith) (omega arith)))
  factor_anti zero s (pos (suc t)) h =
      rw (factor_parity (pos 0) (suc t) (omega arith) (omega arith)) (factor_bounds (pos 0) s).0
  factor_anti d s t h = ground (
    arith,
    factor_no_supply (pos d) s,
    factor_no_supply (pos d) t,
    factor_bounds (pos d) t,
    whole_mono 1 1,
    whole_mono 1 3,
    whole_mono 3 3,
  )

  -- From three times a positive supply on, the multiplier is at least the cap, where three times the
  -- supply is a number that a float64 holds exactly.
  factor_cap :
      (d : ℤ) (s : ℕ)
      → 0 < s
      → 3 * s ≤ 2 ^ 53
      → pos (3 * s) ≤ℤ d
      → AtMost max_surge (factor d (pos s))
  unfolding curve
  factor_cap d s h k g =
      let high : AtMost (whole 3) (ratio d s) =
        subst (λ t. AtMost t (ratio d s)) (div_exact 3 s h k) (div_mono (pos (3 * s)) d s g h) in
      rw (factor-curve d s h) (
        ground (
          arith,
          three-le-raised (ratio d s) high,
          whole_mono 3 3,
          le_trans (whole 3) (ratio d s) (whole 1),
          le_of_whole 3 1 (omega arith) (omega arith),
        ))
