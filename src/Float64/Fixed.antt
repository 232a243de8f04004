-- ===== src/Float64/Fixed.antt =====
-- Fixed-point numbers with nine decimals, rounded down: a value of `Float64` at which the code
-- runs, and at which the assumptions on `float64` hold.
use taxi_app.Base.{
  ap, ◌∙◌, ℕ, zero, suc, ◌+◌, ◌-◌, ◌*◌, ◌/◌, ◌≤◌, ◌<◌, ◌^◌, ◌≡◌, refl, leb→le, arith,
}
use taxi_app.Base.Int.{
  ℤ, pos, negsuc, leb_ℤ, ltb_ℤ, add_ℤ, neg_ℤ, add_ℤ_parts, ◌≤ℤ◌, pos_part, neg_part,
}
use native.Mathlib.Nat.{
  le_trans, mul-div-le, mul-le-mul_left, le-div_iff_mul-le, mul-div_cancel, mul_comm, le_of_eq,
}
use taxi_app.Float64.{Float64, IsBisectable, IsMonotone, IsComparable, ◌≼◌, midpoint}

abbrev billion : ℕ
billion = 1_000_000_000

abbrev quotient : ℤ → ℤ → ℤ
quotient (pos a) (pos (suc b)) = pos (a * billion / suc b)
quotient (negsuc a) (pos (suc b)) = negsuc ((suc a * billion - 1) / suc b)
quotient a b = pos 0

abbrev scaled : ℤ → ℤ
scaled (pos n) = pos (n * billion)
scaled (negsuc n) = negsuc (suc n * billion - 1)

instance abbrev pub fixed : Float64 ℤ
fixed = record {
  le = leb_ℤ;
  lt = ltb_ℤ;
  add = add_ℤ;
  sub = λ a b. add_ℤ a (neg_ℤ b);
  div = quotient;
  of_int = scaled;
}

halve_bounds :
    (s a b : ℤ)
    → pos_part s + neg_part a + neg_part b ≡ neg_part s + pos_part a + pos_part b
    → a ≤ℤ b
    → (a ≤ℤ quotient s (pos (2 * billion))) × (quotient s (pos (2 * billion)) ≤ℤ b)
halve_bounds (pos s) a b e h = omega arith
halve_bounds (negsuc s) a b e h = omega arith

midpoint_bounds : (a b : ℤ) → (a ≼ b) → (a ≼ midpoint a b) × (midpoint a b ≼ b)
midpoint_bounds a b h = ground (arith, halve_bounds (add_ℤ a b) a b, add_ℤ_parts a b)

scaled_mono : (a b : ℤ) → a ≤ℤ b → scaled a ≼ scaled b
scaled_mono a b h = ground arith

pub Fixed-IsBisectable : IsBisectable ℤ
Fixed-IsBisectable = record {
  of_int_mono = scaled_mono;
  le_trans = λ x y z h k. ground arith;
  lt_of_not_le = λ x y h k e. ground arith;
  lower_number = λ x y h. ground arith;
  upper_number = λ x y h. ground arith;
  number_of_lt = λ x y h. ground arith;
  le-midpoint = λ x y h k g. (midpoint_bounds x y k).0;
  midpoint-le = λ x y h k g. (midpoint_bounds x y k).1;
}

div_mono : (a b c d : ℕ) → a ≤ b → 0 < d → d ≤ c → a / c ≤ b / d
div_mono a b c d h k g = (le-div_iff_mul-le k).1 (
    le_trans (mul-le-mul_left (a / c) g)
      (le_trans (le_of_eq (mul_comm (a / c) c)) (le_trans (mul-div-le a c) h)))

quotient_mono : (a b : ℤ) (c : ℕ) → a ≤ℤ b → quotient a (pos c) ≼ quotient b (pos c)
quotient_mono (pos a) (pos b) zero h = refl
quotient_mono (pos a) (negsuc b) zero h = refl
quotient_mono (negsuc a) (pos b) zero h = refl
quotient_mono (negsuc a) (negsuc b) zero h = refl
quotient_mono (pos a) (pos b) (suc c) h =
    ground (arith, div_mono (a * billion) (b * billion) (suc c) (suc c))
quotient_mono (pos a) (negsuc b) (suc c) h = absurd (omega arith)
quotient_mono (negsuc a) (pos b) (suc c) h = ground arith
quotient_mono (negsuc a) (negsuc b) (suc c) h =
    ground (arith, div_mono (suc b * billion - 1) (suc a * billion - 1) (suc c) (suc c))

quotient_anti : (d s t : ℕ) → 0 < s → s ≤ t → quotient (pos d) (pos t) ≼ quotient (pos d) (pos s)
quotient_anti d zero t h k = absurd (omega arith)
quotient_anti d (suc s) zero h k = absurd (omega arith)
quotient_anti d (suc s) (suc t) h k =
    ground (arith, div_mono (d * billion) (d * billion) (suc t) (suc s))

quotient_pos : (a b : ℕ) → 0 < b → quotient (pos a) (pos b) ≡ pos (a * billion / b)
quotient_pos a zero h = absurd (omega arith)
quotient_pos a (suc b) h = refl

of_scaled : (a b : ℕ) → scaled (pos a) ≼ scaled (pos b) → a ≤ b
of_scaled a b h = ground arith

quotient_exact :
    (k s : ℕ) → 0 < s → quotient (scaled (pos (k * s))) (scaled (pos s)) ≡ scaled (pos k)
quotient_exact k s h =
    let e : k * s * billion * billion ≡ k * billion * (s * billion) = omega arith in
    quotient_pos _ _ (omega arith)
    ∙ ap (λ t. pos (t / (s * billion))) e
    ∙ ap pos (mul-div_cancel (k * billion) (omega arith))

sub_scaled :
    (a b : ℕ)
    → b ≤ a
    → a ≤ 2 ^ 53
    → add_ℤ (scaled (pos a)) (neg_ℤ (scaled (pos b))) ≡ scaled (pos (a - b))
unfolding add_ℤ neg_ℤ
sub_scaled a b h k = ground arith

add_scaled :
    (a b : ℕ) → a + b ≤ 2 ^ 53 → add_ℤ (scaled (pos a)) (scaled (pos b)) ≡ scaled (pos (a + b))
unfolding add_ℤ
add_scaled a b h = ground arith

pub Fixed-IsMonotone : IsMonotone ℤ
Fixed-IsMonotone = record {
  of_int_mono = scaled_mono;
  le_trans = λ x y z h k. ground arith;
  le_of_not_le = λ x y h k e. ground arith;
  le_of_not_lt = λ x y h k e. ground arith;
  le_of_lt = λ x y h. ground arith;
  le_of_whole = λ a b h k g. of_scaled a b g;
  sub_one_mono = λ x y h.
      ground
        (arith, add_ℤ_parts x (neg_ℤ (scaled (pos 1))), add_ℤ_parts y (neg_ℤ (scaled (pos 1))));
  add_one_mono =
      λ x y h. ground (arith, add_ℤ_parts (scaled (pos 1)) x, add_ℤ_parts (scaled (pos 1)) y);
  sub_whole = sub_scaled;
  add_whole = add_scaled;
  div_self = λ s h.
      ap (λ t. quotient (scaled (pos t)) (scaled (pos s))) (omega arith) ∙ quotient_exact 1 s h;
  div_exact = λ k s h g. quotient_exact k s h;
  div_mono = λ d e s h g.
      quotient_mono (scaled d) (scaled e) (s * billion) (leb→le _ _ (scaled_mono d e h));
  div_anti = λ d s t h k.
      quotient_anti (d * billion) (s * billion) (t * billion) (omega arith) (omega arith);
}

pub Fixed-IsComparable : IsComparable ℤ
Fixed-IsComparable = record {
  le_trans = λ x y z h k. ground arith;
  le_of_not_lt = λ x y h k e. ground arith;
  not_lt_of_le = λ x y h. ground arith;
  le_of_lt = λ x y h. ground arith;
}
