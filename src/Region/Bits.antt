-- ===== src/Region/Bits.antt =====
-- The five bits of a geohash letter, the first the highest, and checks over all 32 of them.
use taxi_app.Base.{◌≡◌, Bool, true, false, ◌&&◌, arith}

abbrev pub Bits : Type 0
Bits = Bool × Bool × Bool × Bool × Bool

abbrev both : (Bool → Bool) → Bool
both f = f true && f false

both_sound : (f : Bool → Bool) (b : Bool) → both f ≡ true → f b ≡ true
both_sound f true h = ground arith
both_sound f false h = ground arith

unfoldable pub all_bits : (Bits → Bool) → Bool
all_bits p = both λ b0. both λ b1. both λ b2. both λ b3. both λ b4. p (b0, b1, b2, b3, b4)

pub all_bits_sound : (p : Bits → Bool) (bits : Bits) → all_bits p ≡ true → p bits ≡ true
unfolding all_bits
all_bits_sound p (b0, b1, b2, b3, b4) h =
    both_sound (λ b. p (b0, b1, b2, b3, b)) b4
      (both_sound (λ c. both λ b. p (b0, b1, b2, c, b)) b3
        (both_sound (λ d. both λ c. both λ b. p (b0, b1, d, c, b)) b2
          (both_sound (λ e. both λ d. both λ c. both λ b. p (b0, e, d, c, b)) b1
            (both_sound (λ g. both λ e. both λ d. both λ c. both λ b. p (g, e, d, c, b)) b0 h))))
