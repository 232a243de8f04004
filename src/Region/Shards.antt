-- ===== src/Region/Shards.antt =====
-- internal/region/region.go: the shape of the codes, and the shards that `Neighbors` names.
use Prim.Native.String
use native.Mathlib.Nat.{suc-add, zero-add}
use text.Mathlib.TextLemmas.{nil-append, cons-append}
use text.Mathlib.TextPositions.{len-append}
use taxi_app.Base.{
  ℕ, zero, suc, ◌+◌, ◌-◌, Char, code, String, len, ◌≡◌, refl, sym, ◌∙◌, ap, inl, inr, Bool-cases,
  Bool, true, false, ◌||◌, [], ◌∷◌, arith, str_eq, eq_iff, ◌==◌,
}
use taxi_app.Float64.{Float64}
use taxi_app.Region.{base32, precision, geohash, key, neighbors, dedup}
use taxi_app.Region.Bits.{Bits, all_bits, all_bits_sound}
use taxi_app.Region.Encode.{Cursor, letter, five, letters, skip, begin, geohash-letters, len-letter}

-- The character is one of the alphabet's.
abbrev among : Char → String → Bool
among c String.[] = false
among c (String.◌∷◌ a s) = code a == code c || among c s

-- Every character of the text is one of the geohash alphabet.
abbrev pub IsBase32 : String → Type 0
IsBase32 String.[] = Unit
IsBase32 (String.◌∷◌ c s) = (among c base32 ≡ true) × IsBase32 s

letter-among : (bits : Bits) → among (letter bits) base32 ≡ true
unfolding letter all_bits
letter-among bits = all_bits_sound (λ b. among (letter b) base32) bits refl

module _ {F : Type 0} ⦃fl : Float64 F⦄ (lat lng : F) where
  len-letters : (n : ℕ) (c : Cursor F) → len (letters lat lng n c) ≡ n
  unfolding letters
  len-letters zero c = refl
  len-letters (suc n) c =
      let bits = (five lat lng c).0 in
      let rest = letters lat lng n (five lat lng c).1 in
      ap len
        (sym (cons-append (letter bits) "" rest ∙ ap (String.◌∷◌ (letter bits)) (nil-append rest)))
      ∙ omega (
        arith,
        len-append (String.◌∷◌ (letter bits) "") rest,
        len-letter bits,
        len-letters n (five lat lng c).1,
      )

  letters-IsBase32 : (n : ℕ) (c : Cursor F) → IsBase32 (letters lat lng n c)
  unfolding letters
  letters-IsBase32 zero c = tt
  letters-IsBase32 (suc n) c =
      (letter-among (five lat lng c).0, letters-IsBase32 n (five lat lng c).1)

  letters-add :
      (n k : ℕ) (c : Cursor F)
      → letters lat lng (n + k) c
        ≡ String.◌++◌ (letters lat lng n c) (letters lat lng k (skip lat lng n c))
  unfolding letters skip
  letters-add zero k c = rw (zero-add, nil-append)
  letters-add (suc n) k c =
      rw (suc-add, cons-append)
        (ap (String.◌∷◌ (letter (five lat lng c).0)) (letters-add n k (five lat lng c).1))

  -- A geohash has exactly the asked number of characters, all of the alphabet, for any
  -- coordinates, NaN and infinities included.
  pub geohash_shape : (p : ℕ) → (len (geohash lat lng p) ≡ p) × IsBase32 (geohash lat lng p)
  geohash_shape p = rw (geohash-letters lat lng p) (len-letters p begin, letters-IsBase32 p begin)

  -- A coarser geohash of a point is a prefix of every finer one of the same point.
  pub geohash_prefix :
      (p q : ℕ)
      → (rest : String) × (len rest ≡ q)
        × (geohash lat lng (p + q) ≡ String.◌++◌ (geohash lat lng p) rest)
  geohash_prefix p q = (
    letters lat lng q (skip lat lng p begin),
    len-letters q _,
    rw (geohash-letters lat lng (p + q), geohash-letters lat lng p) (letters-add p q begin),
  )

  lengths_differ : ¬ (len (key lat lng) ≡ len (geohash lat lng (precision - 1)))
  unfolding key
  lengths_differ h = omega (arith, (geohash_shape precision).0, (geohash_shape (precision - 1)).0)

  pub key_ne_coarse : str_eq (key lat lng) (geohash lat lng (precision - 1)) ≡ false
  key_ne_coarse = elim (Bool-cases (str_eq (key lat lng) (geohash lat lng (precision - 1)))) [
    | inl same ↦ absurd (lengths_differ (ap len ((eq_iff _ _).0 same)))
    | inr differ ↦ differ
  ]

  pub neighbors_lem : neighbors lat lng ≡ key lat lng ∷ geohash lat lng (precision - 1) ∷ []
  unfolding neighbors dedup
  neighbors_lem = rw key_ne_coarse

  -- `Neighbors` names exactly two shards: the point's own, first, and the coarse cell whose code is
  -- the own one without its last character.
  pub neighbors_prefix :
      (coarse : String) × (last : String) × (neighbors lat lng ≡ key lat lng ∷ coarse ∷ [])
      × (len coarse ≡ 3)
      × (len last ≡ 1)
      × (key lat lng ≡ String.◌++◌ coarse last)
  unfolding key
  neighbors_prefix =
      let (last, one, split) = geohash_prefix 3 1 in
      (geohash lat lng 3, last, neighbors_lem, (geohash_shape 3).0, one, split)
