-- ===== src/Region/Encode.antt =====
-- internal/region/region.go: the loop of `Geohash` against a description of it that goes character by character.
use Prim.Native.String
use text.Mathlib.TextLemmas.{
  append_assoc as str_assoc, append-nil as str_append_nil, nil-append, cons-append,
}
use text.Mathlib.TextPositions.{len-append}
use taxi_app.Base.{
  ℕ, zero, suc, ◌+◌, Char, String, len, ◌≡◌, refl, ◌∙◌, ap, Bool, true, not, none, some, ltb,
  if◌then◌else◌, arith, lt→ltb, ==_iff, ◌==◌,
}
use taxi_app.Float64.{Float64}
use taxi_app.Region.Bits.{Bits, all_bits, all_bits_sound}
use taxi_app.Region.{
  base32, byte_at, mark, Span, Encoder, bisect, round, loop, enough, world_lat, world_lng,
  geohash_run, geohash,
}

-- The intervals, and which of them is next.
pub record Cursor (F : Type 0) : Type 0 where
  pub lat_range : Span F
  pub lng_range : Span F
  pub even : Bool

abbrev bit_value : Bool → ℕ → ℕ
bit_value b n = if b then n else 0

unfoldable pub value : Bits → ℕ
value (b0, b1, b2, b3, b4) =
    bit_value b0 16 + bit_value b1 8 + bit_value b2 4 + bit_value b3 2 + bit_value b4 1

unfoldable pub letter : Bits → Char
unfolding value byte_at
letter bits = elim (byte_at base32 (value bits)) [ none ↦ "0" | some c ↦ c ]

-- The character that the loop has when five bits are in.
flush_letter :
    (b0 b1 b2 b3 b4 : Bool)
    → byte_at base32 (mark b4 4 (mark b3 3 (mark b2 2 (mark b1 1 (mark b0 0 0)))))
      ≡ some (letter (b0, b1, b2, b3, b4))
unfolding letter
flush_letter b0 b1 b2 b3 b4 = ground arith

pub len-letter : (bits : Bits) → len (String.◌∷◌ (letter bits) "") ≡ 1
unfolding letter all_bits
len-letter bits =
    (==_iff _ 1).0 (all_bits_sound (λ b. len (String.◌∷◌ (letter b) "") == 1) bits refl)

module _ {F : Type 0} ⦃fl : Float64 F⦄ (lat lng : F) where
  unfoldable pub half : Cursor F → Bool × Cursor F
  half c =
      if c.even
      then (let (b, r) = bisect lng c.lng_range in
          (b, record c { lng_range = r; even = not c.even }))
      else (let (b, r) = bisect lat c.lat_range in
          (b, record c { lat_range = r; even = not c.even }))

  unfoldable pub five : Cursor F → Bits × Cursor F
  unfolding half
  five c =
      let (b0, c0) = half c in
      let (b1, c1) = half c0 in
      let (b2, c2) = half c1 in
      let (b3, c3) = half c2 in let (b4, c4) = half c3 in ((b0, b1, b2, b3, b4), c4)

  unfoldable pub letters : ℕ → Cursor F → String
  letters zero c = ""
  letters (suc n) c = let (bits, c') = five c in String.◌∷◌ (letter bits) (letters n c')

  -- The cursor after `n` letters.
  unfoldable pub skip : ℕ → Cursor F → Cursor F
  skip zero c = c
  skip (suc n) c = skip n (five c).1

  abbrev at_bit : Cursor F → String → ℕ → ℕ → Encoder F
  at_bit c s bit ch = record {
    lat_range = c.lat_range;
    lng_range = c.lng_range;
    sb = s;
    even = c.even;
    bit = bit;
    ch = ch;
  }

  loop_early :
      (f p : ℕ) (c : Cursor F) (s : String) (bit ch : ℕ)
      → ltb (len s) p ≡ true
      → ltb bit 4 ≡ true
      → loop (suc f) lat lng p (at_bit c s bit ch)
        ≡ loop f lat lng p (at_bit (half c).1 s (bit + 1) (mark (half c).0 bit ch))
  unfolding loop round half
  loop_early f p c s bit ch h k = ground arith

  loop_last :
      (f p : ℕ) (c : Cursor F) (s : String) (ch : ℕ) (a : Char)
      → ltb (len s) p ≡ true
      → byte_at base32 (mark (half c).0 4 ch) ≡ some a
      → loop (suc f) lat lng p (at_bit c s 4 ch)
        ≡ loop f lat lng p (at_bit (half c).1 (String.◌++◌ s (String.◌∷◌ a "")) 0 0)
  unfolding loop round half
  loop_last f p c s ch a h k = ground arith

  five_rounds :
      (f p : ℕ) (c : Cursor F) (s : String)
      → ltb (len s) p ≡ true
      → loop (suc (suc (suc (suc (suc f))))) lat lng p (at_bit c s 0 0)
        ≡ loop f lat lng p
            (at_bit (five c).1 (String.◌++◌ s (String.◌∷◌ (letter (five c).0) "")) 0 0)
  unfolding five
  five_rounds f p c s h =
      let c0 = (half c).1 in
      let c1 = (half c0).1 in
      let c2 = (half c1).1 in
      let c3 = (half c2).1 in
      loop_early _ p c s 0 0 h refl
      ∙ loop_early _ p c0 s 1 _ h refl
      ∙ loop_early _ p c1 s 2 _ h refl
      ∙ loop_early _ p c2 s 3 _ h refl
      ∙ loop_last f p c3 s _ _ h
          (flush_letter (half c).0 (half c0).0 (half c1).0 (half c2).0 (half c3).0)

  loop-letters :
      (n p : ℕ) (c : Cursor F) (s : String)
      → len s + n ≡ p
      → loop (enough n) lat lng p (at_bit c s 0 0) ≡ some (String.◌++◌ s (letters n c))
  unfolding letters
  loop-letters zero p c s h = unfold loop in rw str_append_nil (ground (arith, h))
  loop-letters (suc n) p c s h =
      let a = letter (five c).0 in
      five_rounds (enough n) p c s (lt→ltb _ _ (omega arith))
      ∙ loop-letters n p (five c).1 (String.◌++◌ s (String.◌∷◌ a ""))
          (omega (arith, len-append s (String.◌∷◌ a ""), len-letter (five c).0))
      ∙ ap some
          (str_assoc s (String.◌∷◌ a "") (letters n (five c).1) ∙ rw cons-append (rw nil-append))

-- The cursor at the start of `Geohash`.
abbrev pub begin : {F : Type 0} ⦃fl : Float64 F⦄ → Cursor F
begin = record { lat_range = world_lat; lng_range = world_lng; even = true }

module _ {F : Type 0} ⦃fl : Float64 F⦄ (lat lng : F) where
  -- `geohash_run` is never out of fuel and never indexes out of range: the code is one letter for
  -- each five halvings.
  pub geohash_run_total : (p : ℕ) → geohash_run lat lng p ≡ some (letters lat lng p begin)
  unfolding geohash_run
  geohash_run_total p = loop-letters lat lng p p begin "" (omega arith) ∙ ap some (nil-append _)

  pub geohash-letters : (p : ℕ) → geohash lat lng p ≡ letters lat lng p begin
  unfolding geohash
  geohash-letters p = rw (geohash, geohash_run_total p)
