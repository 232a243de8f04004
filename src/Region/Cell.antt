-- ===== src/Region/Cell.antt =====
-- internal/region/region.go: a decoder of geohash texts, written without regard to the encoder, and the cell that a code names.
use taxi_app.Base.{
  ℕ, zero, suc, ◌+◌, ◌/◌, ◌%◌, Char, code, String, ◌≡◌, refl, Bool, true, false, ◌&&◌, not, Option,
  none, some, arith, ◌==◌, if◌then◌else◌, ◌>>=◌,
}
use taxi_app.Float64.{Float64, IsBisectable, ◌≼◌, ◌≺◌, midpoint, minus, whole}
use taxi_app.Region.{base32, Span, bisect, geohash}
use taxi_app.Region.Bits.{Bits, all_bits, all_bits_sound}
use taxi_app.Region.Encode.{Cursor, letter, half, five, letters, skip, begin, geohash-letters}

index_of : Char → String → ℕ → Option ℕ
index_of c String.[] i = none
index_of c (String.◌∷◌ a s) i = if code a == code c then some i else index_of c s (i + 1)

-- The five bits of a letter's position in the alphabet.
bits_of : ℕ → Bits
bits_of v = (v / 16 % 2 == 1, v / 8 % 2 == 1, v / 4 % 2 == 1, v / 2 % 2 == 1, v % 2 == 1)

letter_bits : Char → Option Bits
unfolding index_of bits_of
letter_bits c = do v ← index_of c base32 0; some (bits_of v)

abbrev same : Bool → Bool → Bool
same a b = if a then b else not b

abbrev reads_as : Option Bits → Bits → Bool
reads_as none bits = false
reads_as (some (a0, a1, a2, a3, a4)) (b0, b1, b2, b3, b4) =
    same a0 b0 && (same a1 b1 && (same a2 b2 && (same a3 b3 && same a4 b4)))

reads_as_sound : (o : Option Bits) (bits : Bits) → reads_as o bits ≡ true → o ≡ some bits
reads_as_sound none bits h = cc
reads_as_sound (some (a0, a1, a2, a3, a4)) (b0, b1, b2, b3, b4) h = ground arith

letter_bits-letter : (bits : Bits) → letter_bits (letter bits) ≡ some bits
unfolding letter_bits letter all_bits
letter_bits-letter bits =
    reads_as_sound _ bits (all_bits_sound (λ b. reads_as (letter_bits (letter b)) b) bits refl)

module _ {F : Type 0} ⦃fl : Float64 F⦄ where
  half_of : Bool → Span F → Span F
  half_of upper r =
      let mid = midpoint r.lo r.hi in
      if upper then record { lo = mid; hi = r.hi } else record { lo = r.lo; hi = mid }

  -- One bit narrows the longitude, the next the latitude.
  descend : Bool → Cursor F → Cursor F
  unfolding half_of
  descend b c =
      if c.even
      then record { lat_range = c.lat_range; lng_range = half_of b c.lng_range; even = false }
      else record { lat_range = half_of b c.lat_range; lng_range = c.lng_range; even = true }

  descend_all : Bits → Cursor F → Cursor F
  descend_all (b0, b1, b2, b3, b4) c =
      descend b4 (descend b3 (descend b2 (descend b1 (descend b0 c))))

  decode_from : String → Cursor F → Option (Cursor F)
  decode_from String.[] c = some c
  decode_from (String.◌∷◌ a s) c = do bits ← letter_bits a; decode_from s (descend_all bits c)

  -- The cell of a geohash text, from the whole world down; `none` where a letter is no base 32.
  pub decode : String → Option (Cursor F)
  decode s = decode_from s begin

  module _ (lat lng : F) where
    half-descend : (c : Cursor F) → (half lat lng c).1 ≡ descend (half lat lng c).0 c
    unfolding half descend bisect
    half-descend c = ground arith

    five-descend_all : (c : Cursor F) → (five lat lng c).1 ≡ descend_all (five lat lng c).0 c
    unfolding five descend_all
    five-descend_all c =
        let c0 = (half lat lng c).1 in
        let c1 = (half lat lng c0).1 in
        let c2 = (half lat lng c1).1 in
        let c3 = (half lat lng c2).1 in
        cc (half-descend c, half-descend c0, half-descend c1, half-descend c2, half-descend c3)

    decode_from-letters :
        (n : ℕ) (c : Cursor F) → decode_from (letters lat lng n c) c ≡ some (skip lat lng n c)
    unfolding letters skip decode_from
    decode_from-letters zero c = refl
    decode_from-letters (suc n) c =
        rw (letter_bits-letter (five lat lng c).0)
          (rw (← five-descend_all c) (decode_from-letters n (five lat lng c).1))

  -- The coordinate lies in the half-open interval.
  abbrev pub InSpan : F → Span F → Type 0
  InSpan x r = (r.lo ≼ x) × (x ≺ r.hi)

  abbrev OnGlobe : Span F → Type 0
  OnGlobe r = (minus 180 ≼ r.lo) × (r.lo ≼ r.hi) × (r.hi ≼ whole 180)

  module _ (laws : IsBisectable F) (lat lng : F) where
    open laws use {
      of_int_mono, le_trans, lt_of_not_le, lower_number, upper_number, number_of_lt, le-midpoint,
      midpoint-le,
    }

    bisect_inside :
        (x : F) (r : Span F)
        → OnGlobe r
        → InSpan x r
        → OnGlobe (bisect x r).1 × InSpan x (bisect x r).1
    unfolding bisect
    bisect_inside x r g h =
        let mid = midpoint r.lo r.hi in
        ground (
          arith,
          le-midpoint r.lo r.hi,
          midpoint-le r.lo r.hi,
          upper_number r.lo mid,
          number_of_lt x r.hi,
          lt_of_not_le mid x,
          le_trans (minus 180) r.lo mid,
          le_trans mid r.hi (whole 180),
        )

    abbrev Holds : Cursor F → Type 0
    Holds c =
        OnGlobe c.lat_range × OnGlobe c.lng_range × InSpan lat c.lat_range × InSpan lng c.lng_range

    half_inside : (c : Cursor F) → Holds c → Holds (half lat lng c).1
    unfolding half
    half_inside c (g, g', h, h') =
        ground (arith, bisect_inside lat c.lat_range g h, bisect_inside lng c.lng_range g' h')

    five_inside : (c : Cursor F) → Holds c → Holds (five lat lng c).1
    unfolding five
    five_inside c h =
        let c0 = (half lat lng c).1 in
        let c1 = (half lat lng c0).1 in
        let c2 = (half lat lng c1).1 in
        let c3 = (half lat lng c2).1 in
        half_inside c3 (half_inside c2 (half_inside c1 (half_inside c0 (half_inside c h))))

    skip_inside : (n : ℕ) (c : Cursor F) → Holds c → Holds (skip lat lng n c)
    unfolding skip
    skip_inside zero c h = h
    skip_inside (suc n) c h = skip_inside n (five lat lng c).1 (five_inside c h)

    -- The geohash of a point of the globe decodes to a cell that holds the point.
    pub decode-geohash :
        (p : ℕ)
        → InSpan lat (record { lo = minus 90; hi = whole 90 })
        → InSpan lng (record { lo = minus 180; hi = whole 180 })
        → (cell : Cursor F) × (decode (geohash lat lng p) ≡ some cell)
          × InSpan lat cell.lat_range
          × InSpan lng cell.lng_range
    unfolding decode
    decode-geohash p h h' =
        let kept = skip_inside p begin (
          (
            of_int_mono _ _ (omega arith),
            of_int_mono _ _ (omega arith),
            of_int_mono _ _ (omega arith),
          ),
          (
            of_int_mono _ _ (omega arith),
            of_int_mono _ _ (omega arith),
            of_int_mono _ _ (omega arith),
          ),
          h,
          h',
        ) in
        (
          skip lat lng p begin,
          rw (geohash-letters lat lng p) (decode_from-letters lat lng p begin),
          kept.2,
          kept.3,
        )
