-- ===== src/Region.antt =====
-- internal/region/region.go: the geohash that shards everything by geography. Strings are ASCII, so
-- an index counts characters.
mod Bits
pub mod Encode
pub mod Cell
pub mod Shards
use taxi_app.Base.{
  ℕ, zero, suc, ◌+◌, ◌-◌, ◌^◌, bit_or, Char, String, len, Bool, true, false, not, Option, none,
  some, List, [], ◌∷◌, ◌++◌, ltb, if◌then◌else◌, ◌>>=◌, str_eq,
}
use Prim.Native.String
use taxi_app.Float64.{Float64, midpoint, minus, whole}

-- The alphabet of the standard geohash encoding.
abbrev pub base32 : String
base32 = "0123456789bcdefghjkmnpqrstuvwxyz"

abbrev pub precision : ℕ
precision = 4

-- `s[i]`; `none` is the panic of an index that is out of range
unfoldable pub byte_at : String → ℕ → Option Char
byte_at String.[] i = none
byte_at (String.◌∷◌ c s) zero = some c
byte_at (String.◌∷◌ c s) (suc i) = byte_at s i

-- Five rounds for a character.
abbrev enough : ℕ → ℕ
enough zero = zero
enough (suc n) = suc (suc (suc (suc (suc (enough n)))))

-- `ch |= 1 << (4 - bit)`, where the half is the upper one
abbrev mark : Bool → ℕ → ℕ → ℕ
mark upper bit ch = if upper then bit_or ch (2 ^ (4 - bit)) else ch

-- `latRange` or `lngRange`
pub record Span (F : Type 0) : Type 0 where
  pub lo : F
  pub hi : F

-- The local variables of `Geohash`.
pub record Encoder (F : Type 0) : Type 0 where
  pub lat_range : Span F
  pub lng_range : Span F
  pub sb : String
  pub even : Bool
  pub bit : ℕ
  pub ch : ℕ

module _ {F : Type 0} ⦃fl : Float64 F⦄ where
  -- One halving: whether the coordinate lies in the upper half, and that half.
  unfoldable pub bisect : F → Span F → Bool × Span F
  bisect x r =
      let mid = midpoint r.lo r.hi in
      if fl.le mid x then (true, record r { lo = mid }) else (false, record r { hi = mid })

  -- The loop's body up to `even = !even`, included.
  narrow : F → F → Encoder F → Encoder F
  narrow lat lng e =
      if e.even
      then (let (upper, r) = bisect lng e.lng_range in
          record e { lng_range = r; ch = mark upper e.bit e.ch; even = not e.even })
      else (let (upper, r) = bisect lat e.lat_range in
          record e { lat_range = r; ch = mark upper e.bit e.ch; even = not e.even })

  -- The rest of the body: the next bit, or the character that five bits make.
  flush : Encoder F → Option (Encoder F)
  flush e = if ltb e.bit 4 then some (record e { bit = e.bit + 1 }) else do
    c ← byte_at base32 e.ch
    some (record e { sb = String.◌++◌ e.sb (String.◌∷◌ c String.[]); bit = 0; ch = 0 })

  round : F → F → Encoder F → Option (Encoder F)
  unfolding narrow flush byte_at
  round lat lng e = flush (narrow lat lng e)

  -- `for sb.Len() < precision`, with fuel; `none` is a panic, or the fuel has run out.
  loop : ℕ → F → F → ℕ → Encoder F → Option String
  loop zero lat lng p e = if ltb (len e.sb) p then none else some e.sb
  loop (suc fuel) lat lng p e =
      let rest = (do e' ← round lat lng e; loop fuel lat lng p e') in
      if ltb (len e.sb) p then rest else some e.sb

  abbrev world_lat : Span F
  world_lat = record { lo = minus 90; hi = whole 90 }

  abbrev world_lng : Span F
  world_lng = record { lo = minus 180; hi = whole 180 }

  abbrev start : Encoder F
  start = record {
    lat_range = world_lat;
    lng_range = world_lng;
    sb = "";
    even = true;
    bit = 0;
    ch = 0;
  }

  unfoldable pub geohash_run : F → F → ℕ → Option String
  unfolding loop round bisect
  geohash_run lat lng p = loop (enough p) lat lng p start

  -- `Geohash`. The `""` stands for a run without a result.
  unfoldable pub geohash : F → F → ℕ → String
  unfolding geohash_run
  geohash lat lng p = elim (geohash_run lat lng p) [ none ↦ "" | some s ↦ s ]

  -- `Key`
  unfoldable pub key : F → F → String
  unfolding geohash
  key lat lng = geohash lat lng precision

-- The loop of `Neighbors`: the map `seen` holds the keys put out so far.
abbrev seen : String → List String → Bool
seen k [] = false
seen k (s ∷ out) = if str_eq s k then true else seen k out

dedup : List String → List String → List String
dedup [] out = out
dedup (k ∷ ks) out = dedup ks (if seen k out then out else out ++ (k ∷ []))

module _ {F : Type 0} ⦃fl : Float64 F⦄ where
  -- `Neighbors`
  unfoldable pub neighbors : F → F → List String
  unfolding dedup key
  neighbors lat lng = dedup (key lat lng ∷ geohash lat lng (precision - 1) ∷ []) []
