-- ===== src/Geo.antt =====
-- internal/geo/geo.go: driver locations in Redis.
pub mod Shards
pub mod Presence
pub mod Members
pub mod Steady
pub mod Present
pub mod Reference
use Prim.Native.String
use taxi_app.Base.{
  ℕ, zero, suc, ◌*◌, String, Bool, true, false, Option, none, some, List, [], ◌∷◌, ◌++◌,
  if◌then◌else◌, ltb, length, take, ◌≡◌, ◌⊎◌, inl, inr, refl,
}
use taxi_app.Base.Int.{ℤ, pos, ltb_ℤ}
use taxi_app.Float64.{Float64}
use taxi_app.Models.{LocationUpdate, Candidate}
use taxi_app.Region
use taxi_app.Infra.{
  Env, Command, geo_add, h_set, expire, z_rem, del, Reply, reply, missing, failed, GeoLocation,
  GeoQuery,
}

-- `freshTTL`, in seconds
abbrev fresh_ttl : ℕ
fresh_ttl = 15

unfoldable pub geo_key : String → String
geo_key reg = String.◌++◌ "geo:drivers:" reg

unfoldable pub driver_key : String → String
driver_key id = String.◌++◌ "driver:" id

-- Either an error, or a value.
pub data Result {ℓ} (A : Type ℓ) : Type ℓ where
  ok : A → Result A
  err : String → Result A

pub Result-cases {ℓ} :
    {A : Type ℓ} (r : Result A) → ((a : A) × (r ≡ ok a)) ⊎ ((e : String) × (r ≡ err e))
Result-cases (ok a) = inl (a, refl)
Result-cases (err e) = inr (e, refl)

-- The query of each search; the count over-fetches.
abbrev pub query : {F : Type 0} → F → F → F → ℕ → GeoQuery F
query lat lng radius limit = record {
  longitude = lng;
  latitude = lat;
  radius = radius;
  count = limit * 3;
}

module _ {F : Type 0} ⦃fl : Float64 F⦄ (env : Env F) where
  open env use {redis, sort_slice}

  -- `Remove`
  unfoldable pub remove : String → String → redis.Db → Option String × redis.Db
  remove driver_id reg =
      redis.tx_exec (z_rem (geo_key reg) driver_id ∷ del (driver_key driver_id) ∷ [])

  -- `Upsert`
  unfoldable pub upsert : LocationUpdate F → redis.Db → Option String × redis.Db
  unfolding remove
  upsert u =
      let reg = Region.key u.lat u.lng in
      if u.available
      then redis.tx_exec (
          geo_add (geo_key reg) u.driver_id u.lng u.lat
          ∷ h_set (driver_key u.driver_id) reg u.lat u.lng u.timestamp
          ∷ expire (driver_key u.driver_id) fresh_ttl
          ∷ [])
      else remove u.driver_id reg

  -- The number that a failed call leaves is 0.
  abbrev number : Reply ℤ → ℤ
  number (reply n) = n
  number _ = pos 0

  unfoldable pub fresh : String → redis.Db → Bool × redis.Db
  fresh driver_id db =
      let (r, db') = redis.exists (driver_key driver_id) db in (ltb_ℤ (pos 0) (number r), db')

  unfoldable pub candidate : GeoLocation F → Candidate F
  candidate l = record {
    driver_id = l.name;
    lat = l.latitude;
    lng = l.longitude;
    distance_km = l.dist;
  }

  -- The inner loop of `Nearest`.
  unfoldable pub keep_fresh :
      String → List (GeoLocation F) → List (Candidate F) → redis.Db → List (Candidate F) × redis.Db
  keep_fresh key [] all db = (all, db)
  keep_fresh key (l ∷ locs) all db =
      let (is_fresh, db') = fresh l.name db in
      keep_fresh key locs (if is_fresh then all ++ (candidate l ∷ []) else all)
        (if is_fresh then db' else redis.zrem key l.name db')

  -- `redis.Nil` is no error, and comes with no locations.
  abbrev pub located : Reply (List (GeoLocation F)) → Result (List (GeoLocation F))
  located (reply locs) = ok locs
  located missing = ok []
  located (failed e) = err e

  -- The outer loop of `Nearest`.
  unfoldable pub search_all :
      GeoQuery F
      → List String
      → List (Candidate F)
      → redis.Db
      → Result (List (Candidate F)) × redis.Db
  unfolding keep_fresh fresh candidate
  search_all q [] all db = (ok all, db)
  search_all q (reg ∷ regs) all db =
      let (r, db') = redis.geo_search (geo_key reg) q db in
      let kept = λ (locs : List (GeoLocation F)). keep_fresh (geo_key reg) locs all db' in
      elim (located r) [
        | err e ↦ (err e, db')
        | ok locs ↦ search_all q regs (kept locs).0 (kept locs).1
      ]

  abbrev pub closer : Candidate F → Candidate F → Bool
  closer a b = fl.lt a.distance_km b.distance_km

  abbrev pub ranked : ℕ → List (Candidate F) → List (Candidate F)
  ranked limit all =
      let sorted = sort_slice closer all in
      if ltb limit (length sorted) then take limit sorted else sorted

  abbrev pub rank_result : ℕ → Result (List (Candidate F)) → Result (List (Candidate F))
  rank_result limit (err e) = err e
  rank_result limit (ok all) = ok (ranked limit all)

  -- `Nearest`
  unfoldable pub nearest : F → F → F → ℕ → redis.Db → Result (List (Candidate F)) × redis.Db
  unfolding search_all
  nearest lat lng radius limit db =
      let (r, db') = search_all (query lat lng radius limit) (Region.neighbors lat lng) [] db in
      (rank_result limit r, db')

  -- `Supply`
  unfoldable pub supply : F → F → redis.Db → ℤ × redis.Db
  supply lat lng db =
      let (r, db') = redis.zcard (geo_key (Region.key lat lng)) db in (number r, db')
