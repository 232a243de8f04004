-- ===== src/Geo/Present.antt =====
-- internal/geo/geo.go, `Nearest`: what its searches find, as a definition without a loop.
use taxi_app.Base.{
  String, List, [], ◌∷◌, ◌++◌, ◌≡◌, ◌≢◌, refl, sym, ◌∙◌, ap, All, inl, inr, Bool-cases,
  if◌then◌else◌, append-nil, append_assoc, eq_iff,
}
use taxi_app.Float64.{Float64}
use taxi_app.Models.{Candidate}
use taxi_app.Region
use taxi_app.Region.Shards as Shards
use taxi_app.Infra.{Env, GeoLocation, GeoQuery}
use taxi_app.Infra.Answers.{IsAnswering}
use taxi_app.Infra.Evictions.{IsEvicting}
use taxi_app.Geo.{geo_key, driver_key, ok, fresh, candidate, keep_fresh, search_all}
use taxi_app.Geo.Shards.{geo_key-injective}
use taxi_app.Geo.Steady.{fresh-alive}

module _ {F : Type 0} ⦃fl : Float64 F⦄ (env : Env F) (laws : IsAnswering env.redis)
    (evicting : IsEvicting env.redis laws) where
  open env use {redis}
  open laws use {alive, found}

  -- Those among the locations whose metadata has not expired, as candidates.
  unfoldable pub live_only : redis.Db → List (GeoLocation F) → List (Candidate F)
  live_only db [] = []
  live_only db (l ∷ ls) =
      let rest = live_only db ls in
      if alive db (driver_key l.name)
      then record { driver_id = l.name; lat = l.latitude; lng = l.longitude; distance_km = l.dist }
        ∷ rest
      else rest

  -- What a search of one shard gives.
  unfoldable pub present : redis.Db → GeoQuery F → String → List (Candidate F)
  present db q reg = live_only db (found db (geo_key reg) q)

  -- The metadata is as it was, and so are the geo sets of some regions.
  record Untouched (first : redis.Db) (regs : List String) (db : redis.Db) : Type 0 where
    same_alive : (d : String) → alive db (driver_key d) ≡ alive first (driver_key d)
    same_found :
        All (λ r. (q : GeoQuery F) → found db (geo_key r) q ≡ found first (geo_key r) q) regs

  -- A step that changes no metadata, and none of the geo sets of some regions.
  Untouched-step :
      (first : redis.Db) (regs : List String) (db after : redis.Db)
      → ((d : String) → alive after (driver_key d) ≡ alive db (driver_key d))
      → All (λ r. (q : GeoQuery F) → found after (geo_key r) q ≡ found db (geo_key r) q) regs
      → Untouched first regs db
      → Untouched first regs after
  Untouched-step first regs db after same steady h = record {
    same_alive = λ d. same d ∙ h.same_alive d;
    same_found = joined regs steady h.same_found;
  }
    where
      joined :
          (rs : List String)
          → All (λ r. (q : GeoQuery F) → found after (geo_key r) q ≡ found db (geo_key r) q) rs
          → All (λ r. (q : GeoQuery F) → found db (geo_key r) q ≡ found first (geo_key r) q) rs
          → All (λ r. (q : GeoQuery F) → found after (geo_key r) q ≡ found first (geo_key r) q) rs
      joined [] a b = tt
      joined (r ∷ rs) a b = ((λ q. a.0 q ∙ b.0 q), joined rs a.1 b.1)

  -- A property of every region.
  All-each : (P : String → Type 0) (regs : List String) → ((r : String) → P r) → All P regs
  All-each P [] h = tt
  All-each P (r ∷ rs) h = (h r, All-each P rs h)

  Apart : String → List String → Type 0
  Apart k regs = All (λ r. k ≢ geo_key r) regs

  zrem-Untouched :
      (first : redis.Db) (regs : List String) (k name : String) (db : redis.Db)
      → Apart k regs
      → Untouched first regs db
      → Untouched first regs (redis.zrem k name db)
  unfolding Apart
  zrem-Untouched first regs k name db apart h =
      Untouched-step first regs db (redis.zrem k name db)
        (λ d. evicting.zrem_alive k name (driver_key d) db) (kept regs apart) h
    where
      kept :
          (rs : List String)
          → All (λ r. k ≢ geo_key r) rs
          → All
              (λ r.
                (q : GeoQuery F)
                → found (redis.zrem k name db) (geo_key r) q ≡ found db (geo_key r) q)
              rs
      kept [] a = tt
      kept (r ∷ rs) a = ((λ q. evicting.zrem_found k name (geo_key r) q db a.0), kept rs a.1)

  fresh-Untouched :
      (first : redis.Db) (regs : List String) (name : String) (db : redis.Db)
      → Untouched first regs db
      → Untouched first regs (fresh env name db).1
  unfolding fresh
  fresh-Untouched first regs name db h =
      Untouched-step first regs db _ (λ d. laws.exists_alive _ _ db)
        (All-each _ regs λ r q. laws.exists_found _ _ q db) h

  keep_fresh-live_only :
      (first : redis.Db) (regs : List String) (k : String) (locs : List (GeoLocation F))
      (all : List (Candidate F)) (db : redis.Db)
      → Apart k regs
      → Untouched first regs db
      → ((keep_fresh env k locs all db).0 ≡ all ++ live_only first locs)
        × Untouched first regs (keep_fresh env k locs all db).1
  unfolding keep_fresh live_only candidate
  keep_fresh-live_only first regs k [] all db apart h = (sym (append-nil all), h)
  keep_fresh-live_only first regs k (l ∷ locs) all db apart h =
      let asked = (fresh env l.name db).1 in
      let after = fresh-Untouched first regs l.name db h in
      let here : (fresh env l.name db).0 ≡ alive first (driver_key l.name) =
        fresh-alive env laws l.name db ∙ h.same_alive l.name in
      elim (Bool-cases (alive first (driver_key l.name))) [
        | inl on ↦
            let (rest, later) =
              keep_fresh-live_only first regs k locs (all ++ (candidate env l ∷ [])) asked apart
                after in
            rw (here ∙ on, keep_fresh)
              (rw (on, live_only)
                (rest ∙ append_assoc all (candidate env l ∷ []) (live_only first locs), later))
        | inr off ↦
            rw (here ∙ off, keep_fresh)
              (rw (off, live_only)
                (keep_fresh-live_only first regs k locs all (redis.zrem k l.name asked) apart
                  (zrem-Untouched first regs k l.name asked apart after)))
      ]

  -- No two of the regions have the same geo set.
  Distinct : List String → Type 0
  Distinct [] = Unit
  Distinct (r ∷ rs) = Apart (geo_key r) rs × Distinct rs

  all_present : redis.Db → GeoQuery F → List String → List (Candidate F)
  all_present db q [] = []
  all_present db q (r ∷ rs) = present db q r ++ all_present db q rs

  search_all-present :
      (first : redis.Db) (q : GeoQuery F) (regs : List String) (all : List (Candidate F))
      (db : redis.Db)
      → Distinct regs
      → Untouched first regs db
      → (search_all env q regs all db).0 ≡ ok (all ++ all_present first q regs)
  unfolding search_all all_present present Distinct
  search_all-present first q [] all db apart h = ap ok (sym (append-nil all))
  search_all-present first q (r ∷ rs) all db apart h =
      let k = geo_key r in
      let locs = found db k q in
      let asked = (redis.geo_search k q db).1 in
      let others : Untouched first rs db = record {
        same_alive = h.same_alive;
        same_found = h.same_found.1;
      } in
      let after =
        Untouched-step first rs db asked (λ d. laws.search_alive k _ q db)
          (All-each _ rs λ j p. laws.search_found k _ q p db) others in
      let (kept, later) = keep_fresh-live_only first rs k locs all asked apart.0 after in
      rw (laws.search_answer k q db, search_all)
        (search_all-present first q rs (keep_fresh env k locs all asked).0
            (keep_fresh env k locs all asked).1 apart.1 later
          ∙ ap (λ l. ok (l ++ all_present first q rs)) kept
          ∙ ap ok (append_assoc all (live_only first locs) (all_present first q rs))
          ∙ ap (λ ls. ok (all ++ (live_only first ls ++ all_present first q rs)))
              (h.same_found.0 q))

  two_shards : (lat lng : F) → Distinct (Region.neighbors lat lng)
  unfolding Distinct Apart
  two_shards lat lng = rw (Shards.neighbors_lem lat lng) (
    (
      (λ e. cc (
          sym (Shards.key_ne_coarse lat lng)
          ∙ (eq_iff _ _).1 (geo_key-injective (Region.key lat lng) (Region.geohash lat lng 3) e))),
      tt,
    ),
    (tt, tt),
  )

  -- What the searches of `Nearest` find.
  pub search_all-two :
      (lat lng : F) (q : GeoQuery F) (db : redis.Db)
      → (search_all env q (Region.neighbors lat lng) [] db).0
        ≡ ok (present db q (Region.key lat lng) ++ present db q (Region.geohash lat lng 3))
  unfolding all_present
  search_all-two lat lng q db =
      let own = present db q (Region.key lat lng) in
      let start : Untouched db (Region.neighbors lat lng) db = record {
        same_alive = λ d. refl;
        same_found = All-each _ _ λ r p. refl;
      } in
      search_all-present db q (Region.neighbors lat lng) [] db (two_shards lat lng) start
      ∙ ap (λ rs. ok (all_present db q rs)) (Shards.neighbors_lem lat lng)
      ∙ ap (λ l. ok (own ++ l)) (append-nil (present db q (Region.geohash lat lng 3)))
