-- ===== src/Geo/Steady.antt =====
-- internal/geo/geo.go: while nobody is stale, `Nearest` changes nothing and always answers the same.
use taxi_app.Base.{
  ℕ, String, Bool, true, false, List, [], ◌∷◌, ◌++◌, ◌≡◌, refl, sym, ◌∙◌, ap, subst, All,
  if◌then◌else◌, append-nil, append_assoc,
}
use taxi_app.Base.Int.{pos, ltb_ℤ}
use taxi_app.Float64.{Float64}
use taxi_app.Models.{Candidate}
use taxi_app.Region
use taxi_app.Infra.{Env, GeoLocation, GeoQuery}
use taxi_app.Infra.Answers.{IsAnswering}
use taxi_app.Geo.{
  geo_key, driver_key, ok, query, fresh, candidate, keep_fresh, search_all, nearest, supply,
  rank_result,
}

positive : (b : Bool) → ltb_ℤ (pos 0) (if b then pos 1 else pos 0) ≡ b
positive true = refl
positive false = refl

module _ {F : Type 0} ⦃fl : Float64 F⦄ (env : Env F) (laws : IsAnswering env.redis) where
  open env use {redis}
  open laws use {alive, found}

  -- The drivers' metadata and the geo sets are as they were.
  pub record SameDrivers (first db : redis.Db) : Type 0 where
    pub same_alive : (d : String) → alive db (driver_key d) ≡ alive first (driver_key d)
    pub same_found :
        (reg : String) (q : GeoQuery F) → found db (geo_key reg) q ≡ found first (geo_key reg) q

  -- Nobody in a geo set is stale.
  abbrev pub IsLively : redis.Db → Type 0
  IsLively db =
      (reg : String) (q : GeoQuery F)
      → All (λ l. alive db (driver_key l.name) ≡ true) (found db (geo_key reg) q)

  pub fresh-alive :
      (name : String) (db : redis.Db) → (fresh env name db).0 ≡ alive db (driver_key name)
  unfolding fresh
  fresh-alive name db =
      rw (laws.exists_answer (driver_key name) db) (positive (alive db (driver_key name)))

  pub fresh-SameDrivers :
      (first db : redis.Db) (name : String)
      → SameDrivers first db
      → SameDrivers first (fresh env name db).1
  unfolding fresh
  fresh-SameDrivers first db name h = record {
    same_alive = λ d. laws.exists_alive _ _ db ∙ h.same_alive d;
    same_found = λ reg q. laws.exists_found _ _ q db ∙ h.same_found reg q;
  }

  -- The candidates of a search.
  pub candidates : List (GeoLocation F) → List (Candidate F)
  candidates [] = []
  candidates (l ∷ ls) = candidate env l ∷ candidates ls

  keep_fresh-All :
      (first : redis.Db) (k : String) (locs : List (GeoLocation F)) (all : List (Candidate F))
      (db : redis.Db)
      → SameDrivers first db
      → All (λ l. alive first (driver_key l.name) ≡ true) locs
      → ((keep_fresh env k locs all db).0 ≡ all ++ candidates locs)
        × SameDrivers first (keep_fresh env k locs all db).1
  unfolding keep_fresh candidates
  keep_fresh-All first k [] all db h a = (sym (append-nil all), h)
  keep_fresh-All first k (l ∷ locs) all db h a =
      let here : (fresh env l.name db).0 ≡ true =
        fresh-alive l.name db ∙ h.same_alive l.name ∙ a.0 in
      let (rest, later) =
        keep_fresh-All first k locs (all ++ (candidate env l ∷ [])) (fresh env l.name db).1
          (fresh-SameDrivers first db l.name h) a.1 in
      rw (here, keep_fresh)
        (rest ∙ append_assoc all (candidate env l ∷ []) (candidates locs), later)

  -- What the searches of some regions find.
  pub gathered : redis.Db → GeoQuery F → List String → List (Candidate F)
  gathered db q [] = []
  gathered db q (reg ∷ regs) = candidates (found db (geo_key reg) q) ++ gathered db q regs

  search_all-gathered :
      (first : redis.Db) (q : GeoQuery F) (regs : List String) (all : List (Candidate F))
      (db : redis.Db)
      → IsLively first
      → SameDrivers first db
      → ((search_all env q regs all db).0 ≡ ok (all ++ gathered first q regs))
        × SameDrivers first (search_all env q regs all db).1
  unfolding search_all gathered
  search_all-gathered first q [] all db lively h = (ap ok (sym (append-nil all)), h)
  search_all-gathered first q (reg ∷ regs) all db lively h =
      let k = geo_key reg in
      let sent = (redis.geo_search k q db).1 in
      let locs = found db k q in
      let same = h.same_found reg q in
      let later : SameDrivers first sent = record {
        same_alive = λ d. laws.search_alive _ _ q db ∙ h.same_alive d;
        same_found = λ r p. laws.search_found _ _ q p db ∙ h.same_found r p;
      } in
      let (kept, after) =
        keep_fresh-All first k locs all sent later
          (subst (All (λ l. alive first (driver_key l.name) ≡ true)) (sym same) (lively reg q)) in
      let (rest, end) =
        search_all-gathered first q regs (keep_fresh env k locs all sent).0
          (keep_fresh env k locs all sent).1 lively after in
      rw (laws.search_answer k q db, search_all)
        (
          rest
              ∙ ap ok (
                  ap (λ l. l ++ gathered first q regs) kept
                  ∙ append_assoc all (candidates locs) (gathered first q regs)
                  ∙ ap (λ ls. all ++ (candidates ls ++ gathered first q regs)) same),
          end,
        )

  -- What `Nearest` answers, and that it leaves the drivers as they are.
  pub nearest-steady :
      (first : redis.Db) (lat lng radius : F) (limit : ℕ) (db : redis.Db)
      → IsLively first
      → SameDrivers first db
      → ((nearest env lat lng radius limit db).0
          ≡ rank_result env limit
              (ok (gathered first (query lat lng radius limit) (Region.neighbors lat lng))))
        × SameDrivers first (nearest env lat lng radius limit db).1
  unfolding nearest
  nearest-steady first lat lng radius limit db lively h =
      let (all, same) =
        search_all-gathered first (query lat lng radius limit) (Region.neighbors lat lng) [] db
          lively h in
      (ap (rank_result env limit) all, same)

  pub supply-SameDrivers :
      (first : redis.Db) (lat lng : F) (db : redis.Db)
      → SameDrivers first db
      → SameDrivers first (supply env lat lng db).1
  unfolding supply
  supply-SameDrivers first lat lng db h = record {
    same_alive = λ d. laws.zcard_alive _ _ db ∙ h.same_alive d;
    same_found = λ reg q. laws.zcard_found _ _ q db ∙ h.same_found reg q;
  }
