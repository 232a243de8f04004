-- ===== src/Api/Frame.antt =====
-- cmd/api/main.go: what the calls about drivers and demand do to the cached trips, by the keys of Redis.
use text.Mathlib.TextLemmas.{append_cancel_left}
use taxi_app.Base.{
  first_differs, String, Bool, true, false, List, [], ◌∷◌, ◌++◌, ◌≡◌, ◌≢◌, refl, ◌∙◌, inl, inr,
  arith, if◌then◌else◌,
}
use taxi_app.Float64.{Float64}
use taxi_app.Models.{Candidate, RideRequest}
use taxi_app.Region
use taxi_app.Infra.{Env, Reply-cases, GeoLocation, GeoQuery}
use taxi_app.Infra.Laws.{IsStringStore}
use taxi_app.Geo.{geo_key, driver_key, fresh, keep_fresh, candidate, search_all, nearest, supply}
use taxi_app.Surge.{demand_key, record_demand, multiplier}
use taxi_app.Match.{best}
use taxi_app.Trip.Cache.{cache_key}

demand-ne-cache : (reg id : String) → demand_key reg ≢ cache_key id
unfolding demand_key cache_key
demand-ne-cache reg id = first_differs "d" "t" "emand:" "rip:" reg id (omega arith)

pub driver-ne-cache : (d id : String) → driver_key d ≢ cache_key id
unfolding driver_key cache_key
driver-ne-cache d id = first_differs "d" "t" "river:" "rip:" d id (omega arith)

pub cache_key-injective : (a b : String) → cache_key a ≡ cache_key b → a ≡ b
unfolding cache_key
cache_key-injective a b h = append_cancel_left "trip:" a b h

module _ {F : Type 0} ⦃fl : Float64 F⦄ (env : Env F) (laws : IsStringStore env.redis) where
  open env use {redis}
  open laws use {text, get_text, pipe_text, search_text, zrem_text, zcard_text, exists_text}

  -- Every cached trip is as it was.
  abbrev pub Same : redis.Db → redis.Db → Type 0
  Same db db' = (id : String) → text db' (cache_key id) ≡ text db (cache_key id)

  record_demand-Same : (lat lng : F) (db : redis.Db) → Same db (record_demand env lat lng db)
  unfolding record_demand
  record_demand-Same lat lng db id =
      let apart = demand-ne-cache (Region.key lat lng) id in
      pipe_text _ (cache_key id) db (apart, (apart, tt))

  pub multiplier-Same : (lat lng : F) (db : redis.Db) → Same db (multiplier env lat lng db).1
  unfolding multiplier supply
  multiplier-Same lat lng db id = zcard_text _ _ _ ∙ get_text _ _ _

  pub supply-Same : (lat lng : F) (db : redis.Db) → Same db (supply env lat lng db).1
  unfolding supply
  supply-Same lat lng db id = zcard_text _ _ _

  if-Same : (b : Bool) (db x y : redis.Db) → Same db x → Same db y → Same db (if b then x else y)
  if-Same true db x y h k = h
  if-Same false db x y h k = k

  keep_fresh-Same :
      (k : String) (locs : List (GeoLocation F)) (all : List (Candidate F)) (db : redis.Db)
      → Same db (keep_fresh env k locs all db).1
  unfolding keep_fresh fresh
  keep_fresh-Same k [] all db id = refl
  keep_fresh-Same k (l ∷ locs) all db id =
      let alive = (fresh env l.name db).0 in
      let asked = (fresh env l.name db).1 in
      let next = if alive then asked else redis.zrem k l.name asked in
      keep_fresh-Same k locs (if alive then all ++ (candidate env l ∷ []) else all) next id
      ∙ if-Same alive db asked (redis.zrem k l.name asked) (λ j. exists_text _ _ db)
          (λ j. zrem_text k l.name _ asked ∙ exists_text _ _ db) id

  search_all-Same :
      (q : GeoQuery F) (regs : List String) (all : List (Candidate F)) (db : redis.Db)
      → Same db (search_all env q regs all db).1
  unfolding search_all
  search_all-Same q [] all db id = refl
  search_all-Same q (reg ∷ regs) all db id =
      let sent = redis.geo_search (geo_key reg) q db in
      elim (Reply-cases sent.0) [
        | inl (locs, r) ↦
            let kept = keep_fresh env (geo_key reg) locs all sent.1 in
            rw (r, search_all)
              (search_all-Same q regs kept.0 kept.1 id
                ∙ keep_fresh-Same (geo_key reg) locs all sent.1 id
                ∙ search_text _ _ q db)
        | inr (inl r) ↦
            let kept = keep_fresh env (geo_key reg) [] all sent.1 in
            rw (r, search_all)
              (search_all-Same q regs kept.0 kept.1 id
                ∙ keep_fresh-Same (geo_key reg) [] all sent.1 id
                ∙ search_text _ _ q db)
        | inr (inr (m, r)) ↦ rw (r, search_all) (search_text _ _ q db)
      ]

  best-Same : (req : RideRequest F) (db : redis.Db) → Same db (best env req db).1
  unfolding best nearest
  best-Same req db id = search_all-Same _ _ _ db id

  -- The database that `handleRide` has when the driver is chosen.
  pub searched-Same :
      (req : RideRequest F) (db : redis.Db)
      → Same db
          (best env req (multiplier env req.lat req.lng (record_demand env req.lat req.lng db)).1).1
  searched-Same req db id =
      best-Same req _ id
      ∙ multiplier-Same req.lat req.lng _ id
      ∙ record_demand-Same req.lat req.lng db id
