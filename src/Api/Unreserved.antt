-- ===== src/Api/Unreserved.antt =====
-- cmd/api/main.go: a driver who is assigned stays in the index until he reports that he is not
-- available.
pub mod Again
use Prim.Native.String
use text.Mathlib.TextLemmas.{cons-append}
use taxi_app.Base.{
  ℕ, suc, ltb, String, Bool, true, false, Option, none, some, List, [], ◌∷◌, ◌≡◌, ◌≢◌, refl, sym,
  ◌∙◌, ap, subst, inl, inr, Bool-cases, Option-cases, arith, first_differs, All, if◌then◌else◌,
  str_eq,
}
use taxi_app.Float64.{Float64}
use taxi_app.Models.{
  Trip, TripState, RideRequest, LocationUpdate, Candidate, in_progress, completed, cancelled,
}
use taxi_app.Region
use taxi_app.Infra.{Env}
use taxi_app.Infra.Answers.{IsAnswering}
use taxi_app.Geo.{geo_key, driver_key, ok, query, supply, rank_result}
use taxi_app.Geo.Steady.{SameDrivers, IsLively, gathered, nearest-steady, supply-SameDrivers}
use taxi_app.Match.{
  Choice, chosen, nobody, failure, Choice-cases, choose, best, search_radius_km, candidate_limit,
}
use taxi_app.Surge.{demand_key, record_demand, multiplier}
use taxi_app.Trip
use taxi_app.Trip.Cache.{cache_key, Lookup, found, not_found, broken, get, put, hour}
use taxi_app.Api.{
  Body, matched, Response, Topics, World, Request, emit, store_and_emit, assign, ride, handle_ride,
  handle_location, ingest, release, ingest_limit, move, transition, handle_get_trip, handle_surge,
  serve, serve_all, location, rides, start, complete, cancel, get_trip, surge,
}
use taxi_app.Api.Frame.{driver-ne-cache}
use taxi_app.Api.Interleaved.Semaphore.{ingest_lem}
use taxi_app.Api.Drivers.{record_demand-Drivers, multiplier-Drivers, get-Drivers, put-Drivers}

module _ {F : Type 0} ⦃fl : Float64 F⦄ (env : Env F) (laws : IsAnswering env.redis)
    (topics : Topics) where
  open env use {redis, trip_json}

  abbrev pub Drivers : redis.Db → redis.Db → Type 0
  Drivers = SameDrivers env laws

  store-Drivers :
      (first : redis.Db) (t : Trip F) (r : Response F) (w : World env)
      → Drivers first w.db
      → Drivers first (store_and_emit env topics t r w).1.db
  unfolding store_and_emit emit
  store-Drivers first t r w h = elim (Option-cases (put env t w.db).0) [
    | inl good ↦ rw (good, store_and_emit) (put-Drivers env laws first t w.db h)
    | inr (e, bad) ↦ rw (bad, store_and_emit) (put-Drivers env laws first t w.db h)
  ]

  assign-Drivers :
      (first : redis.Db) (req : RideRequest F) (m : F) (c : Choice F) (w : World env)
      → Drivers first w.db
      → Drivers first (assign env topics req m c w).1.db
  unfolding assign emit
  assign-Drivers first req m failure w h = h
  assign-Drivers first req m nobody w h = h
  assign-Drivers first req m (chosen d ds) w h = store-Drivers first _ _ _ h

  -- The choice around a place, by the drivers that were there at first.
  pub choice_at : redis.Db → F → F → Choice F
  choice_at first lat lng = choose (
      rank_result env candidate_limit (
        ok (
          gathered env laws first (query lat lng search_radius_km candidate_limit)
            (Region.neighbors lat lng))))

  -- The database when the driver is chosen.
  abbrev pub priced : RideRequest F → redis.Db → redis.Db
  priced req db = (multiplier env req.lat req.lng (record_demand env req.lat req.lng db)).1

  pub best-Drivers :
      (first : redis.Db) (req : RideRequest F) (db : redis.Db)
      → IsLively env laws first
      → Drivers first db
      → ((best env req (priced req db)).0 ≡ choice_at first req.lat req.lng)
        × Drivers first (best env req (priced req db)).1
  unfolding best choice_at
  best-Drivers first req db lively h =
      let now =
        multiplier-Drivers env laws first req.lat req.lng _
          (record_demand-Drivers env laws first req.lat req.lng db h) in
      let (answer, same) =
        nearest-steady env laws first req.lat req.lng search_radius_km candidate_limit
          (priced req db) lively now in
      (ap choose answer, same)

  pub ride-Drivers :
      (first : redis.Db) (body : Option (RideRequest F)) (w : World env)
      → IsLively env laws first
      → Drivers first w.db
      → Drivers first (handle_ride env topics body w).1.db
  unfolding handle_ride ride
  ride-Drivers first none w lively h = h
  ride-Drivers first (some req) w lively h = elim (Bool-cases (str_eq req.rider_id "")) [
    | inl bad ↦ rw bad h
    | inr good ↦ rw good (assign-Drivers first req _ _ _ (best-Drivers first req w.db lively h).1)
  ]

  move-Drivers :
      (first : redis.Db) (dst : TripState) (l : Lookup F) (w : World env)
      → Drivers first w.db
      → Drivers first (move env topics dst l w).1.db
  unfolding move
  move-Drivers first dst not_found w h = h
  move-Drivers first dst broken w h = h
  move-Drivers first dst (found t) w h = elim (Bool-cases (Trip.can_transition t.state dst)) [
    | inl legal ↦ rw legal (store-Drivers first _ _ _ h)
    | inr illegal ↦ rw illegal h
  ]

  lookup-Drivers :
      (first : redis.Db) (id : String) (db : redis.Db)
      → Drivers first db
      → Drivers first (get env id db).1
  unfolding get
  lookup-Drivers first id db h = get-Drivers env laws first _ db h

  transition-Drivers :
      (first : redis.Db) (dst : TripState) (id : String) (w : World env)
      → Drivers first w.db
      → Drivers first (transition env topics dst id w).1.db
  unfolding transition
  transition-Drivers first dst id w h = move-Drivers first dst _ _ (lookup-Drivers first id w.db h)

  location-Drivers :
      (first : redis.Db) (id : String) (body : Option (LocationUpdate F)) (w : World env)
      → Drivers first w.db
      → Drivers first (handle_location env topics id body w).1.db
  unfolding handle_location release
  location-Drivers first id body w h = elim (Bool-cases (ltb w.in_flight ingest_limit)) [
    | inl room ↦ rw room (
        subst (Drivers first)
          (sym (ingest_lem env topics id body (record w { in_flight = suc w.in_flight })).1) h)
    | inr full ↦ rw full h
  ]

  serve-Drivers :
      (first : redis.Db) (r : Request F) (w : World env)
      → IsLively env laws first
      → Drivers first w.db
      → Drivers first (serve env topics r w).1.db
  unfolding serve handle_get_trip handle_surge
  serve-Drivers first (location id body) w lively h = location-Drivers first id body w h
  serve-Drivers first (rides body) w lively h = ride-Drivers first body w lively h
  serve-Drivers first (start id) w lively h = transition-Drivers first in_progress id w h
  serve-Drivers first (complete id) w lively h = transition-Drivers first completed id w h
  serve-Drivers first (cancel id) w lively h = transition-Drivers first cancelled id w h
  serve-Drivers first (get_trip id) w lively h = lookup-Drivers first id w.db h
  serve-Drivers first (surge none) w lively h = h
  serve-Drivers first (surge (some (lat, lng))) w lively h =
      supply-SameDrivers env laws first lat lng _ (multiplier-Drivers env laws first lat lng w.db h)

  pub serve_all-Drivers :
      (first : redis.Db) (rs : List (Request F)) (w : World env)
      → IsLively env laws first
      → Drivers first w.db
      → Drivers first (serve_all env topics rs w).db
  unfolding serve_all
  serve_all-Drivers first [] w lively h = h
  serve_all-Drivers first (r ∷ rs) w lively h =
      serve_all-Drivers first rs (serve env topics r w).1 lively (serve-Drivers first r w lively h)
