-- ===== src/Pipeline/Unpinged.antt =====
-- cmd/api/main.go: the requests that report no position leave the location topic alone.
use taxi_app.Base.{
  String, false, Option, none, some, List, [], ◌∷◌, ◌≡◌, refl, ◌∙◌, inl, inr, Bool-cases,
  Option-cases, arith, str_eq, eq_iff, ltb,
}
use taxi_app.Float64.{Float64}
use taxi_app.Models.{
  Trip, TripState, RideRequest, LocationUpdate, in_progress, completed, cancelled,
}
use taxi_app.Infra.{Env, Message}
use taxi_app.Infra.Laws.{IsLog}
use taxi_app.Match.{Choice, chosen, nobody, failure}
use taxi_app.Trip
use taxi_app.Trip.Cache.{Lookup, found, not_found, broken, put}
use taxi_app.Api.{
  Response, Topics, World, Request, emit, store_and_emit, assign, ride, handle_ride,
  handle_location, ingest, release, ingest_limit, move, transition, handle_get_trip, handle_surge,
  serve, location, rides, start, complete, cancel, get_trip, surge,
}
use taxi_app.Api.Interleaved.Semaphore.{move-in_flight, ride-in_flight}

-- The position that a request reports.
unfoldable pub ping_in : {F : Type 0} → Request F → Option (LocationUpdate F)
ping_in (location id (some u)) = some (record u { driver_id = id })
ping_in _ = none

unfoldable pub pings_of : {F : Type 0} → List (Request F) → List (LocationUpdate F)
pings_of [] = []
pings_of (r ∷ rs) = let rest = pings_of rs in elim (ping_in r) [ none ↦ rest | some u ↦ u ∷ rest ]

module _ {F : Type 0} ⦃fl : Float64 F⦄ (env : Env F) (kafka : IsLog env.kafka)
    (writes : (topic : String) (m : Message) (b : env.kafka.Broker)
      → (env.kafka.write_messages topic m b).0 ≡ none)
    (topics : Topics) (apart : str_eq topics.location topics.trip ≡ false) where
  -- The messages of the location topic.
  abbrev pub positions : World env → List Message
  positions w = kafka.log w.broker topics.location

  -- Neither the topic nor the semaphore has changed.
  abbrev pub Quiet : World env → World env → Type 0
  Quiet w w' = (w'.in_flight ≡ w.in_flight) × (positions w' ≡ positions w)

  emit-positions : (t : Trip F) (w : World env) → positions (emit env topics t w) ≡ positions w
  unfolding emit
  emit-positions t w =
      let other : str_eq topics.trip topics.location ≡ false =
        ground (arith, eq_iff topics.trip topics.location, eq_iff topics.location topics.trip) in
      kafka.appended topics.trip topics.location _ w.broker (writes topics.trip _ w.broker)
      ∙ rw other refl

  store-positions :
      (t : Trip F) (r : Response F) (w : World env)
      → positions (store_and_emit env topics t r w).1 ≡ positions w
  unfolding store_and_emit
  store-positions t r w = elim (Option-cases (put env t w.db).0) [
    | inl good ↦ rw (good, store_and_emit) (emit-positions t _)
    | inr (e, bad) ↦ rw (bad, store_and_emit) refl
  ]

  move-positions :
      (dst : TripState) (l : Lookup F) (w : World env)
      → positions (move env topics dst l w).1 ≡ positions w
  unfolding move
  move-positions dst not_found w = refl
  move-positions dst broken w = refl
  move-positions dst (found t) w = elim (Bool-cases (Trip.can_transition t.state dst)) [
    | inl legal ↦ rw legal (store-positions _ _ _)
    | inr illegal ↦ rw illegal refl
  ]

  assign-positions :
      (req : RideRequest F) (m : F) (c : Choice F) (w : World env)
      → positions (assign env topics req m c w).1 ≡ positions w
  unfolding assign
  assign-positions req m failure w = refl
  assign-positions req m nobody w = emit-positions _ _
  assign-positions req m (chosen d ds) w = store-positions _ _ _ ∙ emit-positions _ _

  ride-positions :
      (body : Option (RideRequest F)) (w : World env)
      → positions (handle_ride env topics body w).1 ≡ positions w
  unfolding handle_ride ride
  ride-positions none w = refl
  ride-positions (some req) w = elim (Bool-cases (str_eq req.rider_id "")) [
    | inl bad ↦ rw bad refl
    | inr good ↦ rw good (assign-positions req _ _ _)
  ]

  transition-Quiet :
      (dst : TripState) (id : String) (w : World env) → Quiet w (transition env topics dst id w).1
  unfolding transition
  transition-Quiet dst id w = (move-in_flight env topics dst _ _, move-positions dst _ _)

  location-Quiet : (id : String) (w : World env) → Quiet w (handle_location env topics id none w).1
  unfolding handle_location release ingest
  location-Quiet id w = elim (Bool-cases (ltb w.in_flight ingest_limit)) [
    | inl room ↦ rw room (omega arith, refl)
    | inr full ↦ rw full (refl, refl)
  ]

  -- A request that reports no position.
  pub serve-Quiet :
      (r : Request F) (w : World env) → ping_in r ≡ none → Quiet w (serve env topics r w).1
  unfolding serve handle_get_trip handle_surge ping_in
  serve-Quiet (location id none) w h = location-Quiet id w
  serve-Quiet (location id (some u)) w h = absurd (cc h)
  serve-Quiet (rides body) w h = (ride-in_flight env topics body w, ride-positions body w)
  serve-Quiet (start id) w h = transition-Quiet in_progress id w
  serve-Quiet (complete id) w h = transition-Quiet completed id w
  serve-Quiet (cancel id) w h = transition-Quiet cancelled id w
  serve-Quiet (get_trip id) w h = (refl, refl)
  serve-Quiet (surge none) w h = (refl, refl)
  serve-Quiet (surge (some (lat, lng))) w h = (refl, refl)
