-- ===== src/Api.antt =====
-- cmd/api/main.go: the handlers of the HTTP front door. A request's body comes decoded, `none` where
-- it is no JSON; a response is its status and what is written.
pub mod Frame
pub mod Stored
pub mod Transitions
pub mod Refusals
pub mod Server
pub mod Shutdown
pub mod Interleaved
pub mod Race
pub mod Drivers
pub mod Unreserved
use Prim.Native.String
use taxi_app.Base.{
  ℕ, suc, ◌-◌, String, Bool, true, false, Option, none, some, List, [], ◌∷◌, if◌then◌else◌, ltb,
  str_eq, ◌||◌,
}
use taxi_app.Base.Int.{ℤ}
use taxi_app.Float64.{Float64}
use taxi_app.Models.{
  Trip, TripState, TripEvent, RideRequest, LocationUpdate, Candidate, requested, assigned,
  in_progress, completed, cancelled, unix_milli,
}
use taxi_app.Infra.{Env, Message}
use taxi_app.Region
use taxi_app.Geo
use taxi_app.Match
use taxi_app.Match.{Choice, chosen, nobody, failure}
use taxi_app.Surge
use taxi_app.Trip
use taxi_app.Trip.Cache
use taxi_app.Trip.Cache.{Lookup, found, not_found, broken}

pub data Body (F : Type 0) : Type 0 where
  text : String → Body F
  empty : Body F
  trip : Trip F → Body F
  unmatched : Trip F → F → Body F
  matched : Trip F → Candidate F → List (Candidate F) → F → Body F
  surge : (region : String) → F → (supply : ℤ) → Body F

pub record Response (F : Type 0) : Type 0 where
  pub status : ℕ
  pub body : Body F

-- `cfg.LocationTopic` and `cfg.TripTopic`
pub record Topics : Type 0 where
  pub location : String
  pub trip : String

abbrev pub ingest_limit : ℕ
ingest_limit = 5000

abbrev pub or_nil : Option String → String
or_nil none = ""
or_nil (some s) = s

module _ {F : Type 0} (env : Env F) where
  -- What the handlers act on. `in_flight` is the number of items in `ingestSem`.
  pub record World : Type 0 where
    pub db : env.redis.Db
    pub broker : env.kafka.Broker
    pub clock : env.Clock
    pub ids : env.Ids
    pub in_flight : ℕ

module _ {F : Type 0} ⦃fl : Float64 F⦄ (env : Env F) (topics : Topics) where
  abbrev error : ℕ → String → Response F
  error code message = record { status = code; body = text message }

  unfoldable pub event_of : Trip F → ℤ → TripEvent F
  event_of t at = record {
    trip_id = t.id;
    rider_id = t.rider_id;
    driver_id = t.driver_id;
    region = t.region;
    state = t.state;
    surge = t.surge;
    at = at;
  }

  -- `emit`: an error of the codec leaves an empty body, and one of the writer is only logged.
  unfoldable pub emit : Trip F → World env → World env
  unfolding event_of
  emit t w =
      let (at, clock) = env.now w.clock in
      let body = or_nil (env.event_json.marshal (event_of t (unix_milli at))) in
      let m : Message = record { key = t.region; value = body } in
      record w { clock = clock; broker = (env.kafka.write_messages topics.trip m w.broker).1 }

  -- `handleLocation` between the two ends of the semaphore.
  unfoldable pub ingest : String → Option (LocationUpdate F) → World env → Response F × World env
  ingest id none w = (error 400 "bad request", w)
  ingest id (some sent) w =
      let (now, clock) = env.now w.clock in
      let u = record sent { driver_id = id; timestamp = unix_milli now } in
      let m : Message = record {
        key = Region.key u.lat u.lng;
        value = or_nil (env.location_json.marshal u);
      } in
      let (e, broker) = env.kafka.write_messages topics.location m w.broker in
      let w' : World env = record w { clock = clock; broker = broker } in
      elim e [
        | some _ ↦ (error 502 "ingest failed", w')
        | none ↦ (record { status = 202; body = empty }, w')
      ]

  -- The deferred receive from the semaphore.
  unfoldable pub release : Response F × World env → Response F × World env
  release (r, w) = (r, record w { in_flight = w.in_flight - 1 })

  -- `handleLocation`
  unfoldable pub handle_location :
      String → Option (LocationUpdate F) → World env → Response F × World env
  unfolding ingest release
  handle_location id body w =
      if ltb w.in_flight ingest_limit
      then release (ingest id body (record w { in_flight = suc w.in_flight }))
      else (error 503 "overloaded", w)

  -- The trip that `handleRide` begins with.
  unfoldable pub new_trip : RideRequest F → F → String → Trip F
  new_trip req mult id = record {
    id = id;
    rider_id = req.rider_id;
    driver_id = "";
    region = Region.key req.lat req.lng;
    state = requested;
    surge = mult;
    created_at = 0;
    updated_at = 0;
  }

  -- `if err := s.trips.Put(…)`, then `emit` and the answer.
  unfoldable pub store_and_emit : Trip F → Response F → World env → Response F × World env
  store_and_emit t answer w =
      let (e, db) = Cache.put env t w.db in
      let w' : World env = record w { db = db } in
      elim e [ some _ ↦ (error 500 "cache error", w') | none ↦ (answer, emit t w') ]

  -- `handleRide` from the match on.
  unfoldable pub assign : RideRequest F → F → Choice F → World env → Response F × World env
  unfolding new_trip store_and_emit
  assign req mult failure w = (error 500 "match error", w)
  assign req mult nobody w =
      let (id, ids) = env.new_string w.ids in
      let t = new_trip req mult id in
      (record { status = 200; body = unmatched t mult }, emit t (record w { ids = ids }))
  assign req mult (chosen best shortlist) w =
      let (id, ids) = env.new_string w.ids in
      let t = new_trip req mult id in
      let w' = emit t (record w { ids = ids }) in
      let (now, clock) = env.now w'.clock in
      let t' : Trip F = record t {
        driver_id = best.driver_id;
        state = assigned;
        created_at = now;
        updated_at = now;
      } in
      store_and_emit t' (record { status = 200; body = matched t' best shortlist mult })
        (record w' { clock = clock })

  unfoldable pub ride : RideRequest F → World env → Response F × World env
  unfolding assign
  ride req w =
      let counted = Surge.record_demand env req.lat req.lng w.db in
      let (mult, priced) = Surge.multiplier env req.lat req.lng counted in
      let (choice, searched) = Match.best env req priced in
      assign req mult choice (record w { db = searched })

  -- `handleRide`
  unfoldable pub handle_ride : Option (RideRequest F) → World env → Response F × World env
  unfolding ride
  handle_ride none w = (error 400 "bad request", w)
  handle_ride (some req) w =
      if str_eq req.rider_id "" then (error 400 "bad request", w) else ride req w

  illegal : TripState → TripState → String
  illegal src dst =
      String.◌++◌ "illegal transition from " (String.◌++◌ src (String.◌++◌ " to " dst))

  -- `transition(to)` from the lookup on.
  unfoldable pub move : TripState → Lookup F → World env → Response F × World env
  unfolding store_and_emit illegal
  move dst not_found w = (error 404 "trip not found", w)
  move dst broken w = (error 500 "lookup error", w)
  move dst (found t) w =
      let (now, clock) = env.now w.clock in
      let t' : Trip F = record t { state = dst; updated_at = now } in
      if Trip.can_transition t.state dst
      then store_and_emit t' (record { status = 200; body = trip t' }) (record w { clock = clock })
      else (error 409 (illegal t.state dst), w)

  -- The handler that `transition(to)` returns.
  unfoldable pub transition : TripState → String → World env → Response F × World env
  unfolding move
  transition dst id w = let (l, db) = Cache.get env id w.db in move dst l (record w { db = db })

  abbrev shown : Lookup F → Response F
  shown not_found = error 404 "trip not found"
  shown broken = error 500 "lookup error"
  shown (found t) = record { status = 200; body = trip t }

  -- `handleGetTrip`
  unfoldable pub handle_get_trip : String → World env → Response F × World env
  handle_get_trip id w = let (l, db) = Cache.get env id w.db in (shown l, record w { db = db })

  -- `handleSurge`; the coordinates are what `httpx.LatLng` returns.
  unfoldable pub handle_surge : Option (F × F) → World env → Response F × World env
  handle_surge none w = (error 400 "lat and lng required", w)
  handle_surge (some (lat, lng)) w =
      let (mult, db) = Surge.multiplier env lat lng w.db in
      let (n, db') = Geo.supply env lat lng db in
      (record { status = 200; body = surge (Region.key lat lng) mult n }, record w { db = db' })

-- The routes of `main`, each with the values of its path and its body.
pub data Request (F : Type 0) : Type 0 where
  location : (id : String) → Option (LocationUpdate F) → Request F
  rides : Option (RideRequest F) → Request F
  start complete cancel get_trip : (id : String) → Request F
  surge : Option (F × F) → Request F

module _ {F : Type 0} ⦃fl : Float64 F⦄ (env : Env F) (topics : Topics) where
  -- `mux`
  unfoldable pub serve : Request F → World env → Response F × World env
  serve (location id body) = handle_location env topics id body
  serve (rides body) = handle_ride env topics body
  serve (start id) = transition env topics in_progress id
  serve (complete id) = transition env topics completed id
  serve (cancel id) = transition env topics cancelled id
  serve (get_trip id) = handle_get_trip env topics id
  serve (surge at) = handle_surge env topics at

  unfoldable pub serve_all : List (Request F) → World env → World env
  serve_all [] w = w
  serve_all (r ∷ rs) w = serve_all rs (serve r w).1
