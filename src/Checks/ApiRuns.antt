-- ===== src/Checks/ApiRuns.antt =====
-- The handlers at work on the memory of `Memory`: a driver pings, a rider requests, the driver
-- starts; and the theorems about them there.
use taxi_app.Base.{
  String, true, false, Option, none, some, some-injective, List, [], ◌∷◌, ◌≡◌, refl, sym, subst,
  inl, inr, Bool-cases, arith, if◌then◌else◌, str_eq, eq_iff,
}
use taxi_app.Base.Int.{ℤ, pos, add_ℤ}
use taxi_app.Float64.{whole}
use taxi_app.Float64.Fixed.{fixed}
use taxi_app.Models.{Trip, RideRequest, Candidate, requested, in_progress, completed}
use taxi_app.Region
use taxi_app.Infra.{Message}
use taxi_app.Geo
use taxi_app.Geo.{Result, ok, query, nearest, search_all, rank_result}
use taxi_app.LocationWorker
use taxi_app.LocationWorker.Index.{nearest-consume}
use taxi_app.Trip
use taxi_app.Trip.Cache.{cache_key, get, put}
use taxi_app.Api
use taxi_app.Api.{Topics, World, Request, rides, start, cancel, handle_ride, transition, serve_all}
use taxi_app.Match.{best}
use taxi_app.Surge.{multiplier, record_demand, factor, demand_key}
use taxi_app.Api.Frame.{Same, cache_key-injective}
use taxi_app.Api.Stored.{IsTracked, Cached, Stored}
use taxi_app.Api.Transitions.{Done, transition_ok}
use taxi_app.Api.Refusals.{Answered, IsReply, illegal_rejected}
use taxi_app.Checks.Memory.{Memory, memory-IsStringStore, memory-IsGeoStore}
use taxi_app.Checks.Board.{board, trips-IsCodec, assigned_trip, started_trip, same_trip}

abbrev pub topics : Topics
topics = record { location = "driver-locations"; trip = "trip-events" }

abbrev pub empty_memory : Memory
empty_memory = record { up = true; strings = λ k. none; sets = λ k. []; hashes = λ k. false }

abbrev pub quiet : World board
quiet = record { db = empty_memory; broker = []; clock = 7; ids = 1; in_flight = 0 }

-- The trip "t1" is assigned.
abbrev pub assigned_strings : String → Option String
assigned_strings k = if str_eq "trip:t1" k then some "1" else none

abbrev pub busy : World board
busy = record quiet { db = record empty_memory { strings = assigned_strings } }

busy_Cached : Cached board memory-IsStringStore trips-IsCodec topics busy.db "t1" assigned_trip
unfolding cache_key memory-IsStringStore
busy_Cached = ("1", refl, refl)

pub busy_Stored : Stored board memory-IsStringStore trips-IsCodec topics busy.db
unfolding memory-IsStringStore
busy_Stored = λ id t (b, p, q). elim (Bool-cases (str_eq "trip:t1" (cache_key id))) [
  | inl e ↦
      let own : "t1" ≡ id =
        cache_key-injective "t1" id (unfold cache_key in (eq_iff "trip:t1" (cache_key id)).0 e) in
      let b1 : "1" ≡ b = some-injective _ _ (rw e at p) in
      let t1 : assigned_trip ≡ t =
        some-injective _ _ (subst (λ c. board.trip_json.unmarshal c ≡ some t) (sym b1) q) in
      subst (λ u. IsTracked id u) t1 (own, inl refl)
  | inr n ↦ absurd (ground arith)
]

abbrev asked : RideRequest ℤ
asked = record { rider_id = "r1"; lat = pos 6_524_400_000; lng = pos 3_379_200_000 }

abbrev requests : List (Request ℤ)
requests = start "t1" ∷ rides (some asked) ∷ cancel "t2" ∷ []

-- After them the trip has started.
served_Cached :
    Cached board memory-IsStringStore trips-IsCodec topics
      (serve_all board topics requests busy).db
      "t1"
      started_trip
unfolding memory-IsStringStore serve_all Api.serve transition get put handle_ride best nearest
    Region.neighbors add_ℤ multiplier Geo.supply record_demand factor Api.emit demand_key cache_key
    Trip.can_transition same_trip Geo.geo_key Geo.driver_key
served_Cached = ("2", refl, refl)

transition_ok_example :
    (t : Trip ℤ) × Done board memory-IsStringStore trips-IsCodec topics in_progress "t1" busy t
      (transition board topics in_progress "t1" busy).1
unfolding transition cache_key same_trip Trip.can_transition memory-IsStringStore get put
transition_ok_example =
    transition_ok board memory-IsStringStore trips-IsCodec topics in_progress "t1" busy busy_Stored
      refl

illegal_rejected_example :
    Answered board memory-IsStringStore trips-IsCodec topics 409
      (IsReply board memory-IsStringStore trips-IsCodec topics)
      "t1"
      busy
      (transition board topics completed "t1" busy).0
    × Same board memory-IsStringStore busy.db (transition board topics completed "t1" busy).1.db
    × ((transition board topics completed "t1" busy).1.broker ≡ busy.broker)
unfolding Trip.can_transition
illegal_rejected_example =
    illegal_rejected board memory-IsStringStore trips-IsCodec topics completed "t1" busy
      assigned_trip busy_Cached refl

abbrev lonely : Trip ℤ
lonely = record {
  id = "t1";
  rider_id = "r1";
  driver_id = "";
  region = "s14m";
  state = requested;
  surge = whole 3;
  created_at = 0;
  updated_at = 0;
}

abbrev pings : List (Option Message)
pings = some (record { key = "s14m"; value = "d1" }) ∷ none ∷ []

abbrev near : Candidate ℤ
near = record {
  driver_id = "d1";
  lat = pos 6_524_400_000;
  lng = pos 3_379_200_000;
  distance_km = pos 6_524_400_000;
}

nearest-consume_example :
    rank_result board 10
      (search_all board
        (query asked.lat asked.lng (whole 5) 10)
        (Region.key asked.lat asked.lng ∷ [])
        []
        (LocationWorker.consume board pings empty_memory)).0
    ≡ ok (near ∷ [])
unfolding memory-IsGeoStore nearest LocationWorker.consume LocationWorker.handle Geo.upsert add_ℤ
    Region.neighbors Geo.geo_key Geo.driver_key
nearest-consume_example =
    nearest-consume board memory-IsGeoStore pings empty_memory asked.lat asked.lng (whole 5) 10
      (near ∷ []) (λ c. refl) refl
