-- ===== src/Checks/AgainRuns.antt =====
-- Two riders at one place, and one driver.
use taxi_app.Base.{
  String, none, some, List, [], ◌∷◌, ◌≡◌, ◌≢◌, refl, ◌∙◌, arith, if◌then◌else◌, eq_iff, All,
}
use taxi_app.Base.Int.{ℤ, pos, add_ℤ}
use taxi_app.Float64.{whole}
use taxi_app.Float64.Fixed.{fixed}
use taxi_app.Models.{Trip, RideRequest, Candidate, assigned}
use taxi_app.Infra.{Env, Command, geo_add, h_set, expire, z_rem, del, incr, reply}
use taxi_app.Infra.Laws.{key_of}
use taxi_app.Infra.Answers.{IsAnswering}
use taxi_app.Geo
use taxi_app.Geo.{nearest}
use taxi_app.Geo.Steady.{IsLively}
use taxi_app.Match.{best}
use taxi_app.Region
use taxi_app.Surge.{multiplier, record_demand, factor, demand_key}
use taxi_app.Trip.Cache.{put}
use taxi_app.Api.{World, Request, matched, start, handle_ride, serve_all, emit}
use taxi_app.Api.Unreserved.Again.{IsMatched, priced, searched, matched_again}
use taxi_app.Checks.Memory.{Memory, run, run_all}
use taxi_app.Checks.Codecs.{trip_codec}
use taxi_app.Checks.ApiRuns.{topics}
use taxi_app.Checks.PipelineRuns.{running, waiting}

-- A server in memory that always answers.
abbrev pub answering : Env ℤ
answering = record running {
  redis = record running.redis {
    geo_search = λ k q m. (reply (m.sets k), m);
    exists = λ k m. (reply (if m.hashes k then pos 1 else pos 0), m);
    pipe_exec = λ cs m. (none, run_all cs m);
  };
}

run-other :
    (c : Command ℤ) (j : String) (m : Memory)
    → key_of c ≢ j
    → ((run c m).hashes j ≡ m.hashes j) × ((run c m).sets j ≡ m.sets j)
run-other (geo_add key name lng lat) j m h = (refl, ground (arith, eq_iff key j))
run-other (h_set key region lat lng ts) j m h = (ground (arith, eq_iff key j), refl)
run-other (expire key ttl) j m h = (refl, refl)
run-other (z_rem key name) j m h = (refl, ground (arith, eq_iff key j))
run-other (del key) j m h = (ground (arith, eq_iff key j), ground (arith, eq_iff key j))
run-other (incr key) j m h = (refl, refl)

pub run_all-other :
    (cs : List (Command ℤ)) (j : String) (m : Memory)
    → All (λ c. key_of c ≢ j) cs
    → ((run_all cs m).hashes j ≡ m.hashes j) × ((run_all cs m).sets j ≡ m.sets j)
run_all-other [] j m h = (refl, refl)
run_all-other (c ∷ cs) j m h =
    let (a, b) = run-other c j m h.0 in
    let (p, q) = run_all-other cs j (run c m) h.1 in (p ∙ a, q ∙ b)

unfoldable pub answering-IsAnswering : IsAnswering answering.redis
unfolding run-other run_all-other
answering-IsAnswering = record {
  alive = λ m k. m.hashes k;
  found = λ m k q. m.sets k;
  exists_answer = λ k m. refl;
  search_answer = λ k q m. refl;
  exists_alive = λ k j m. refl;
  exists_found = λ k j q m. refl;
  search_alive = λ k j q m. refl;
  search_found = λ k j p q m. refl;
  zcard_alive = λ k j m. refl;
  zcard_found = λ k j q m. refl;
  get_alive = λ k j m. refl;
  get_found = λ k j q m. refl;
  set_alive = λ k s j ttl m h. refl;
  set_found = λ k s j ttl q m h. refl;
  pipe_alive = λ cs j m h. (run_all-other cs j m h).0;
  pipe_found = λ cs j q m h. (run_all-other cs j m h).1;
}

abbrev street : World answering
street = record { db = waiting.db; broker = []; clock = 7; ids = 1; in_flight = 0 }

street-IsLively : IsLively answering answering-IsAnswering street.db
unfolding answering-IsAnswering
street-IsLively reg q = (refl, tt)

abbrev rider : String → RideRequest ℤ
rider id = record { rider_id = id; lat = pos 0; lng = pos 0 }

abbrev driver : Candidate ℤ
driver = record { driver_id = "d1"; lat = pos 0; lng = pos 0; distance_km = whole 1 }

abbrev first_trip : Trip ℤ
first_trip = record {
  id = "1";
  rider_id = "r1";
  driver_id = "d1";
  region = "s000";
  state = assigned;
  surge = whole 1;
  created_at = 8;
  updated_at = 8;
}

first_match :
    (handle_ride answering topics (some (rider "r1")) street).0.body
    ≡ matched first_trip driver (driver ∷ driver ∷ []) (whole 1)
unfolding handle_ride best nearest Region.neighbors add_ℤ multiplier Geo.supply record_demand factor
    demand_key Geo.geo_key Geo.driver_key trip_codec put emit
first_match = refl

abbrev between : List (Request ℤ)
between = start "1" ∷ []

two_riders : (rider "r2").rider_id ≢ ""
two_riders h = absurd (cc h)

matched_again_example :
    let after =
      serve_all answering topics between
        (handle_ride answering topics (some (rider "r1")) street).1 in
    ("d1" ≡ driver.driver_id)
    × IsMatched answering topics
        (rider "r2")
        driver
        (driver ∷ driver ∷ [])
        (answering.new_string after.ids).0
        (priced answering topics (rider "r2") after.db)
        (searched answering topics (rider "r2") after.db)
        (handle_ride answering topics (some (rider "r2")) after).0
matched_again_example =
    matched_again answering topics answering-IsAnswering (rider "r1") (rider "r2") between street
      first_trip driver (driver ∷ driver ∷ []) (whole 1) street-IsLively refl refl two_riders
      first_match
