-- ===== src/Checks/InterleavedRuns.antt =====
-- Requests at the same time on the memory of `Memory`: a location request and two starts of one trip.
use taxi_app.Base.{
  String, false, Option, none, some, List, [], ◌∷◌, ◌≡◌, ◌≤◌, ◌↔◌, ◌≢◌, refl, ◌⊎◌, inl, ltb,
}
use taxi_app.Base.Int.{ℤ}
use taxi_app.Float64.Fixed.{fixed}
use taxi_app.Models.{LocationUpdate, in_progress}
use taxi_app.Infra.{Env}
use taxi_app.Trip
use taxi_app.Trip.Cache.{cache_key, get, put, found}
use taxi_app.Http.{HttpRequest, get_header, allow_headers, cors, logging, LogLine}
use taxi_app.Api
use taxi_app.Api.{Topics, World, ingest_limit, move, transition}
use taxi_app.Api.Stored.{IsTracked, Cached}
use taxi_app.Api.Server.{Decoders, mux, api, api_all, handler}
use taxi_app.Api.Server.Browsers.{handler_answer, api_all-IsTracked}
use taxi_app.Api.Interleaved.{
  System, ingesting, moving, Reach, start, later, enter, look, finish, ingests,
}
use taxi_app.Api.Interleaved.Semaphore.{in_flight_bounds}
use taxi_app.Api.Interleaved.Safety.{interleaved-IsTracked}
use taxi_app.Api.Refusals.{Answered, IsReply}
use taxi_app.Api.Race.{lost_update}
use taxi_app.Checks.Memory.{memory-IsStringStore}
use taxi_app.Checks.Board.{board, trips-IsCodec, assigned_trip, started_trip, same_trip}
use taxi_app.Checks.ApiRuns.{topics, busy, busy_Stored}

-- The clock stands still, so both starts write the same time.
abbrev still : Env ℤ
still = record board { now = λ n. (7, n) }

abbrev still_busy : World still
still_busy = record { db = busy.db; broker = []; clock = 7; ids = 1; in_flight = 0 }

lost_update_example :
    ((move still topics in_progress (found assigned_trip) still_busy).0.status ≡ 200)
    × ((move still topics in_progress
          (found assigned_trip)
          (move still topics in_progress (found assigned_trip) still_busy).1).0.status
        ≡ 200)
    × Cached still memory-IsStringStore trips-IsCodec topics
        (move still topics in_progress
          (found assigned_trip)
          (move still topics in_progress (found assigned_trip) still_busy).1).1.db
        "t1"
        started_trip
    × Answered still memory-IsStringStore trips-IsCodec topics 409
        (IsReply still memory-IsStringStore trips-IsCodec topics)
        "t1"
        (move still topics in_progress (found assigned_trip) still_busy).1
        (transition still topics in_progress "t1"
          (move still topics in_progress (found assigned_trip) still_busy).1).0
unfolding Trip.can_transition put cache_key same_trip move Api.emit
lost_update_example =
    lost_update still memory-IsStringStore trips-IsCodec topics in_progress in_progress
      assigned_trip still_busy refl refl refl refl refl

abbrev pinged : Option (LocationUpdate ℤ)
pinged = none

abbrev one_enters : System board
one_enters = record { world = record busy { in_flight = 1 }; jobs = ingesting "d1" pinged ∷ [] }

one_enters_reached : Reach board topics busy one_enters
one_enters_reached = later start (enter "d1" pinged refl refl)

in_flight_bounds_example :
    (one_enters.world.in_flight ≡ ingests one_enters.jobs)
    × (ingests one_enters.jobs ≤ 5000)
    × ((ltb one_enters.world.in_flight ingest_limit ≡ false) ↔ (ingests one_enters.jobs ≡ 5000))
in_flight_bounds_example = in_flight_bounds board topics refl one_enters_reached

-- The start of "t1" reads the trip, and writes it while a location request is under way.
abbrev looked_up : System board
looked_up = record { world = busy; jobs = moving in_progress (found assigned_trip) ∷ [] }

abbrev ping_during : System board
ping_during = record {
  world = record busy { in_flight = 1 };
  jobs = ingesting "d1" pinged ∷ moving in_progress (found assigned_trip) ∷ [];
}

abbrev started : System board
started = record {
  world = (move board topics in_progress (found assigned_trip) (record busy { in_flight = 1 })).1;
  jobs = ingesting "d1" pinged ∷ [];
}

started_reached : Reach board topics busy started
unfolding get cache_key
started_reached =
    later
      (later {t = ping_during} (later {t = looked_up} start (look in_progress "t1" (inl refl) refl))
        (enter "d1" pinged refl refl))
      (finish (ingesting "d1" pinged ∷ []) [] in_progress (found assigned_trip) refl refl)

started_Cached :
    Cached board memory-IsStringStore trips-IsCodec topics started.world.db "t1" started_trip
unfolding memory-IsStringStore move put cache_key same_trip Trip.can_transition Api.emit
started_Cached = ("2", refl, refl)

interleaved-IsTracked_example : IsTracked "t1" started_trip
interleaved-IsTracked_example =
    interleaved-IsTracked board topics memory-IsStringStore trips-IsCodec busy_Stored
      started_reached "t1" started_trip started_Cached

abbrev decoders : Decoders ℤ
decoders = record { location = λ s. none; ride = λ s. none; float = λ s. none }

abbrev http : String → List String → HttpRequest
http method path = record { method = method; path = path; query = λ k. ""; body = "" }

abbrev start_t1 : HttpRequest
start_t1 = http "POST" ("v1" ∷ "trips" ∷ "t1" ∷ "start" ∷ [])

wrong_method : (api board topics decoders [] (http "GET" ("v1" ∷ "rides" ∷ [])) busy).0.status ≡ 405
unfolding api mux cors
wrong_method = refl

slash_at_the_end :
    ((api board topics decoders [] (http "POST" ("v1" ∷ "rides" ∷ "" ∷ [])) busy).0.status ≡ 404)
    × ((api board topics decoders [] (http "GET" ("v1" ∷ "trips" ∷ "" ∷ [])) busy).0.status ≡ 404)
unfolding api mux cors
slash_at_the_end = (refl, refl)

handler_answer_example :
    let (x, (after, logged)) = handler board topics decoders [] start_t1 (busy, []) in
    (get_header "Access-Control-Allow-Origin" x.header ≡ some "*")
    × (((start_t1.method ≡ "OPTIONS")
          × (x.status ≡ 204)
          × (x.body ≡ none)
          × ((after.db ≡ busy.db)
              × (after.broker ≡ busy.broker)
              × (after.ids ≡ busy.ids)
              × (after.in_flight ≡ busy.in_flight)))
        ⊎ ((start_t1.method ≢ "OPTIONS")
            × (x
                ≡ (mux board topics decoders
                    (allow_headers [])
                    start_t1
                    (record busy { clock = (board.now busy.clock).1 })).0)))
    × ((line : LogLine) × (logged ≡ line ∷ [])
        × (line.method ≡ start_t1.method)
        × (line.path ≡ start_t1.path))
handler_answer_example = handler_answer board topics decoders start_t1 busy []

logged_one :
    (handler board topics decoders [] (http "OPTIONS" ("v1" ∷ [])) (busy, [])).1.1
    ≡ record { method = "OPTIONS"; path = "v1" ∷ []; elapsed = 1 } ∷ []
unfolding handler logging api cors
logged_one = refl

-- The log reads the clock three times before the trip is started.
abbrev early : World board
early = record busy { clock = 4 }

served_by_http :
    Cached board memory-IsStringStore trips-IsCodec topics
      (api_all board topics decoders (http "OPTIONS" [] ∷ start_t1 ∷ []) (early, [])).0.db
      "t1"
      started_trip
unfolding memory-IsStringStore api_all handler logging api mux Api.serve transition get put
    cache_key same_trip Trip.can_transition move cors Api.emit
served_by_http = ("2", refl, refl)

api_all-IsTracked_example : IsTracked "t1" started_trip
api_all-IsTracked_example =
    api_all-IsTracked board topics decoders memory-IsStringStore trips-IsCodec
      (http "OPTIONS" [] ∷ start_t1 ∷ []) early [] "t1" started_trip busy_Stored served_by_http
