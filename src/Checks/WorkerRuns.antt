-- ===== src/Checks/WorkerRuns.antt =====
-- The trip worker on a stream of three events, one of which Postgres loses, and a failed read.
use taxi_app.Base.{ℕ, Option, String, true, false, none, some, List, [], ◌∷◌, map, ◌≡◌, refl, ◌⊎◌}
use taxi_app.Base.Int.{ℤ, pos}
use taxi_app.Float64.{whole}
use taxi_app.Float64.Fixed.{fixed}
use taxi_app.Models.{Trip, TripEvent, unix_milli}
use taxi_app.Infra.{Env, Message}
use taxi_app.Trip.Store.{Answers, fine, find, or_empty}
use taxi_app.Trip.Store.Projection.{no_rows, summary, about, effective, log_row}
use taxi_app.TripWorker.{Worker, Delivery, messages, handle, notify}
use taxi_app.TripWorker.Notices.{due, publish_all, notify-due}
use taxi_app.TripWorker.Restarts.{Life, Lasting, lives, all_reads, lives-summary}
use taxi_app.TripWorker.Durable.{event_in, calls_of, told_after_commit}
use taxi_app.Checks.Board.{board}

abbrev event : String → TripEvent ℤ
event state = record {
  trip_id = "t1";
  rider_id = "r1";
  driver_id = "d1";
  region = "s14m";
  state = state;
  surge = whole 1;
  at = pos 0;
}

abbrev wired : Env ℤ
wired = record board {
  event_json = record { marshal = λ e. some e.state; unmarshal = λ s. some (event s) };
}

abbrev idle : Worker wired
idle = record {
  tables = no_rows;
  db = record { up = true; strings = λ k. none; sets = λ k. []; hashes = λ k. false };
  clock = 7;
}

abbrev sent : String → Message
sent state = record { key = "s14m"; value = state }

abbrev got : String → Answers → Delivery wired
got state answers = record { message = some (sent state); answers = answers; time = 5 }

abbrev stream : List (Delivery wired)
stream =
    got "REQUESTED" fine
    ∷ record { message = none; answers = fine; time = 6 }
    ∷ got "ASSIGNED" (record fine { upserts = some "deadlock" })
    ∷ got "IN_PROGRESS" fine
    ∷ []

told_after_commit_example :
    ((handle wired (got "ASSIGNED" fine) idle).db ≡ idle.db)
    ⊎ ((ev : TripEvent ℤ) × (t : Trip ℤ) × (event_in wired (got "ASSIGNED" fine) ≡ some ev)
        × (find ev.trip_id (handle wired (got "ASSIGNED" fine) idle).tables.trips ≡ some t)
        × (t.state ≡ ev.state)
        × ((handle wired (got "ASSIGNED" fine) idle).db
            ≡ notify wired ev (unix_milli (wired.now idle.clock).0) idle.db))
told_after_commit_example = told_after_commit wired (got "ASSIGNED" fine) idle

notify-due_example :
    notify wired (event "ASSIGNED") (pos 9) idle.db
    ≡ publish_all wired (due (event "ASSIGNED") (pos 9)) idle.db
notify-due_example = notify-due wired (event "ASSIGNED") (pos 9) idle.db

nobody_without_an_id :
    due (record (event "CANCELLED") { driver_id = "" }) (pos 9)
    ≡ record {
      user_id = "r1";
      kind = "trip:CANCELLED";
      trip_id = "t1";
      message = "Your trip was cancelled";
      at = pos 9;
    }
      ∷ []
unfolding due messages
nobody_without_an_id = refl

abbrev alive : ℕ → Option String
alive n = none

abbrev gone : ℕ → Option String
gone n = some "connection refused"

-- The worker starts, fails to reach Redis, and starts again.
abbrev first_life : Life wired
first_life = record {
  create = alive;
  answer = alive;
  migration = none;
  landed = true;
  redis = alive;
  brokers = "localhost:9092" ∷ [];
  deliveries = stream;
}

abbrev lost_life : Life wired
lost_life = record first_life { redis = gone }

abbrev second_life : Life wired
second_life = record first_life { deliveries = got "COMPLETED" fine ∷ [] }

abbrev from_nothing : Lasting wired
from_nothing = record { tables = none; db = idle.db; clock = 7 }

abbrev three : List (Life wired)
three = first_life ∷ lost_life ∷ second_life ∷ []

lives-summary_example :
    (find "t1" (or_empty (lives wired three from_nothing).tables).trips
      ≡ summary (about "t1" (effective (calls_of wired (all_reads wired three)))))
    × ((or_empty (lives wired three from_nothing).tables).trip_events
        ≡ map log_row (effective (calls_of wired (all_reads wired three))))
lives-summary_example = lives-summary wired "t1" three from_nothing refl
