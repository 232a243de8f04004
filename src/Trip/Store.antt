-- ===== src/Trip/Store.antt =====
-- internal/trip/trip.go, `Store`, and the tables of internal/db/schema.sql. The two SQL statements
-- are functions on the tables; what the server answers to each call is an input.
pub mod Projection
use taxi_app.Base.{
  ℕ, String, Bool, true, false, Option, none, some, List, [], ◌∷◌, ◌++◌, if◌then◌else◌, str_eq,
}
use taxi_app.Models.{Trip, TripState, TripEvent}

-- A row of `trips` is a `Trip`; this is a row of `trip_events`, whose serial number is its place.
pub record LogRow : Type 0 where
  pub trip_id : String
  pub state : TripState
  pub driver_id : String
  pub at : ℕ

pub record Tables (F : Type 0) : Type 0 where
  pub trips : List (Trip F)
  pub trip_events : List LogRow

-- The errors that the calls of one transaction return. `landed` tells whether a commit whose answer
-- is an error took place all the same.
pub record Answers : Type 0 where
  pub begins : Option String
  pub upserts : Option String
  pub inserts : Option String
  pub commits : Option String
  pub landed : Bool

abbrev pub fine : Answers
fine = record { begins = none; upserts = none; inserts = none; commits = none; landed = true }

module _ {F : Type 0} where
  -- The row that `VALUES` gives.
  abbrev pub inserted : TripEvent F → ℕ → Trip F
  inserted e now = record {
    id = e.trip_id;
    rider_id = e.rider_id;
    driver_id = e.driver_id;
    region = e.region;
    state = e.state;
    surge = e.surge;
    created_at = now;
    updated_at = now;
  }

  -- `DO UPDATE SET`, with the `CASE` on the driver.
  abbrev pub updated : TripEvent F → ℕ → Trip F → Trip F
  updated e now t = record t {
    state = e.state;
    driver_id = if str_eq e.driver_id "" then t.driver_id else e.driver_id;
    surge = e.surge;
    updated_at = now;
  }

  -- `INSERT INTO trips … ON CONFLICT (id) DO UPDATE`
  upsert : TripEvent F → ℕ → List (Trip F) → List (Trip F)
  upsert e now [] = inserted e now ∷ []
  upsert e now (t ∷ ts) =
      if str_eq t.id e.trip_id then updated e now t ∷ ts else t ∷ upsert e now ts

  -- `INSERT INTO trip_events`
  append_log : TripEvent F → ℕ → List LogRow → List LogRow
  append_log e now log =
      log
      ++ (record { trip_id = e.trip_id; state = e.state; driver_id = e.driver_id; at = now } ∷ [])

  written : TripEvent F → ℕ → Tables F → Tables F
  unfolding upsert append_log
  written e now db = record {
    trips = upsert e now db.trips;
    trip_events = append_log e now db.trip_events;
  }

  finish_commit : Option String → Bool → Tables F → Tables F → Option String × Tables F
  finish_commit none landed new old = (none, new)
  finish_commit (some e) landed new old = (some e, if landed then new else old)

  or_fail : Option String → Tables F → Option String × Tables F → Option String × Tables F
  or_fail none old rest = rest
  or_fail (some e) old rest = (some e, old)

  -- `Apply`: the deferred rollback leaves the tables as they were on every early return.
  unfoldable pub apply : Answers → TripEvent F → ℕ → Tables F → Option String × Tables F
  unfolding written finish_commit or_fail
  apply a e now db = or_fail a.begins db (
      or_fail a.upserts db
        (or_fail a.inserts db (finish_commit a.commits a.landed (written e now db) db)))

  -- `SELECT … FROM trips WHERE id = $1`; `none` is `ErrNotFound`
  unfoldable pub find : String → List (Trip F) → Option (Trip F)
  find id [] = none
  find id (t ∷ ts) = if str_eq t.id id then some t else find id ts

  abbrev pub or_empty : Option (Tables F) → Tables F
  or_empty none = record { trips = []; trip_events = [] }
  or_empty (some db) = db

  -- `Migrate`: `CREATE … IF NOT EXISTS` in one implicit transaction, on a database that has the tables
  -- or has not. The error is an input, and so is whether the call took place all the same.
  unfoldable pub migrate :
      Option String → Bool → Option (Tables F) → Option String × Option (Tables F)
  migrate none landed db = (none, some (or_empty db))
  migrate (some e) landed db = (some e, if landed then some (or_empty db) else db)
