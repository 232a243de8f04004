-- ===== src/Models.antt =====
-- internal/models/models.go. `TripState` is a string there too: an event that is read from JSON may
-- hold any. A `time.Time` is the nanoseconds since its zero value, and NaN is a value of `F`.
use taxi_app.Base.{ℕ, ◌/◌, String, Bool}
use taxi_app.Base.Int.{ℤ, sub_ℕ}

pub record LocationUpdate (F : Type 0) : Type 0 where
  pub driver_id : String
  pub lat : F
  pub lng : F
  pub available : Bool
  pub timestamp : ℤ

pub record RideRequest (F : Type 0) : Type 0 where
  pub rider_id : String
  pub lat : F
  pub lng : F

pub record Candidate (F : Type 0) : Type 0 where
  pub driver_id : String
  pub lat : F
  pub lng : F
  pub distance_km : F

abbrev pub TripState : Type 0
TripState = String

abbrev pub requested : TripState
requested = "REQUESTED"

abbrev pub assigned : TripState
assigned = "ASSIGNED"

abbrev pub in_progress : TripState
in_progress = "IN_PROGRESS"

abbrev pub completed : TripState
completed = "COMPLETED"

abbrev pub cancelled : TripState
cancelled = "CANCELLED"

pub record Trip (F : Type 0) : Type 0 where
  pub id : String
  pub rider_id : String
  pub driver_id : String
  pub region : String
  pub state : TripState
  pub surge : F
  pub created_at : ℕ
  pub updated_at : ℕ

pub record TripEvent (F : Type 0) : Type 0 where
  pub trip_id : String
  pub rider_id : String
  pub driver_id : String
  pub region : String
  pub state : TripState
  pub surge : F
  pub at : ℤ

pub record Notification : Type 0 where
  pub user_id : String
  pub kind : String
  pub trip_id : String
  pub message : String
  pub at : ℤ

-- `t.UnixMilli()`: the zero time is the first day of the year 1.
abbrev pub unix_milli : ℕ → ℤ
unix_milli t = sub_ℕ (t / 1_000_000) 62_135_596_800_000
