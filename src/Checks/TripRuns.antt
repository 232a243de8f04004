-- ===== src/Checks/TripRuns.antt =====
-- internal/trip/transition_test.go, the theorems about the lifecycle on one trip, and the durable
-- store under three calls, one of which fails.
use taxi_app.Base.{◌≡◌, ◌↔◌, ℕ, refl, String, Bool, true, false, some, List, [], ◌∷◌, map}
use taxi_app.Base.Int.{ℤ, pos}
use taxi_app.Float64.{whole}
use taxi_app.Float64.Fixed.{fixed}
use taxi_app.Models.{TripState, TripEvent, requested, assigned, in_progress, completed, cancelled}
use taxi_app.Trip.{can_transition}
use taxi_app.Trip.Lifecycle.{Arrow, Walk, stay, move, can_transition_iff, completed_route}
use taxi_app.Trip.Store.{Answers, fine, find}
use taxi_app.Trip.Store.Projection.{
  Call, replay, no_rows, summary, about, effective, log_row, replay-summary,
}

abbrev Tested : TripState → TripState → Bool → Type 0
Tested src dst want = can_transition src dst ≡ want

test_can_transition :
    Tested requested assigned true
    × Tested requested cancelled true
    × Tested assigned in_progress true
    × Tested in_progress completed true
    × Tested in_progress cancelled true
    × Tested requested in_progress false
    × Tested completed in_progress false
    × Tested cancelled assigned false
    × Tested assigned completed false
unfolding can_transition
test_can_transition = (refl, refl, refl, refl, refl, refl, refl, refl, refl)

can_transition_iff_example : (can_transition requested completed ≡ true) ↔ Arrow requested completed
can_transition_iff_example = can_transition_iff requested completed

ride_walk : Walk requested (assigned ∷ in_progress ∷ completed ∷ []) completed
unfolding can_transition
ride_walk = move refl (move refl (move refl stay))

completed_route_example :
    assigned ∷ in_progress ∷ completed ∷ [] ≡ assigned ∷ in_progress ∷ completed ∷ []
completed_route_example = completed_route ride_walk

abbrev event : TripState → String → TripEvent ℤ
event state driver_id = record {
  trip_id = "t1";
  rider_id = "r1";
  driver_id = driver_id;
  region = "s14m";
  state = state;
  surge = whole 1;
  at = pos 0;
}

abbrev call : Answers → TripState → String → ℕ → Call ℤ
call answers state driver_id now = record {
  answers = answers;
  event = event state driver_id;
  time = now;
}

-- The connection is lost at the second commit.
abbrev calls : List (Call ℤ)
calls =
    call fine requested "" 1
    ∷ call (record fine { commits = some "lost"; landed = false }) assigned "d1" 2
    ∷ call fine assigned "d2" 3
    ∷ []

replay-summary_example :
    (find "t1" (replay no_rows calls).trips ≡ summary (about "t1" (effective calls)))
    × ((replay no_rows calls).trip_events ≡ map log_row (effective calls))
replay-summary_example = replay-summary "t1" calls
