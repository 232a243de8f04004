-- ===== src/Trip.antt =====
-- internal/trip/trip.go: the state machine of a trip. The cache and the durable store are below.
pub mod Lifecycle
pub mod Cache
pub mod Store
use taxi_app.Base.{
  ℕ, String, Bool, true, false, List, [], ◌∷◌, Option, none, some, if◌then◌else◌, str_eq, ◌||◌,
}
use taxi_app.Models.{TripState, requested, assigned, in_progress, completed, cancelled}

-- A Go map literal, and an index into it: the zero value where the key is missing.
abbrev index {ℓ} : {V : Type ℓ} → V → String → List (String × V) → V
index zero_value k [] = zero_value
index zero_value k ((j, v) ∷ m) = if str_eq j k then v else index zero_value k m

abbrev valid_transitions : List (TripState × List (TripState × Bool))
valid_transitions =
    (requested, (assigned, true) ∷ (cancelled, true) ∷ [])
    ∷ (assigned, (in_progress, true) ∷ (cancelled, true) ∷ [])
    ∷ (in_progress, (completed, true) ∷ (cancelled, true) ∷ [])
    ∷ []

-- `CanTransition`
unfoldable pub can_transition : TripState → TripState → Bool
can_transition src dst = index false dst (index [] src valid_transitions)
