-- ===== src/Pipeline.antt =====
-- From the front door over Kafka to Postgres: cmd/api/main.go, internal/kafkax/kafkax.go and
-- cmd/tripworker/main.go together. What a reader of the trip topic makes of one trip.
pub mod Logged
pub mod Moved
pub mod Served
pub mod Delivered
pub mod Positions
pub mod Unpinged
pub mod Pinged
pub mod Indexed
pub mod Matched
use Prim.Native.String
use taxi_app.Base.{
  String, Bool, Option, none, some, List, [], ◌∷◌, ◌++◌, map, ◌≡◌, ◌≢◌, refl, if◌then◌else◌, str_eq,
  eq_iff, eq_refl, All, arith, Bool-cases, Option-cases, inl, inr,
}
use taxi_app.Models.{Trip, TripEvent}
use taxi_app.Infra.{Env, Message}
use taxi_app.Trip.Store.{inserted, updated}

module _ {F : Type 0} where
  -- A row without the times, which are those of the server.
  abbrev pub timeless : Trip F → Trip F
  timeless t = record t { created_at = 0; updated_at = 0 }

  -- A row after one more event.
  abbrev pub step : Option (Trip F) → TripEvent F → Option (Trip F)
  step none e = some (inserted e 0)
  step (some t) e = some (updated e 0 t)

module _ {F : Type 0} (env : Env F) where
  open env use {event_json}

  abbrev pub take_in : String → Option (Trip F) → Option (TripEvent F) → Option (Trip F)
  take_in id o none = o
  take_in id o (some e) = if str_eq e.trip_id id then step o e else o

  -- The row of one trip after one message, and after many.
  pub see : String → Option (Trip F) → Message → Option (Trip F)
  see id o m = take_in id o (event_json.unmarshal m.value)

  pub view : String → Option (Trip F) → List Message → Option (Trip F)
  view id o [] = o
  view id o (m ∷ ms) = view id (see id o m) ms

  pub view-append :
      (id : String) (o : Option (Trip F)) (ms : List Message) (m : Message)
      → view id o (ms ++ (m ∷ [])) ≡ see id (view id o ms) m
  unfolding view
  view-append id o [] m = refl
  view-append id o (n ∷ ms) m = view-append id (see id o n) ms m

  -- A message about the trip has this key.
  abbrev pub Keyed : String → String → Message → Type 0
  Keyed id k m =
      (e : TripEvent F) → event_json.unmarshal m.value ≡ some e → e.trip_id ≡ id → m.key ≡ k

  -- The message is not about the trip.
  abbrev pub Foreign : String → Message → Type 0
  Foreign id m = (e : TripEvent F) → event_json.unmarshal m.value ≡ some e → e.trip_id ≢ id

  pub see-Foreign :
      (id : String) (o : Option (Trip F)) (m : Message) → Foreign id m → see id o m ≡ o
  unfolding see
  see-Foreign id o m h = elim (Option-cases (event_json.unmarshal m.value)) [
    | inl bad ↦ rw bad refl
    | inr (e, good) ↦ elim (Bool-cases (str_eq e.trip_id id)) [
      | inl same ↦ absurd (h e good ((eq_iff e.trip_id id).0 same))
      | inr other ↦ rw good (rw other refl)
    ]
  ]

  pub view-Foreign :
      (id : String) (o : Option (Trip F)) (ms : List Message)
      → All (Foreign id) ms
      → view id o ms ≡ o
  unfolding view
  view-Foreign id o [] h = refl
  view-Foreign id o (m ∷ ms) h = rw (see-Foreign id o m h.0) (view-Foreign id o ms h.1)

  pub Foreign-Keyed :
      (id k : String) (ms : List Message) → All (Foreign id) ms → All (Keyed id k) ms
  Foreign-Keyed id k [] h = tt
  Foreign-Keyed id k (m ∷ ms) h = ((λ e p q. absurd (h.0 e p q)), Foreign-Keyed id k ms h.1)
