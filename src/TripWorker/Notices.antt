-- ===== src/TripWorker/Notices.antt =====
-- cmd/tripworker/main.go, `notify`: who is told of an event.
use Prim.Native.String
use taxi_app.Base.{
  String, Bool, false, not, ◌&&◌, ◌||◌, List, [], ◌∷◌, ◌++◌, ◌≡◌, refl, sym, subst, arith,
  if◌then◌else◌, str_eq, eq_iff, inl, inr, Bool-cases,
}
use taxi_app.Base.Int.{ℤ}
use taxi_app.Models.{
  TripState, TripEvent, Notification, requested, assigned, in_progress, completed, cancelled,
}
use taxi_app.Infra.{Env}
use taxi_app.TripWorker.{messages, publish, tell, notify}

-- A driver is on the trip, or was.
pub has_driver : TripState → Bool
has_driver s = str_eq s assigned || str_eq s in_progress || str_eq s completed || str_eq s cancelled

module _ {F : Type 0} where
  notice : String → String → TripEvent F → ℤ → Notification
  notice user message ev now = record {
    user_id = user;
    kind = String.◌++◌ "trip:" ev.state;
    trip_id = ev.trip_id;
    message = message;
    at = now;
  }

  -- The rider is told of each state of the lifecycle, and then the driver of each but REQUESTED; an
  -- empty id is nobody.
  unfoldable pub due : TripEvent F → ℤ → List Notification
  unfolding has_driver notice
  due ev now =
      (if (str_eq ev.state requested || has_driver ev.state) && not (str_eq ev.rider_id "")
        then notice ev.rider_id (messages ev.state).0 ev now ∷ []
        else [])
      ++ (if has_driver ev.state && not (str_eq ev.driver_id "")
          then notice ev.driver_id (messages ev.state).1 ev now ∷ []
          else [])

-- What `messages` gives, by the state.
state_cases :
    (P : TripState → Type 0)
    → P requested
    → P assigned
    → P in_progress
    → P completed
    → P cancelled
    → ((s : TripState)
        → str_eq s requested ≡ false
        → str_eq s assigned ≡ false
        → str_eq s in_progress ≡ false
        → str_eq s completed ≡ false
        → str_eq s cancelled ≡ false
        → P s)
    → (s : TripState) → P s
state_cases P r a i c x none_of s = elim (Bool-cases (str_eq s requested)) [
  | inl e ↦ subst P (sym ((eq_iff s requested).0 e)) r
  | inr not_r ↦ elim (Bool-cases (str_eq s assigned)) [
    | inl e ↦ subst P (sym ((eq_iff s assigned).0 e)) a
    | inr not_a ↦ elim (Bool-cases (str_eq s in_progress)) [
      | inl e ↦ subst P (sym ((eq_iff s in_progress).0 e)) i
      | inr not_i ↦ elim (Bool-cases (str_eq s completed)) [
        | inl e ↦ subst P (sym ((eq_iff s completed).0 e)) c
        | inr not_c ↦ elim (Bool-cases (str_eq s cancelled)) [
          | inl e ↦ subst P (sym ((eq_iff s cancelled).0 e)) x
          | inr not_x ↦ none_of s not_r not_a not_i not_c not_x
        ]
      ]
    ]
  ]
]

module _ {F : Type 0} (env : Env F) where
  open env use {redis}

  -- One `Publish` after the other, whatever each returns.
  pub publish_all : List Notification → redis.Db → redis.Db
  publish_all [] db = db
  publish_all (n ∷ ns) db = publish_all ns (publish env n db).1

  messages_rider :
      (s : TripState) → str_eq (messages s).0 "" ≡ not (str_eq s requested || has_driver s)
  unfolding messages has_driver
  messages_rider =
      state_cases (λ s. str_eq (messages s).0 "" ≡ not (str_eq s requested || has_driver s)) refl
        refl refl refl refl (λ s r a i c x. rw (r, a, i, c, x) refl)

  messages_driver : (s : TripState) → str_eq (messages s).1 "" ≡ not (has_driver s)
  unfolding messages has_driver
  messages_driver =
      state_cases (λ s. str_eq (messages s).1 "" ≡ not (has_driver s)) refl refl refl refl refl
        (λ s r a i c x. rw (r, a, i, c, x) refl)

  -- `notify` publishes to the rider and then to the driver what is due, and nothing else.
  pub notify-due :
      (ev : TripEvent F) (now : ℤ) (db : redis.Db)
      → notify env ev now db ≡ publish_all (due ev now) db
  unfolding notify tell due publish_all
  notify-due ev now db = ground (arith, messages_rider ev.state, messages_driver ev.state)
