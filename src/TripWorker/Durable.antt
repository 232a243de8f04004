-- ===== src/TripWorker/Durable.antt =====
-- cmd/tripworker/main.go: what the worker's loop leaves in Postgres, and whom it tells of what.
use taxi_app.Base.{
  ℕ, String, Option, none, some, List, [], ◌∷◌, map, ◌≡◌, refl, ◌∙◌, ap, ◌⊎◌, inl, inr,
  Option-cases,
}
use taxi_app.Models.{Trip, TripEvent, unix_milli}
use taxi_app.Infra.{Env}
use taxi_app.Trip.Store.{Answers, apply, find}
use taxi_app.Trip.Store.Projection.{
  Call, replay, no_rows, summary, about, effective, log_row, replay-summary, apply_ok,
}
use taxi_app.TripWorker.{Worker, Delivery, persist, handle, consume, notify}

module _ {F : Type 0} (env : Env F) where
  open env use {redis, event_json}

  -- The event that a delivery carries, if its read succeeded and its text is one.
  unfoldable pub event_in : Delivery env → Option (TripEvent F)
  event_in d = elim d.message [ none ↦ none | some m ↦ event_json.unmarshal m.value ]

  -- The calls of `Apply` that the deliveries lead to.
  unfoldable pub calls_of : List (Delivery env) → List (Call F)
  calls_of [] = []
  calls_of (d ∷ ds) =
      let rest = calls_of ds in
      elim (event_in d) [
        | none ↦ rest
        | some ev ↦ record { answers = d.answers; event = ev; time = d.time } ∷ rest
      ]

  handle-persist :
      (d : Delivery env) (w : Worker env) (ev : TripEvent F)
      → event_in d ≡ some ev
      → handle env d w ≡ persist env ev d.answers d.time w
  unfolding handle event_in
  handle-persist d w ev h = elim (Option-cases d.message) [
    | inl bad ↦ absurd (cc (rw bad at h))
    | inr (m, good) ↦ rw (good, handle) (rw (rw (good, event_in) at h) refl)
  ]

  pub handle-skip : (d : Delivery env) (w : Worker env) → event_in d ≡ none → handle env d w ≡ w
  unfolding handle event_in
  handle-skip d w h = elim (Option-cases d.message) [
    | inl bad ↦ rw (bad, handle) refl
    | inr (m, good) ↦ rw (good, handle) (rw (rw (good, event_in) at h) refl)
  ]

  persist-tables :
      (ev : TripEvent F) (a : Answers) (t : ℕ) (w : Worker env)
      → (persist env ev a t w).tables ≡ (apply a ev t w.tables).1
  unfolding persist
  persist-tables ev a t w = elim (Option-cases (apply a ev t w.tables).0) [
    | inl good ↦ rw (good, persist) refl
    | inr (e, bad) ↦ rw (bad, persist) refl
  ]

  pub handle-tables :
      (d : Delivery env) (w : Worker env) (ev : TripEvent F)
      → event_in d ≡ some ev
      → (handle env d w).tables ≡ (apply d.answers ev d.time w.tables).1
  handle-tables d w ev h =
      ap (λ v. v.tables) (handle-persist d w ev h) ∙ persist-tables ev d.answers d.time w

  persist-told :
      (ev : TripEvent F) (a : Answers) (t : ℕ) (w : Worker env)
      → (apply a ev t w.tables).0 ≡ none
      → (persist env ev a t w).db ≡ notify env ev (unix_milli (env.now w.clock).0) w.db
  unfolding persist
  persist-told ev a t w h = rw (h, persist) refl

  persist-failed :
      (ev : TripEvent F) (a : Answers) (t : ℕ) (w : Worker env) (e : String)
      → (apply a ev t w.tables).0 ≡ some e
      → (persist env ev a t w).db ≡ w.db
  unfolding persist
  persist-failed ev a t w e h = rw (h, persist) refl

  pub consume-replay :
      (ds : List (Delivery env)) (w : Worker env)
      → (consume env ds w).tables ≡ replay w.tables (calls_of ds)
  unfolding consume calls_of replay
  consume-replay [] w = refl
  consume-replay (d ∷ ds) w = elim (Option-cases (event_in d)) [
    | inl bad ↦
        rw (bad, calls_of)
          (consume-replay ds (handle env d w)
            ∙ ap (λ v. replay v.tables (calls_of ds)) (handle-skip d w bad))
    | inr (ev, good) ↦
        rw (good, calls_of)
          (consume-replay ds (handle env d w)
            ∙ ap (λ v. replay v (calls_of ds)) (handle-tables d w ev good))
  ]

  -- From empty tables, whatever the worker's reads return, undecodable messages included, the row of a
  -- trip is the summary of the committed events about it that the stream carried, and the audit log
  -- lists all the committed ones in the order of the stream.
  consume-summary :
      (id : String) (ds : List (Delivery env)) (w : Worker env)
      → w.tables ≡ no_rows
      → (find id (consume env ds w).tables.trips ≡ summary (about id (effective (calls_of ds))))
        × ((consume env ds w).tables.trip_events ≡ map log_row (effective (calls_of ds)))
  consume-summary id ds w h =
      rw (consume-replay ds w ∙ ap (λ v. replay v (calls_of ds)) h)
        (replay-summary id (calls_of ds))

  -- One delivery either sends no notification, or it carries an event whose trip is then in Postgres
  -- in the event's state, and what is sent is what `notify` sends of that event.
  pub told_after_commit :
      (d : Delivery env) (w : Worker env)
      → ((handle env d w).db ≡ w.db)
        ⊎ ((ev : TripEvent F) × (t : Trip F) × (event_in d ≡ some ev)
            × (find ev.trip_id (handle env d w).tables.trips ≡ some t)
            × (t.state ≡ ev.state)
            × ((handle env d w).db ≡ notify env ev (unix_milli (env.now w.clock).0) w.db))
  told_after_commit d w = elim (Option-cases (event_in d)) [
    | inl bad ↦ inl (ap (λ v. v.db) (handle-skip d w bad))
    | inr (ev, good) ↦ elim (Option-cases (apply d.answers ev d.time w.tables).0) [
      | inl done ↦
          let (t, row, state) =
            apply_ok (record { answers = d.answers; event = ev; time = d.time }) w.tables done in
          inr (
            ev,
            t,
            good,
            rw (handle-tables d w ev good) row,
            state,
            rw (handle-persist d w ev good) (persist-told ev d.answers d.time w done),
          )
      | inr (e, bad) ↦
          inl (
            ap (λ v. v.db) (handle-persist d w ev good)
            ∙ persist-failed ev d.answers d.time w e bad)
    ]
  ]
