-- ===== src/Trip/Store/Projection.antt =====
-- internal/trip/trip.go, `Store`: the tables as a function of the events that took effect.
use taxi_app.Base.{
  ℕ, String, Bool, true, false, Option, none, some, List, [], ◌∷◌, ◌++◌, map, ◌≡◌, refl, sym, ◌∙◌,
  arith, if◌then◌else◌, str_eq, eq_iff, ◌&&◌, ◌||◌, append-nil, append_assoc, Bool-cases,
  Option-cases, eq_refl, inl, inr,
}
use taxi_app.Models.{Trip, TripEvent}
use taxi_app.Trip.Store.{
  Answers, Tables, LogRow, inserted, updated, upsert, append_log, written, apply, find,
}

-- One call of `Apply`: the server's answers, the event, and the server's time.
pub record Call (F : Type 0) : Type 0 where
  pub answers : Answers
  pub event : TripEvent F
  pub time : ℕ

abbrev is_none {ℓ} : {A : Type ℓ} → Option A → Bool
is_none none = true
is_none (some _) = false

-- The transaction was committed.
abbrev pub took_effect : Answers → Bool
took_effect a =
    is_none a.begins && is_none a.upserts && is_none a.inserts && (is_none a.commits || a.landed)

module _ {F : Type 0} where
  -- The tables after a sequence of calls.
  unfoldable pub replay : Tables F → List (Call F) → Tables F
  replay db [] = db
  replay db (c ∷ cs) = replay (apply c.answers c.event c.time db).1 cs

  abbrev pub no_rows : Tables F
  no_rows = record { trips = []; trip_events = [] }

  -- The calls that took effect, and of those the ones that are about one trip.
  pub effective : List (Call F) → List (Call F)
  effective [] = []
  effective (c ∷ cs) = if took_effect c.answers then c ∷ effective cs else effective cs

  pub about : String → List (Call F) → List (Call F)
  about id [] = []
  about id (c ∷ cs) = if str_eq c.event.trip_id id then c ∷ about id cs else about id cs

  abbrev pub log_row : Call F → LogRow
  log_row c = record {
    trip_id = c.event.trip_id;
    state = c.event.state;
    driver_id = c.event.driver_id;
    at = c.time;
  }

  -- The last call.
  last : Call F → List (Call F) → Call F
  last c [] = c
  last c (d ∷ ds) = last d ds

  -- The last driver that is named, and "" before there is one.
  driver : String → List (Call F) → String
  driver name [] = name
  driver name (c ∷ cs) = driver (if str_eq c.event.driver_id "" then name else c.event.driver_id) cs

  -- What the table should hold of a trip with these calls: rider, region and creation time from the
  -- first, state, surge and time from the last, and the last driver named.
  pub summary : List (Call F) → Option (Trip F)
  unfolding last driver
  summary [] = none
  summary (c ∷ cs) =
      let z = last c cs in
      some (record {
        id = c.event.trip_id;
        rider_id = c.event.rider_id;
        driver_id = driver c.event.driver_id cs;
        region = c.event.region;
        state = z.event.state;
        surge = z.event.surge;
        created_at = c.time;
        updated_at = z.time;
      })

  abbrev pub evolve : Call F → Option (Trip F) → Option (Trip F)
  evolve c none = some (inserted c.event c.time)
  evolve c (some t) = some (updated c.event c.time t)

  find-upsert :
      (id : String) (c : Call F) (ts : List (Trip F))
      → find id (upsert c.event c.time ts)
        ≡ (if str_eq c.event.trip_id id then evolve c (find id ts) else find id ts)
  unfolding find upsert
  find-upsert id c [] = refl
  find-upsert id c (t ∷ ts) = ground (
    arith,
    eq_iff t.id c.event.trip_id,
    eq_iff t.id id,
    eq_iff c.event.trip_id id,
    find-upsert id c ts,
  )

  -- A call that returns no error leaves a row of the event's trip in the event's state.
  pub apply_ok :
      (c : Call F) (db : Tables F)
      → (apply c.answers c.event c.time db).0 ≡ none
      → (t : Trip F) × (find c.event.trip_id (apply c.answers c.event c.time db).1.trips ≡ some t)
        × (t.state ≡ c.event.state)
  unfolding apply written
  apply_ok c db h =
      let now = rw eq_refl at (find-upsert c.event.trip_id c db.trips) in
      elim (Option-cases (find c.event.trip_id db.trips)) [
        | inl new ↦ (inserted c.event c.time, ground (arith, now, new), refl)
        | inr (t, old) ↦ (updated c.event c.time t, ground (arith, now, old), refl)
      ]

  apply_cases :
      (c : Call F) (db : Tables F)
      → (apply c.answers c.event c.time db).1
        ≡ (if took_effect c.answers then written c.event c.time db else db)
  unfolding apply
  apply_cases c db = ground arith

  -- The row of one trip after a transaction that took effect.
  pub find-apply :
      (id : String) (c : Call F) (db : Tables F)
      → took_effect c.answers ≡ true
      → find id (apply c.answers c.event c.time db).1.trips
        ≡ (if str_eq c.event.trip_id id then evolve c (find id db.trips) else find id db.trips)
  unfolding written
  find-apply id c db took = rw (apply_cases c db) (rw took (find-upsert id c db.trips))

  -- The row of one trip under a sequence of calls that are about it.
  grow : Option (Trip F) → List (Call F) → Option (Trip F)
  grow o [] = o
  grow o (c ∷ cs) = grow (evolve c o) cs

  grow-about :
      (id : String) (c : Call F) (cs : List (Call F)) (ts : List (Trip F))
      → grow (find id (upsert c.event c.time ts)) (about id cs)
        ≡ grow (find id ts) (about id (c ∷ cs))
  unfolding about grow
  grow-about id c cs ts = elim (Bool-cases (str_eq c.event.trip_id id)) [
    | inl mine ↦ rw (find-upsert id c ts) (rw mine)
    | inr other ↦ rw (find-upsert id c ts) (rw other)
  ]

  find-replay :
      (id : String) (cs : List (Call F)) (db : Tables F)
      → find id (replay db cs).trips ≡ grow (find id db.trips) (about id (effective cs))
  unfolding replay effective written
  find-replay id [] db = unfold about grow in refl
  find-replay id (c ∷ cs) db = elim (Bool-cases (took_effect c.answers)) [
    | inl took ↦
        rw (replay, apply_cases c db)
          (rw took (
            find-replay id cs (written c.event c.time db)
            ∙ grow-about id c (effective cs) db.trips))
    | inr dropped ↦ rw (replay, apply_cases c db) (rw dropped (find-replay id cs db))
  ]

  log-replay :
      (cs : List (Call F)) (db : Tables F)
      → (replay db cs).trip_events ≡ db.trip_events ++ map log_row (effective cs)
  unfolding replay effective written append_log
  log-replay [] db = sym (append-nil _)
  log-replay (c ∷ cs) db = elim (Bool-cases (took_effect c.answers)) [
    | inl took ↦
        rw (replay, apply_cases c db)
          (rw took (log-replay cs (written c.event c.time db) ∙ append_assoc db.trip_events _ _))
    | inr dropped ↦ rw (replay, apply_cases c db) (rw dropped (log-replay cs db))
  ]

  grow-some :
      (t : Trip F) (c : Call F) (cs : List (Call F))
      → t.state ≡ c.event.state
      → t.surge ≡ c.event.surge
      → t.updated_at ≡ c.time
      → grow (some t) cs
        ≡ some (record t {
          driver_id = driver t.driver_id cs;
          state = (last c cs).event.state;
          surge = (last c cs).event.surge;
          updated_at = (last c cs).time;
        })
  unfolding grow driver last
  grow-some t c [] p q r = ground arith
  grow-some t c (d ∷ cs) p q r = grow-some (updated d.event d.time t) d cs refl refl refl

  grow-summary : (cs : List (Call F)) → grow none cs ≡ summary cs
  unfolding grow summary
  grow-summary [] = refl
  grow-summary (c ∷ cs) = grow-some (inserted c.event c.time) c cs refl refl refl

  -- After any sequence of calls of `Apply` on empty tables, failed transactions included, the row
  -- of a trip is the summary of the committed events about it, and the audit log lists all the
  -- committed events in their order.
  pub replay-summary :
      (id : String) (cs : List (Call F))
      → (find id (replay no_rows cs).trips ≡ summary (about id (effective cs)))
        × ((replay no_rows cs).trip_events ≡ map log_row (effective cs))
  unfolding find
  replay-summary id cs = (find-replay id cs no_rows ∙ grow-summary _, log-replay cs no_rows)
