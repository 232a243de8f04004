-- ===== src/TripWorker/Restarts.antt =====
-- cmd/tripworker/main.go: the process from its start to its end, and what its lives leave in Postgres.
use taxi_app.Base.{
  ℕ, String, Bool, true, false, Option, none, some, List, [], ◌∷◌, ◌++◌, map, ◌≡◌, refl, sym, ◌∙◌,
  ap, inl, inr, Option-cases,
}
use taxi_app.Infra.{Env}
use taxi_app.Startup.{connect}
use taxi_app.Boot.{Boot, serving, fatal, panics, boot_tripworker}
use taxi_app.Trip.Store.{Tables, or_empty, migrate, find, apply}
use taxi_app.Trip.Store.Projection.{
  Call, replay, summary, about, effective, log_row, replay-summary,
}
use taxi_app.TripWorker.{Worker, Delivery, consume}
use taxi_app.TripWorker.Durable.{event_in, calls_of, consume-replay}

module _ {F : Type 0} (env : Env F) where
  -- One life of the process: what `pgxpool.New` and the pool's pings answer, the error of `Migrate`
  -- and whether it took place all the same, what Redis answers, the configured brokers, and what is read
  -- until the end.
  pub record Life : Type 0 where
    pub create : ℕ → Option String
    pub answer : ℕ → Option String
    pub migration : Option String
    pub landed : Bool
    pub redis : ℕ → Option String
    pub brokers : List String
    pub deliveries : List (Delivery env)

  -- What outlives the process; `none` where Postgres has no tables yet.
  pub record Lasting : Type 0 where
    pub tables : Option (Tables F)
    pub db : env.redis.Db
    pub clock : env.Clock

  -- The loop, from the tables that the migration left.
  work : List (Delivery env) → Lasting → Lasting
  work ds s =
      let start : Worker env = record { tables = or_empty s.tables; db = s.db; clock = s.clock } in
      let w = consume env ds start in record { tables = some w.tables; db = w.db; clock = w.clock }

  -- `Migrate` runs where `Connect` has succeeded.
  migrated : Life → Lasting → Lasting
  migrated l s =
      let tables = (migrate l.migration l.landed s.tables).1 in
      elim (connect l.create l.answer).error [ some _ ↦ s | none ↦ record s { tables = tables } ]

  -- The loop runs where the start has succeeded.
  run : Boot → List (Delivery env) → Lasting → Lasting
  unfolding work
  run (fatal _) ds s = s
  run panics ds s = s
  run serving ds s = work ds s

  -- `main`
  live : Life → Lasting → Lasting
  unfolding run migrated
  live l s =
      run (boot_tripworker l.create l.answer l.migration l.redis l.brokers) l.deliveries
        (migrated l s)

  unfoldable pub lives : List Life → Lasting → Lasting
  unfolding live
  lives [] s = s
  lives (l ∷ ls) s = lives ls (live l s)

  pub read_by : Boot → List (Delivery env) → List (Delivery env)
  read_by (fatal _) ds = []
  read_by panics ds = []
  read_by serving ds = ds

  -- What a process reads, if its start succeeds.
  abbrev pub reads : Life → List (Delivery env)
  reads l = read_by (boot_tripworker l.create l.answer l.migration l.redis l.brokers) l.deliveries

  pub all_reads : List Life → List (Delivery env)
  all_reads [] = []
  all_reads (l ∷ ls) = reads l ++ all_reads ls

  calls_of-append :
      (ds es : List (Delivery env)) → calls_of env (ds ++ es) ≡ calls_of env ds ++ calls_of env es
  unfolding calls_of
  calls_of-append [] es = refl
  calls_of-append (d ∷ ds) es = elim (Option-cases (event_in env d)) [
    | inl bad ↦ rw (bad, calls_of) (calls_of-append ds es)
    | inr (ev, good) ↦
        let c : Call F = record { answers = d.answers; event = ev; time = d.time } in
        rw (good, calls_of) (ap (λ cs. c ∷ cs) (calls_of-append ds es))
  ]

  replay-append :
      (cs bs : List (Call F)) (db : Tables F) → replay db (cs ++ bs) ≡ replay (replay db cs) bs
  unfolding replay
  replay-append [] bs db = refl
  replay-append (c ∷ cs) bs db = replay-append cs bs (apply c.answers c.event c.time db).1

  migrate_keeps :
      (e : Option String) (landed : Bool) (db : Option (Tables F))
      → or_empty (migrate e landed db).1 ≡ or_empty db
  unfolding migrate
  migrate_keeps none landed db = refl
  migrate_keeps (some e) true db = refl
  migrate_keeps (some e) false db = refl

  migrated_keeps : (l : Life) (s : Lasting) → or_empty (migrated l s).tables ≡ or_empty s.tables
  unfolding migrated
  migrated_keeps l s = elim (Option-cases (connect l.create l.answer).error) [
    | inr (e, bad) ↦ rw (bad, or_empty) refl
    | inl good ↦ rw (good, or_empty) (migrate_keeps l.migration l.landed s.tables)
  ]

  run-replay :
      (b : Boot) (ds : List (Delivery env)) (s : Lasting)
      → or_empty (run b ds s).tables ≡ replay (or_empty s.tables) (calls_of env (read_by b ds))
  unfolding run work read_by replay calls_of
  run-replay (fatal _) ds s = refl
  run-replay panics ds s = refl
  run-replay serving ds s = consume-replay env ds _

  live-replay :
      (l : Life) (s : Lasting)
      → or_empty (live l s).tables ≡ replay (or_empty s.tables) (calls_of env (reads l))
  unfolding live
  live-replay l s =
      run-replay _ l.deliveries (migrated l s)
      ∙ ap (λ v. replay v (calls_of env (reads l))) (migrated_keeps l s)

  lives-replay :
      (ls : List Life) (s : Lasting)
      → or_empty (lives ls s).tables ≡ replay (or_empty s.tables) (calls_of env (all_reads ls))
  unfolding lives all_reads
  lives-replay [] s = unfold replay calls_of in refl
  lives-replay (l ∷ ls) s =
      lives-replay ls (live l s)
      ∙ ap (λ v. replay v (calls_of env (all_reads ls))) (live-replay l s)
      ∙ sym
          (replay-append (calls_of env (reads l)) (calls_of env (all_reads ls)) (or_empty s.tables))
      ∙ ap (replay (or_empty s.tables)) (sym (calls_of-append (reads l) (all_reads ls)))

  -- However often the worker is started, and whichever of its starts fail, from a database without
  -- tables, the row of a trip is the summary of the committed events about it that the processes which
  -- came to serve have read, and the audit log lists all the committed ones in the order in which
  -- they were read.
  pub lives-summary :
      (id : String) (ls : List Life) (s : Lasting)
      → s.tables ≡ none
      → (find id (or_empty (lives ls s).tables).trips
          ≡ summary (about id (effective (calls_of env (all_reads ls)))))
        × ((or_empty (lives ls s).tables).trip_events
            ≡ map log_row (effective (calls_of env (all_reads ls))))
  lives-summary id ls s h =
      rw (lives-replay ls s ∙ ap (λ t. replay (or_empty t) (calls_of env (all_reads ls))) h)
        (replay-summary id (calls_of env (all_reads ls)))
