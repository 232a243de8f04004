-- ===== src/Pipeline/Delivered.antt =====
-- cmd/tripworker/main.go behind cmd/api/main.go: what is cached is what Postgres holds.
use taxi_app.Base.{
  String, Bool, true, false, Option, none, some, some-injective, List, [], ◌∷◌, ◌≡◌, refl, sym, ◌∙◌,
  ap, subst, inl, inr, Bool-cases, Option-cases, arith, if◌then◌else◌, str_eq, eq_iff, All,
}
use taxi_app.Float64.{Float64}
use taxi_app.Models.{Trip}
use taxi_app.Infra.{Env, Message, IsCodec}
use taxi_app.Infra.Keys.{of_key, All-of_key, of_key-All}
use taxi_app.Infra.Laws.{IsStringStore, IsLog, IsFresh, IsUp, IsEventCodec}
use taxi_app.Trip.Store.{find}
use taxi_app.Trip.Store.Projection.{Call, evolve, took_effect, find-apply, no_rows}
use taxi_app.TripWorker.{Worker, Delivery, handle, consume}
use taxi_app.TripWorker.Durable.{event_in, handle-skip, handle-tables}
use taxi_app.Api.{Topics, World, Request, serve_all}
use taxi_app.Api.Stored.{Cached}
use taxi_app.Pipeline.{timeless, step, take_in, see, view, Keyed, see-Foreign, Foreign}
use taxi_app.Pipeline.Moved.{Ready, said}
use taxi_app.Pipeline.Served.{serve_all-InStep}

module _ {F : Type 0} (env : Env F) where
  open env use {event_json}

  -- A trip whose messages all have one key is seen in that key's messages alone.
  view-of_key :
      (id k : String) (o : Option (Trip F)) (ms : List Message)
      → All (Keyed env id k) ms
      → view env id o (of_key k ms) ≡ view env id o ms
  unfolding view of_key
  view-of_key id k o [] h = refl
  view-of_key id k o (m ∷ ms) h = elim (Bool-cases (str_eq m.key k)) [
    | inl same ↦ rw same (view-of_key id k (see env id o m) ms h.1)
    | inr other ↦
        let foreign : Foreign env id m =
          λ e p q. absurd (ground (arith, h.0 e p q, eq_iff m.key k)) in
        rw other (
          view-of_key id k o ms h.1
          ∙ sym (ap (λ x. view env id x ms) (see-Foreign env id o m foreign)))
  ]

  -- What the worker's reads returned.
  unfoldable pub delivered : List (Delivery env) → List Message
  delivered [] = []
  delivered (d ∷ ds) = let rest = delivered ds in elim d.message [ none ↦ rest | some m ↦ m ∷ rest ]

  abbrev pub shown : Option (Trip F) → Option (Trip F)
  shown none = none
  shown (some t) = some (timeless t)

  shown-evolve :
      (b : Bool) (c : Call F) (o : Option (Trip F))
      → shown (if b then evolve c o else o) ≡ (if b then step (shown o) c.event else shown o)
  shown-evolve true c none = refl
  shown-evolve true c (some t) = refl
  shown-evolve false c o = refl

  handle-shown :
      (id : String) (d : Delivery env) (v : Worker env)
      → took_effect d.answers ≡ true
      → shown (find id (handle env d v).tables.trips)
        ≡ take_in env id (shown (find id v.tables.trips)) (event_in env d)
  handle-shown id d v took = elim (Option-cases (event_in env d)) [
    | inl bad ↦ rw bad (ap (λ x. shown (find id x.tables.trips)) (handle-skip env d v bad))
    | inr (ev, good) ↦ rw good (
        let c : Call F = record { answers = d.answers; event = ev; time = d.time } in
        ap (λ x. shown (find id x.trips)) (handle-tables env d v ev good)
        ∙ ap shown (find-apply id c v.tables took)
        ∙ shown-evolve (str_eq ev.trip_id id) c (find id v.tables.trips))
  ]

  view-delivered :
      (id : String) (o : Option (Trip F)) (d : Delivery env) (ds : List (Delivery env))
      → view env id o (delivered (d ∷ ds))
        ≡ view env id (take_in env id o (event_in env d)) (delivered ds)
  unfolding view see delivered event_in
  view-delivered id o d ds = elim (Option-cases d.message) [
    | inl bad ↦ rw bad refl
    | inr (m, good) ↦ rw good refl
  ]

  abbrev pub AllCommitted : List (Delivery env) → Type 0
  AllCommitted = All (λ d. took_effect d.answers ≡ true)

  -- After the worker's run, a row is the view of what was delivered.
  consume-view :
      (id : String) (ds : List (Delivery env)) (v : Worker env)
      → AllCommitted ds
      → shown (find id (consume env ds v).tables.trips)
        ≡ view env id (shown (find id v.tables.trips)) (delivered ds)
  unfolding consume
  consume-view id [] v h = unfold view delivered in refl
  consume-view id (d ∷ ds) v h =
      consume-view id ds (handle env d v) h.1
      ∙ ap (λ o. view env id o (delivered ds)) (handle-shown id d v h.0)
      ∙ sym (view-delivered id (shown (find id v.tables.trips)) d ds)

  shown-row :
      (o : Option (Trip F)) (t : Trip F)
      → shown o ≡ some (timeless t)
      → (row : Trip F) × (o ≡ some row) × (timeless row ≡ timeless t)
  shown-row none t h = absurd (cc h)
  shown-row (some row) t h = (row, refl, some-injective _ _ h)

module _ {F : Type 0} ⦃fl : Float64 F⦄ (env : Env F) (laws : IsStringStore env.redis)
    (codec : IsCodec env.trip_json) (events : IsEventCodec env) (kafka : IsLog env.kafka)
    (up : IsUp env) (ids : IsFresh env) (topics : Topics) where
  -- Where no SET and no write to Kafka fails, uuids are fresh and the two topics differ: after any
  -- requests one after the other, from a front door whose topic is in step with its cache, and after
  -- a worker with empty tables has read the topic, the messages of each key in their order and those
  -- of different keys in any, failed reads between them, and every transaction was committed, a trip
  -- that is cached has a row in Postgres that agrees with it in all but the two times.
  pub persisted :
      (rs : List (Request F)) (w : World env) (ds : List (Delivery env)) (v : Worker env)
      (id : String) (t : Trip F)
      → str_eq topics.location topics.trip ≡ false
      → Ready env laws codec events kafka up ids topics w
      → v.tables ≡ no_rows
      → AllCommitted env ds
      → ((k : String)
          → of_key k (delivered env ds)
            ≡ of_key k (said env laws codec events kafka up ids topics (serve_all env topics rs w)))
      → Cached env laws codec topics (serve_all env topics rs w).db id t
      → (row : Trip F) × (find id (consume env ds v).tables.trips ≡ some row)
        × (timeless row ≡ timeless t)
  persisted rs w ds v id t apart ready empty committed order c =
      let w' = serve_all env topics rs w in
      let sent = said env laws codec events kafka up ids topics w' in
      let (own, seen, keyed) =
        (serve_all-InStep env laws codec events kafka up ids topics apart rs w ready).traced id t
          c in
      let arrived : All (Keyed env id t.region) (delivered env ds) =
        All-of_key (Keyed env id t.region) (delivered env ds) λ k.
          subst (λ ms. All (Keyed env id t.region) ms) (sym (order k))
            (of_key-All (Keyed env id t.region) k sent keyed) in
      shown-row env _ t (
        consume-view env id ds v committed
        ∙ unfold find in
          ap (λ x. view env id (shown env (find id x.trips)) (delivered env ds)) empty
          ∙ sym (view-of_key env id t.region none (delivered env ds) arrived)
          ∙ ap (view env id none) (order t.region)
          ∙ view-of_key env id t.region none sent keyed
          ∙ seen)
