-- ===== src/Api/Transitions.antt =====
-- cmd/api/main.go: what a call of start, complete or cancel does to the cached trip.
use taxi_app.Base.{
  ℕ, String, true, false, none, ◌≡◌, ◌≢◌, refl, ◌∙◌, ap, subst, ◌⊎◌, inl, inr, Bool-cases,
  Option-cases, arith, str_eq, eq_iff, eq_refl,
}
use taxi_app.Float64.{Float64}
use taxi_app.Models.{Trip, TripState}
use taxi_app.Infra.{Env, IsCodec, Reply-cases}
use taxi_app.Infra.Laws.{IsStringStore}
use taxi_app.Trip
use taxi_app.Trip.Cache.{cache_key, Lookup, found, not_found, broken, put, get, hour}
use taxi_app.Api.{Body, Response, Topics, World, emit, store_and_emit, move, transition}
use taxi_app.Api.Frame.{Same, cache_key-injective}
use taxi_app.Api.Stored.{Cached, Stored}

module _ {F : Type 0} ⦃fl : Float64 F⦄ (env : Env F) (laws : IsStringStore env.redis)
    (codec : IsCodec env.trip_json) (topics : Topics) where
  open env use {redis, trip_json}
  open laws use {text, get_reply, get_missing, get_text, set_or_not, set_ok}

  abbrev pub Has : redis.Db → String → Trip F → Type 0
  Has = Cached env laws codec topics

  -- What a lookup answers tells what is cached.
  pub get-cases :
      (id : String) (db : redis.Db)
      → ((t : Trip F) × ((get env id db).0 ≡ found t) × Has db id t)
        ⊎ ((((get env id db).0 ≡ not_found) × (text db (cache_key id) ≡ none))
            ⊎ ((get env id db).0 ≡ broken))
  unfolding get
  get-cases id db = elim (Reply-cases (redis.get (cache_key id) db).0) [
    | inl (b, r) ↦ elim (Option-cases (trip_json.unmarshal b)) [
      | inl bad ↦ inr (inr (ground arith))
      | inr (t, good) ↦ inl (t, ground arith, (b, get_reply _ _ _ r, good))
    ]
    | inr (inl r) ↦ inr (inl (rw r, get_missing _ _ r))
    | inr (inr (e, r)) ↦ inr (inr (rw r))
  ]

  pub get-Same : (id : String) (db : redis.Db) → Same env laws db (get env id db).1
  unfolding get
  get-Same id db j = get_text (cache_key id) (cache_key j) db

  -- A write that succeeds is read back, and leaves the other trips alone.
  pub put-Has :
      (t : Trip F) (db : redis.Db)
      → (put env t db).0 ≡ none
      → Has (put env t db).1 t.id t
        × ((j : String) → j ≢ t.id → text (put env t db).1 (cache_key j) ≡ text db (cache_key j))
  unfolding put
  put-Has t db h = elim (Option-cases (trip_json.marshal t)) [
    | inl bad ↦ absurd (ground arith)
    | inr (s, good) ↦
        let done : (redis.set (cache_key t.id) s hour db).0 ≡ none = ground arith in
        let after = λ (j : String). set_ok (cache_key t.id) s (cache_key j) hour db done in
        rw (good, put)
          (
            (s, after t.id ∙ rw eq_refl, codec.unmarshal-marshal t s good),
            λ j apart.
                after j
                ∙ ground (arith, eq_iff (cache_key t.id) (cache_key j), cache_key-injective t.id j),
          )
  ]

  store_and_emit-ok :
      (t : Trip F) (r : Response F) (w : World env)
      → r.status ≡ 200
      → (store_and_emit env topics t r w).0.status ≡ 200
      → (put env t w.db).0 ≡ none
  unfolding store_and_emit
  store_and_emit-ok t r w h k = elim (Option-cases (put env t w.db).0) [
    | inl good ↦ good
    | inr (e, bad) ↦ absurd (ground arith)
  ]

  pub store_and_emit-db :
      (t : Trip F) (r : Response F) (w : World env)
      → (store_and_emit env topics t r w).1.db ≡ (put env t w.db).1
  unfolding store_and_emit emit
  store_and_emit-db t r w = elim (Option-cases (put env t w.db).0) [
    | inl good ↦ rw (good, store_and_emit)
    | inr (e, bad) ↦ rw (bad, store_and_emit)
  ]

  -- The world after the lookup, and after the clock was read.
  abbrev pub looked : String → World env → World env
  looked id w = record w { db = (get env id w.db).1 }

  abbrev pub timed : String → World env → World env
  timed id w = record w { db = (get env id w.db).1; clock = (env.now w.clock).1 }

  abbrev pub moved : TripState → World env → Trip F → Trip F
  moved dst w t = record t { state = dst; updated_at = (env.now w.clock).0 }

  pub transition-legal :
      (dst : TripState) (id : String) (w : World env) (t : Trip F)
      → (get env id w.db).0 ≡ found t
      → Trip.can_transition t.state dst ≡ true
      → transition env topics dst id w
        ≡ store_and_emit env topics
            (moved dst w t)
            (record { status = 200; body = Body.trip (moved dst w t) })
            (timed id w)
  unfolding transition move
  transition-legal dst id w t got legal = rw got (rw legal)

  -- The answer to a lookup that leads to no move.
  abbrev pub refusal : Lookup F → ℕ
  refusal not_found = 404
  refusal broken = 500
  refusal (found t) = 409

  -- No other lookup leads to a move, and none of these touches the broker.
  pub transition-refused :
      (dst : TripState) (id : String) (w : World env)
      → ((t : Trip F) × ((get env id w.db).0 ≡ found t) × (Trip.can_transition t.state dst ≡ false))
        ⊎ (((get env id w.db).0 ≡ not_found) ⊎ ((get env id w.db).0 ≡ broken))
      → ((transition env topics dst id w).0.status ≡ refusal (get env id w.db).0)
        × ((transition env topics dst id w).1 ≡ looked id w)
  unfolding transition move
  transition-refused dst id w (inl (t, got, illegal)) = rw got (rw illegal (refl, refl))
  transition-refused dst id w (inr (inl got)) = rw got (refl, refl)
  transition-refused dst id w (inr (inr got)) = rw got (refl, refl)

  -- The move from `w` to `w'`.
  abbrev pub Done : TripState → String → World env → Trip F → World env → Type 0
  Done dst id w t w' =
      Has w.db id t
      × (Trip.can_transition t.state dst ≡ true)
      × Has w'.db id (moved dst w t)
      × ((j : String) → (j ≡ id) ⊎ (text w'.db (cache_key j) ≡ text w.db (cache_key j)))
      × (w'.broker
          ≡ (emit env topics (moved dst w t) (record w { clock = (env.now w.clock).1 })).broker)

  store_and_emit-broker :
      (t : Trip F) (r : Response F) (w : World env)
      → (put env t w.db).0 ≡ none
      → (store_and_emit env topics t r w).1.broker ≡ (emit env topics t w).broker
  unfolding store_and_emit emit
  store_and_emit-broker t r w h = rw (h, store_and_emit)

  transition-Done :
      (dst : TripState) (id : String) (w : World env) (t : Trip F)
      → Stored env laws codec topics w.db
      → Has w.db id t
      → Trip.can_transition t.state dst ≡ true
      → transition env topics dst id w
        ≡ store_and_emit env topics
            (moved dst w t)
            (record { status = 200; body = Body.trip (moved dst w t) })
            (timed id w)
      → (transition env topics dst id w).0.status ≡ 200
      → (t : Trip F) × Done dst id w t (transition env topics dst id w).1
  unfolding emit
  transition-Done dst id w t h has legal e k =
      let answer : Response F = record { status = 200; body = Body.trip (moved dst w t) } in
      let wrote = store_and_emit-ok (moved dst w t) answer (timed id w) refl (rw e at k) in
      let (new, others) = put-Has (moved dst w t) (timed id w).db wrote in
      let own = (h id t has).0 in
      (
        t,
        rw e (
            rw (store_and_emit-db (moved dst w t) answer (timed id w)) (
              has,
              legal,
              subst (λ j. Has (put env (moved dst w t) (timed id w).db).1 j (moved dst w t)) own
                  new,
              λ j. elim (Bool-cases (str_eq j id)) [
                | inl same ↦ inl ((eq_iff j id).0 same)
                | inr other ↦ inr (
                    others j (λ p. absurd (ground (arith, eq_iff j id, p ∙ own)))
                    ∙ get-Same id w.db j)
              ],
              store_and_emit-broker (moved dst w t) answer (timed id w) wrote,
            )),
      )

  -- Where every cached trip is tracked, a transition that answers 200 found the trip in a state from
  -- which the move is legal, leaves it cached in the target state with the clock's time of update
  -- and nothing else changed, leaves the other trips of the cache as they were, and sends Kafka
  -- what `emit` sends of the moved trip.
  pub transition_ok :
      (dst : TripState) (id : String) (w : World env)
      → Stored env laws codec topics w.db
      → (transition env topics dst id w).0.status ≡ 200
      → (t : Trip F) × Done dst id w t (transition env topics dst id w).1
  transition_ok dst id w h k = elim (get-cases id w.db) [
    | inl (t, got, has) ↦ elim (Bool-cases (Trip.can_transition t.state dst)) [
      | inl legal ↦ transition-Done dst id w t h has legal (transition-legal dst id w t got legal) k
      | inr illegal ↦
          absurd (
            omega (arith, (transition-refused dst id w (inl (t, got, illegal))).0 ∙ ap refusal got))
    ]
    | inr (inl (got, empty)) ↦
        absurd (omega (arith, (transition-refused dst id w (inr (inl got))).0 ∙ ap refusal got))
    | inr (inr got) ↦
        absurd (omega (arith, (transition-refused dst id w (inr (inr got))).0 ∙ ap refusal got))
  ]
