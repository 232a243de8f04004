-- ===== src/Pipeline/Logged.antt =====
-- cmd/api/main.go: the trip topic keeps up with the cache.
use taxi_app.Base.{
  String, none, some, some-injective, List, [], ◌∷◌, ◌++◌, ◌≡◌, ◌≢◌, refl, sym, ◌∙◌, ap, subst, ◌⊎◌,
  inl, inr, Bool-cases, Option-cases, arith, str_eq, eq_iff, eq_refl, All, All-append,
}
use taxi_app.Base.Int.{ℤ}
use taxi_app.Float64.{Float64}
use taxi_app.Models.{Trip, unix_milli}
use taxi_app.Infra.{Env, Message, IsCodec}
use taxi_app.Infra.Laws.{IsStringStore, IsLog, IsFresh, IsUp, IsEventCodec}
use taxi_app.Trip.Cache.{put}
use taxi_app.Api.{Response, Topics, World, event_of, emit, store_and_emit, or_nil}
use taxi_app.Api.Frame.{Same}
use taxi_app.Api.Stored.{Cached}
use taxi_app.Api.Transitions.{put-Has}
use taxi_app.Pipeline.{timeless, step, see, view, view-append, Keyed, Foreign, see-Foreign}

module _ {F : Type 0} ⦃fl : Float64 F⦄ (env : Env F) (laws : IsStringStore env.redis)
    (codec : IsCodec env.trip_json) (events : IsEventCodec env) (kafka : IsLog env.kafka)
    (up : IsUp env) (ids : IsFresh env) (topics : Topics) where
  open env use {redis, trip_json, event_json}
  open ids use {Used}

  -- The messages of the trip topic.
  abbrev pub trip_log : World env → List Message
  trip_log w = kafka.log w.broker topics.trip

  -- What the messages say of a cached trip is what the cache says, and they all have one key.
  abbrev pub Traced : List Message → String → Trip F → Type 0
  Traced ms id t =
      (t.id ≡ id) × (view env id none ms ≡ some (timeless t)) × All (Keyed env id t.region) ms

  -- All cached trips are traced, and no message is about an id that is yet to come.
  pub record InStep (w : World env) : Type 0 where
    pub traced :
        (id : String) (t : Trip F)
        → Cached env laws codec topics w.db id t
        → Traced (trip_log w) id t
    pub ahead : (id : String) → ¬ Used w.ids id → All (Foreign env id) (trip_log w)

  pub Same-InStep :
      (w w' : World env)
      → Same env laws w.db w'.db
      → trip_log w' ≡ trip_log w
      → w'.ids ≡ w.ids
      → InStep w
      → InStep w'
  Same-InStep w w' s l i h = record {
    traced = λ id t (b, p, q).
        subst (λ ms. Traced ms id t) (sym l) (h.traced id t (b, sym (s id) ∙ p, q));
    ahead = λ id n.
        subst (λ ms. All (Foreign env id) ms) (sym l)
          (h.ahead id (λ u. n (subst (λ x. Used x id) (sym i) u)));
  }

  -- The message that `emit` sends at a time.
  pub told : Trip F → ℤ → Message
  told t at = record {
    key = t.region;
    value = or_nil (event_json.marshal (event_of env topics t at));
  }

  pub emit-trip_log :
      (t : Trip F) (w : World env)
      → trip_log (emit env topics t w)
        ≡ trip_log w ++ (told t (unix_milli (env.now w.clock).0) ∷ [])
  unfolding emit told
  emit-trip_log t w =
      kafka.appended topics.trip topics.trip _ w.broker (up.writes topics.trip _ w.broker)
      ∙ rw (eq_refl topics.trip) refl

  -- It reads as the event, or as none.
  pub told-cases :
      (t : Trip F) (at : ℤ)
      → (event_json.unmarshal (told t at).value ≡ some (event_of env topics t at))
        ⊎ (event_json.unmarshal (told t at).value ≡ none)
  unfolding told
  told-cases t at = elim (Option-cases (event_json.marshal (event_of env topics t at))) [
    | inl bad ↦ inr (rw bad events.nothing)
    | inr (b, good) ↦ inl (rw good (events.codec.unmarshal-marshal _ b good))
  ]

  -- It reads as the event where the trip can be written to the cache.
  told-event :
      (t : Trip F) (at : ℤ) (s : String)
      → trip_json.marshal t ≡ some s
      → event_json.unmarshal (told t at).value ≡ some (event_of env topics t at)
  unfolding told event_of
  told-event t at s h =
      let (b, good) = events.marshals t (event_of env topics t at) s h refl in
      rw good (events.codec.unmarshal-marshal _ b good)

  pub told-Keyed : (id : String) (t : Trip F) (at : ℤ) → Keyed env id t.region (told t at)
  unfolding told
  told-Keyed id t at e p q = refl

  pub told-Foreign : (j : String) (t : Trip F) (at : ℤ) → t.id ≢ j → Foreign env j (told t at)
  unfolding event_of
  told-Foreign j t at n e p q = elim (told-cases t at) [
    | inl says ↦ n (ap (λ x. x.trip_id) (some-injective _ _ (sym says ∙ p)) ∙ q)
    | inr none_ ↦ absurd (cc (sym none_ ∙ p))
  ]

  pub told-Traced :
      (ms : List Message) (j : String) (u t : Trip F) (at : ℤ)
      → t.id ≢ j
      → Traced ms j u
      → Traced (ms ++ (told t at ∷ [])) j u
  told-Traced ms j u t at n (own, seen, keyed) = (
    own,
    view-append env j none ms (told t at)
        ∙ see-Foreign env j _ (told t at) (told-Foreign j t at n)
        ∙ seen,
    All-append (Keyed env j u.region) ms _ keyed
        ((λ e p q. absurd (told-Foreign j t at n e p q)), tt),
  )

  put-cases :
      (t : Trip F) (db : redis.Db)
      → (put env t db ≡ (some "json", db))
        ⊎ ((s : String) × (trip_json.marshal t ≡ some s) × ((put env t db).0 ≡ none))
  unfolding put
  put-cases t db = elim (Option-cases (trip_json.marshal t)) [
    | inl bad ↦ inl (rw (bad, put) refl)
    | inr (s, good) ↦ inr (s, good, rw (good, put) (up.sets _ s _ db))
  ]

  store_and_emit-done :
      (t : Trip F) (r : Response F) (w : World env)
      → (put env t w.db).0 ≡ none
      → (store_and_emit env topics t r w).1
        ≡ emit env topics t (record w { db = (put env t w.db).1 })
  unfolding store_and_emit
  store_and_emit-done t r w h = rw (h, store_and_emit) refl

  store_and_emit-lost :
      (t : Trip F) (r : Response F) (w : World env)
      → put env t w.db ≡ (some "json", w.db)
      → (store_and_emit env topics t r w).1 ≡ w
  unfolding store_and_emit
  store_and_emit-lost t r w h =
      rw (ap (λ x. x.0) h, store_and_emit) (ap (λ x. record w { db = x.1 }) h)

  Cached-unique :
      (db : redis.Db) (id : String) (t u : Trip F)
      → Cached env laws codec topics db id t
      → Cached env laws codec topics db id u
      → t ≡ u
  Cached-unique db id t u (b, p, q) (c, r, s) =
      let e : b ≡ c = some-injective _ _ (sym p ∙ r) in
      some-injective _ _ (sym q ∙ ap trip_json.unmarshal e ∙ s)

  -- The message about a trip that was written brings its row up to date.
  told-own :
      (ms : List Message) (t : Trip F) (at : ℤ) (s : String)
      → trip_json.marshal t ≡ some s
      → step (view env t.id none ms) (event_of env topics t at) ≡ some (timeless t)
      → All (Keyed env t.id t.region) ms
      → Traced (ms ++ (told t at ∷ [])) t.id t
  unfolding see event_of
  told-own ms t at s h row keyed = (
    refl,
    view-append env t.id none ms (told t at) ∙ rw (told-event t at s h, eq_refl t.id) row,
    All-append (Keyed env t.id t.region) ms _ keyed (told-Keyed t.id t at, tt),
  )

  -- A trip whose id was given out and whose row the next message will bring up to date may be written and announced.
  pub store_and_emit-InStep :
      (t : Trip F) (r : Response F) (w : World env)
      → InStep w
      → ((j : String) → ¬ Used w.ids j → t.id ≢ j)
      → All (Keyed env t.id t.region) (trip_log w)
      → ((at : ℤ)
          → step (view env t.id none (trip_log w)) (event_of env topics t at) ≡ some (timeless t))
      → InStep (store_and_emit env topics t r w).1
  unfolding emit
  store_and_emit-InStep t r w h used keyed row = elim (put-cases t w.db) [
    | inl lost ↦ rw (store_and_emit-lost t r w lost) h
    | inr (s, good, done) ↦
        let stored : World env = record w { db = (put env t w.db).1 } in
        let at = unix_milli (env.now w.clock).0 in
        let (new, others) = put-Has env laws codec topics t w.db done in
        let more = trip_log w ++ (told t at ∷ []) in
        let grown = λ (P : List Message → Type 0). subst P (sym (emit-trip_log t stored)) in
        rw (store_and_emit-done t r w done) (record {
          traced = λ j u c.
              grown (λ ms. Traced ms j u)
                (elim (Bool-cases (str_eq t.id j)) [
                  | inl same ↦
                      let own = (eq_iff t.id j).0 same in
                      let again = subst (λ x. Cached env laws codec topics stored.db x t) own new in
                      subst (λ v. Traced more j v) (Cached-unique stored.db j t u again c)
                        (subst (λ x. Traced more x t) own
                          (told-own (trip_log w) t at s good (row at) keyed))
                  | inr other ↦
                      let apart : t.id ≢ j = λ e. absurd (ground (arith, eq_iff t.id j)) in
                      let (b, p, q) = c in
                      told-Traced (trip_log w) j u t at apart
                        (h.traced j u (b, sym (others j (λ e. apart (sym e))) ∙ p, q))
                ]);
          ahead = λ j n.
              grown (λ ms. All (Foreign env j) ms)
                (All-append (Foreign env j) (trip_log w) _ (h.ahead j n)
                  (told-Foreign j t at (used j n), tt));
        })
  ]
