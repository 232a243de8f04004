-- ===== src/Pipeline/Moved.antt =====
-- cmd/api/main.go: start, complete and cancel keep the trip topic in step with the cache.
use taxi_app.Base.{
  String, none, some, List, ◌≡◌, ◌≢◌, refl, sym, ◌∙◌, ap, subst, ◌⊎◌, inl, inr, Bool-cases, arith,
  eq_iff, All,
}
use taxi_app.Base.Int.{ℤ}
use taxi_app.Float64.{Float64}
use taxi_app.Models.{Trip, TripState}
use taxi_app.Infra.{Env, Message, IsCodec}
use taxi_app.Infra.Laws.{IsStringStore, IsLog, IsFresh, IsUp, IsEventCodec}
use taxi_app.Trip
use taxi_app.Api.{Response, Topics, World, event_of, store_and_emit, transition}
use taxi_app.Api.Stored.{Cached}
use taxi_app.Api.Transitions.{
  get-cases, get-Same, moved, timed, looked, transition-legal, transition-refused,
}
use taxi_app.Pipeline.{timeless, step, view, Keyed, Foreign, view-Foreign}
use taxi_app.Pipeline.Logged.{trip_log, InStep, Same-InStep, store_and_emit-InStep}

module _ {F : Type 0} ⦃fl : Float64 F⦄ (env : Env F) (laws : IsStringStore env.redis)
    (codec : IsCodec env.trip_json) (events : IsEventCodec env) (kafka : IsLog env.kafka)
    (up : IsUp env) (ids : IsFresh env) (topics : Topics) where
  open env use {redis, trip_json, event_json}
  open ids use {Used}

  abbrev pub Ready : World env → Type 0
  Ready = InStep env laws codec events kafka up ids topics

  abbrev pub said : World env → List Message
  said = trip_log env laws codec events kafka up ids topics

  -- An event of a trip brings the row up to date if it was right but for state and time.
  pub step-event :
      (t u : Trip F) (at : ℤ)
      → t.id ≡ u.id
      → t.rider_id ≡ u.rider_id
      → t.region ≡ u.region
      → ((t.driver_id ≡ u.driver_id) ⊎ (t.driver_id ≡ ""))
      → step (some (timeless t)) (event_of env topics u at) ≡ some (timeless u)
  unfolding event_of
  step-event t u at i r g (inl d) = ground arith
  step-event t u at i r g (inr d) = ground (arith, eq_iff u.driver_id "")

  -- A cached trip's id was given out.
  pub Cached-given :
      (w : World env) (t : Trip F) (id : String)
      → Ready w
      → Cached env laws codec topics w.db id t
      → (j : String) → ¬ Used w.ids j
      → t.id ≢ j
  Cached-given w t id h c j n e =
      let (own, seen, keyed) = h.traced id t c in
      let j_id : j ≡ id = sym e ∙ own in
      absurd (
        cc (
          sym (
            view-Foreign env id none (said w)
              (subst (λ x. All (Foreign env x) (said w)) j_id (h.ahead j n)))
          ∙ seen))

  -- A cached trip may be written again in another state.
  again-InStep :
      (t u : Trip F) (id : String) (r : Response F) (w : World env)
      → Ready w
      → Cached env laws codec topics w.db id t
      → timeless (record t { state = u.state }) ≡ timeless u
      → Ready (store_and_emit env topics u r w).1
  again-InStep t u id r w h c e =
      let (own, seen, keyed) = h.traced id t c in
      let same : id ≡ u.id = sym own ∙ ap (λ x. x.id) e in
      let place : t.region ≡ u.region = ap (λ x. x.region) e in
      store_and_emit-InStep env laws codec events kafka up ids topics u r w h
        (λ j n p. Cached-given w t id h c j n (own ∙ same ∙ p))
        (subst (λ x. All (Keyed env x u.region) (said w)) same
          (subst (λ k. All (Keyed env id k) (said w)) place keyed))
        λ at.
          ap (λ o. step o (event_of env topics u at))
            (subst (λ x. view env x none (said w) ≡ some (timeless t)) same seen)
          ∙ step-event t u at (own ∙ same) (ap (λ x. x.rider_id) e) place
              (inl (ap (λ x. x.driver_id) e))

  pub transition-InStep :
      (dst : TripState) (id : String) (w : World env)
      → Ready w
      → Ready (transition env topics dst id w).1
  transition-InStep dst id w h =
      let quiet : Ready (looked env laws codec topics id w) =
        Same-InStep env laws codec events kafka up ids topics w _
          (get-Same env laws codec topics id w.db) refl refl h in
      elim (get-cases env laws codec topics id w.db) [
        | inl (t, got, has) ↦ elim (Bool-cases (Trip.can_transition t.state dst)) [
          | inl legal ↦ rw (transition-legal env laws codec topics dst id w t got legal) (
              again-InStep t (moved env laws codec topics dst w t) id _
                (timed env laws codec topics id w)
                (Same-InStep env laws codec events kafka up ids topics w _
                  (get-Same env laws codec topics id w.db) refl refl h)
                (let (b, p, q) = has in (b, get-Same env laws codec topics id w.db id ∙ p, q)) refl)
          | inr illegal ↦
              rw (transition-refused env laws codec topics dst id w (inl (t, got, illegal))).1 quiet
        ]
        | inr (inl (got, empty)) ↦
            rw (transition-refused env laws codec topics dst id w (inr (inl got))).1 quiet
        | inr (inr got) ↦
            rw (transition-refused env laws codec topics dst id w (inr (inr got))).1 quiet
      ]
