-- ===== src/Api/Refusals.antt =====
-- cmd/api/main.go: the calls that the front door turns down.
use taxi_app.Base.{
  ℕ, String, false, some, some-injective, ◌≡◌, refl, sym, ◌∙◌, ap, ◌⊎◌, inl, inr, arith,
}
use taxi_app.Float64.{Float64}
use taxi_app.Models.{Trip, TripState, RideRequest}
use taxi_app.Infra.{Env, IsCodec, Reply, reply, missing, failed, Reply-cases}
use taxi_app.Infra.Laws.{IsStringStore}
use taxi_app.Match.{best}
use taxi_app.Surge.{multiplier, record_demand}
use taxi_app.Trip
use taxi_app.Trip.Cache.{cache_key, Lookup, found, not_found, broken, get}
use taxi_app.Api.{Response, Topics, World, transition}
use taxi_app.Api.Frame.{Same}
use taxi_app.Api.Stored.{Cached}
use taxi_app.Api.Transitions.{get-Same, refusal, transition-refused}

module _ {F : Type 0} ⦃fl : Float64 F⦄ (env : Env F) (laws : IsStringStore env.redis)
    (codec : IsCodec env.trip_json) (topics : Topics) where
  open env use {redis, trip_json}
  open laws use {text}

  abbrev Has : redis.Db → String → Trip F → Type 0
  Has = Cached env laws codec topics

  -- What GET answers for a trip.
  abbrev pub asked : String → redis.Db → Reply String
  asked id db = (redis.get (cache_key id) db).0

  -- GET answers, or fails; the answer of the handler has one status or the other.
  abbrev pub Answered : ℕ → (Reply String → Type 0) → String → World env → Response F → Type 0
  Answered status Well id w r =
      (Well (asked id w.db) × (r.status ≡ status))
      ⊎ ((e : String) × (asked id w.db ≡ failed e) × (r.status ≡ 500))

  abbrev pub IsReply : Reply String → Type 0
  IsReply r = (b : String) × (r ≡ reply b)

  abbrev pub IsMissing : Reply String → Type 0
  IsMissing r = r ≡ missing

  -- The lookup of a cached trip finds it, or GET fails.
  lookup-Has :
      (id : String) (db : redis.Db) (t : Trip F)
      → Has db id t
      → (IsReply (asked id db) × ((get env id db).0 ≡ found t))
        ⊎ ((e : String) × (asked id db ≡ failed e) × ((get env id db).0 ≡ broken))
  unfolding get
  lookup-Has id db t (s, p, q) = elim (Reply-cases (asked id db)) [
    | inl (b, r) ↦
        let same : trip_json.unmarshal b ≡ some t =
          ap trip_json.unmarshal (some-injective _ _ (sym (laws.get_reply _ _ _ r) ∙ p)) ∙ q in
        inl ((b, r), ground arith)
    | inr (inl r) ↦ absurd (cc (sym (laws.get_missing _ _ r) ∙ p))
    | inr (inr (e, r)) ↦ inr (e, r, rw r refl)
  ]

  refused-status :
      (dst : TripState) (id : String) (w : World env)
      → ((t : Trip F) × ((get env id w.db).0 ≡ found t) × (Trip.can_transition t.state dst ≡ false))
        ⊎ (((get env id w.db).0 ≡ not_found) ⊎ ((get env id w.db).0 ≡ broken))
      → (l : Lookup F) → (get env id w.db).0 ≡ l
      → ((transition env topics dst id w).0.status ≡ refusal env laws codec topics l)
        × Same env laws w.db (transition env topics dst id w).1.db
        × ((transition env topics dst id w).1.broker ≡ w.broker)
  refused-status dst id w c l got =
      let (code, same) = transition-refused env laws codec topics dst id w c in
      (
        code ∙ ap (refusal env laws codec topics) got,
        rw same (get-Same env laws codec topics id w.db),
        ap (λ v. v.broker) same,
      )

  -- A move that is illegal from the cached state is answered with 409 where GET answers, and with 500
  -- where GET fails; no cached trip changes, and nothing is sent to Kafka.
  pub illegal_rejected :
      (dst : TripState) (id : String) (w : World env) (t : Trip F)
      → Has w.db id t
      → Trip.can_transition t.state dst ≡ false
      → Answered 409 IsReply id w (transition env topics dst id w).0
        × Same env laws w.db (transition env topics dst id w).1.db
        × ((transition env topics dst id w).1.broker ≡ w.broker)
  illegal_rejected dst id w t has illegal = elim (lookup-Has id w.db t has) [
    | inl (well, got) ↦
        let (code, same, quiet) = refused-status dst id w (inl (t, got, illegal)) (found t) got in
        (inl (well, code), same, quiet)
    | inr (e, bad, got) ↦
        let (code, same, quiet) = refused-status dst id w (inr (inr got)) broken got in
        (inr (e, bad, code), same, quiet)
  ]

  -- The database when a ride has found nobody.
  abbrev searched : RideRequest F → redis.Db → redis.Db
  searched req db =
      (best env req (multiplier env req.lat req.lng (record_demand env req.lat req.lng db)).1).1
