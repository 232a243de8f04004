-- ===== src/Api/Unreserved/Again.antt =====
-- cmd/api/main.go, `handleRide`: the same driver is assigned again.
use taxi_app.Base.{
  String, false, none, some, List, ◌≡◌, ◌≢◌, refl, sym, ◌∙◌, ap, ◌⊎◌, inl, inr, Bool-cases,
  Option-cases, arith, str_eq, eq_iff,
}
use taxi_app.Float64.{Float64}
use taxi_app.Models.{Trip, RideRequest, Candidate, assigned}
use taxi_app.Infra.{Env}
use taxi_app.Region
use taxi_app.Infra.Answers.{IsAnswering}
use taxi_app.Geo.Steady.{IsLively}
use taxi_app.Match.{Choice, chosen, nobody, failure, best}
use taxi_app.Surge.{multiplier, record_demand}
use taxi_app.Trip.Cache.{put}
use taxi_app.Api.{
  text, matched, Response, Topics, World, Request, store_and_emit, emit, new_trip, assign, ride,
  handle_ride, serve_all,
}
use taxi_app.Api.Unreserved.{Drivers, choice_at, best-Drivers, ride-Drivers, serve_all-Drivers}

same_match :
    {F : Type 0} (t u : Trip F) (d e : Candidate F) (ds es : List (Candidate F)) (m n : F)
    → matched u e es m ≡ matched t d ds n
    → (u ≡ t) × (e ≡ d) × (es ≡ ds)
same_match t u d e ds es m n h = (ground arith, ground arith, ground arith)

module _ {F : Type 0} ⦃fl : Float64 F⦄ (env : Env F) (topics : Topics) where
  -- The database when the search for a driver is over.
  abbrev pub searched : RideRequest F → env.redis.Db → env.redis.Db
  searched req db =
      (best env req (multiplier env req.lat req.lng (record_demand env req.lat req.lng db)).1).1

  -- The multiplier of a ride.
  abbrev pub priced : RideRequest F → env.redis.Db → F
  priced req db = (multiplier env req.lat req.lng (record_demand env req.lat req.lng db)).0

  -- The answer to a request for which the driver was chosen, given the new id, the multiplier and the
  -- database that the trip is put into: the match, or the error of the cache where that `Put` fails.
  unfoldable pub IsMatched :
      RideRequest F
      → Candidate F
      → List (Candidate F)
      → String
      → F
      → env.redis.Db
      → Response F
      → Type 0
  IsMatched req d ds id m db r =
      (t : Trip F) × (t.id ≡ id)
      × (t.driver_id ≡ d.driver_id)
      × (t.rider_id ≡ req.rider_id)
      × (t.region ≡ Region.key req.lat req.lng)
      × (t.surge ≡ m)
      × (t.state ≡ assigned)
      × (t.updated_at ≡ t.created_at)
      × ((((put env t db).0 ≡ none) × (r.status ≡ 200) × (r.body ≡ matched t d ds m))
          ⊎ ((e : String) × ((put env t db).0 ≡ some e)
              × (r.status ≡ 500)
              × (r.body ≡ text "cache error")))

  store-answer :
      (t : Trip F) (r : Response F) (w : World env)
      → (((put env t w.db).0 ≡ none) × ((store_and_emit env topics t r w).0 ≡ r))
        ⊎ ((e : String) × ((put env t w.db).0 ≡ some e)
            × ((store_and_emit env topics t r w).0
                ≡ record { status = 500; body = text "cache error" }))
  unfolding store_and_emit
  store-answer t r w = elim (Option-cases (put env t w.db).0) [
    | inl good ↦ inl (good, rw (good, store_and_emit) refl)
    | inr (e, bad) ↦ inr (e, bad, rw (bad, store_and_emit) refl)
  ]

  -- The trip that a ride puts into the cache, and the world around it then.
  told : RideRequest F → F → World env → World env
  told req m w =
      emit env topics (new_trip env topics req m (env.new_string w.ids).0)
        (record w { ids = (env.new_string w.ids).1 })

  assigned_to : RideRequest F → F → Candidate F → World env → Trip F
  unfolding told
  assigned_to req m d w = record (new_trip env topics req m (env.new_string w.ids).0) {
    driver_id = d.driver_id;
    state = assigned;
    created_at = (env.now (told req m w).clock).0;
    updated_at = (env.now (told req m w).clock).0;
  }

  timed : RideRequest F → F → World env → World env
  unfolding told
  timed req m w = record (told req m w) { clock = (env.now (told req m w).clock).1 }

  answer_with : RideRequest F → F → Candidate F → List (Candidate F) → World env → Response F
  unfolding assigned_to
  answer_with req m d ds w = record { status = 200; body = matched (assigned_to req m d w) d ds m }

  assign-answer :
      (req : RideRequest F) (m : F) (d : Candidate F) (ds : List (Candidate F)) (w : World env)
      → (((put env (assigned_to req m d w) (timed req m w).db).0 ≡ none)
          × ((assign env topics req m (chosen d ds) w).0 ≡ answer_with req m d ds w))
        ⊎ ((e : String) × ((put env (assigned_to req m d w) (timed req m w).db).0 ≡ some e)
            × ((assign env topics req m (chosen d ds) w).0
                ≡ record { status = 500; body = text "cache error" }))
  unfolding assign assigned_to timed answer_with
  assign-answer req m d ds w =
      store-answer (assigned_to req m d w) (answer_with req m d ds w) (timed req m w)

  assign-IsMatched :
      (req : RideRequest F) (m : F) (d : Candidate F) (ds : List (Candidate F)) (w : World env)
      → IsMatched req d ds
          (env.new_string w.ids).0
          m
          w.db
          (assign env topics req m (chosen d ds) w).0
  unfolding IsMatched assigned_to timed answer_with new_trip emit
  assign-IsMatched req m d ds w = (
    assigned_to req m d w,
    refl,
    refl,
    refl,
    refl,
    refl,
    refl,
    refl,
    elim (assign-answer req m d ds w) [
      | inl (wrote, ok) ↦ inl (wrote, ap (λ r. r.status) ok, ap (λ r. r.body) ok)
      | inr (e, bad, answer) ↦ inr (e, bad, ap (λ r. r.status) answer, ap (λ r. r.body) answer)
    ],
  )

  matched-chosen :
      (req : RideRequest F) (m : F) (c : Choice F) (w : World env) (t : Trip F) (d : Candidate F)
      (ds : List (Candidate F)) (n : F)
      → (assign env topics req m c w).0.body ≡ matched t d ds n
      → (c ≡ chosen d ds) × (t.driver_id ≡ d.driver_id)
  unfolding assign answer_with assigned_to
  matched-chosen req m failure w t d ds n h = absurd (cc h)
  matched-chosen req m nobody w t d ds n h = absurd (cc h)
  matched-chosen req m (chosen e es) w t d ds n h = elim (assign-answer req m e es w) [
    | inl (wrote, ok) ↦
        let (trips, drivers, lists) =
          same_match t (assigned_to req m e w) d e ds es m n (ap (λ r. r.body) (sym ok) ∙ h) in
        (
          ap (λ x. chosen x es) drivers ∙ ap (chosen d) lists,
          ap (λ x. x.driver_id) (sym trips) ∙ ap (λ x. x.driver_id) drivers,
        )
    | inr (x, y, bad) ↦ absurd (cc (ap (λ r. r.body) (sym bad) ∙ h))
  ]

  module _ (laws : IsAnswering env.redis) where
    first-chosen :
        (req : RideRequest F) (w : World env) (t : Trip F) (d : Candidate F)
        (ds : List (Candidate F)) (n : F)
        → IsLively env laws w.db
        → (handle_ride env topics (some req) w).0.body ≡ matched t d ds n
        → (choice_at env laws topics w.db req.lat req.lng ≡ chosen d ds)
          × (t.driver_id ≡ d.driver_id)
    unfolding handle_ride ride
    first-chosen req w t d ds n lively h = elim (Bool-cases (str_eq req.rider_id "")) [
      | inl bad ↦ absurd (cc (rw bad at h))
      | inr good ↦
          let (answer, same) =
            best-Drivers env laws topics w.db req w.db lively
              (record { same_alive = λ x. refl; same_found = λ r q. refl }) in
          let (picked, named) = matched-chosen req _ _ _ t d ds n (rw good at h) in
          (sym answer ∙ picked, named)
    ]

    again-IsMatched :
        (first : env.redis.Db) (req : RideRequest F) (d : Candidate F) (ds : List (Candidate F))
        (w : World env)
        → IsLively env laws first
        → Drivers env laws topics first w.db
        → req.rider_id ≢ ""
        → choice_at env laws topics first req.lat req.lng ≡ chosen d ds
        → IsMatched req d ds
            (env.new_string w.ids).0
            (priced req w.db)
            (searched req w.db)
            (handle_ride env topics (some req) w).0
    unfolding handle_ride ride
    again-IsMatched first req d ds w lively same named pick =
        let rider : str_eq req.rider_id "" ≡ false = ground (arith, eq_iff req.rider_id "") in
        let (answer, _) = best-Drivers env laws topics first req w.db lively same in
        rw rider (rw (answer ∙ pick) (assign-IsMatched req _ d ds _))

    -- While Redis answers, no key expires and nobody in the index is stale: after a ride that was matched
    -- to a driver, and whatever the front door has served since, another rider at the same place is
    -- matched to the same driver with the same shortlist, a new id and the multiplier of that time, or
    -- gets the error 500 of the cache: the one where the `Put` of that trip succeeds, the other where it
    -- fails.
    pub matched_again :
        (req req' : RideRequest F) (rs : List (Request F)) (w : World env) (t : Trip F)
        (d : Candidate F) (ds : List (Candidate F)) (n : F)
        → IsLively env laws w.db
        → req'.lat ≡ req.lat
        → req'.lng ≡ req.lng
        → req'.rider_id ≢ ""
        → (handle_ride env topics (some req) w).0.body ≡ matched t d ds n
        → let after = serve_all env topics rs (handle_ride env topics (some req) w).1 in
          (t.driver_id ≡ d.driver_id)
          × IsMatched req' d ds
              (env.new_string after.ids).0
              (priced req' after.db)
              (searched req' after.db)
              (handle_ride env topics (some req') after).0
    matched_again req req' rs w t d ds n lively lat lng named h =
        let (pick, own) = first-chosen req w t d ds n lively h in
        let still = serve_all-Drivers env laws topics w.db rs _ lively (
          ride-Drivers env laws topics w.db (some req) w lively
            (record { same_alive = λ x. refl; same_found = λ r q. refl })) in
        let there : choice_at env laws topics w.db req'.lat req'.lng ≡ chosen d ds =
          ap (λ x. choice_at env laws topics w.db x req'.lng) lat
          ∙ ap (choice_at env laws topics w.db req.lat) lng
          ∙ pick in
        (own, again-IsMatched w.db req' d ds _ lively still named there)
