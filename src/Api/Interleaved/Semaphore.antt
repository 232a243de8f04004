-- ===== src/Api/Interleaved/Semaphore.antt =====
-- cmd/api/main.go: how many location requests are under way in every interleaving.
use taxi_app.Base.{
  suc, ◌+◌, ◌-◌, ◌≤◌, String, false, Option, none, some, Option-cases, List, [], ◌∷◌, ◌++◌, ◌≡◌,
  refl, sym, ◌∙◌, ap, subst, inl, inr, ◌↔◌, Bool-cases, arith, ltb, ltb→lt, str_eq,
}
use taxi_app.Float64.{Float64}
use taxi_app.Models.{Trip, TripState, RideRequest, LocationUpdate}
use taxi_app.Infra.{Env}
use taxi_app.Trip
use taxi_app.Trip.Cache.{Lookup, found, not_found, broken, put}
use taxi_app.Api.{
  Response, Topics, World, ingest_limit, ingest, release, handle_ride, ride, assign, store_and_emit,
  emit, move, handle_get_trip, handle_surge,
}
use taxi_app.Match.{Choice, chosen, nobody, failure}
use taxi_app.Api.Interleaved.{
  Job, ingesting, moving, IsTarget, System, Step, enter, shed, leave, look, finish, show_trip,
  show_surge, Reach, start, later, ingests,
}
use taxi_app.Api.Interleaved

ingests-append : {F : Type 0} (xs ys : List (Job F)) → ingests (xs ++ ys) ≡ ingests xs + ingests ys
unfolding ingests
ingests-append [] ys = omega arith
ingests-append (ingesting id body ∷ xs) ys = omega (arith, ingests-append xs ys)
ingests-append (moving dst l ∷ xs) ys = ingests-append xs ys

module _ {F : Type 0} ⦃fl : Float64 F⦄ (env : Env F) (topics : Topics) where
  store-in_flight :
      (t : Trip F) (r : Response F) (w : World env)
      → (store_and_emit env topics t r w).1.in_flight ≡ w.in_flight
  unfolding store_and_emit emit
  store-in_flight t r w = elim (Option-cases (put env t w.db).0) [
    | inl good ↦ rw (good, store_and_emit) refl
    | inr (e, bad) ↦ rw (bad, store_and_emit) refl
  ]

  pub move-in_flight :
      (dst : TripState) (l : Lookup F) (w : World env)
      → (move env topics dst l w).1.in_flight ≡ w.in_flight
  unfolding move
  move-in_flight dst not_found w = refl
  move-in_flight dst broken w = refl
  move-in_flight dst (found t) w = elim (Bool-cases (Trip.can_transition t.state dst)) [
    | inl legal ↦ rw legal (store-in_flight _ _ _)
    | inr illegal ↦ rw illegal refl
  ]

  assign-in_flight :
      (req : RideRequest F) (m : F) (c : Choice F) (w : World env)
      → (assign env topics req m c w).1.in_flight ≡ w.in_flight
  unfolding assign emit
  assign-in_flight req m failure w = refl
  assign-in_flight req m nobody w = refl
  assign-in_flight req m (chosen d ds) w = store-in_flight _ _ _

  pub ride-in_flight :
      (body : Option (RideRequest F)) (w : World env)
      → (handle_ride env topics body w).1.in_flight ≡ w.in_flight
  unfolding handle_ride ride
  ride-in_flight none w = refl
  ride-in_flight (some req) w = elim (Bool-cases (str_eq req.rider_id "")) [
    | inl bad ↦ rw bad refl
    | inr good ↦ rw good (assign-in_flight req _ _ _)
  ]

  pub get-in_flight :
      (id : String) (w : World env) → (handle_get_trip env topics id w).1.in_flight ≡ w.in_flight
  unfolding handle_get_trip
  get-in_flight id w = refl

  pub surge-in_flight :
      (at : Option (F × F)) (w : World env)
      → (handle_surge env topics at w).1.in_flight ≡ w.in_flight
  unfolding handle_surge
  surge-in_flight none w = refl
  surge-in_flight (some (lat, lng)) w = refl

  pub ingest_lem :
      (id : String) (body : Option (LocationUpdate F)) (w : World env)
      → ((ingest env topics id body w).1.in_flight ≡ w.in_flight)
        × ((ingest env topics id body w).1.db ≡ w.db)
  unfolding ingest
  ingest_lem id none w = (refl, refl)
  ingest_lem id (some u) w = ground arith

  pub release_lem :
      (x : Response F × World env)
      → ((release env topics x).1.in_flight ≡ x.1.in_flight - 1)
        × ((release env topics x).1.db ≡ x.1.db)
  unfolding release
  release_lem x = (refl, refl)

  -- The semaphore holds one item for each location request under way.
  record IsCounted (s : System env) : Type 0 where
    counted : s.world.in_flight ≡ ingests s.jobs
    within : ingests s.jobs ≤ ingest_limit

  whole-IsCounted :
      (s : System env) (w : World env)
      → w.in_flight ≡ s.world.in_flight
      → IsCounted s
      → IsCounted (record s { world = w })
  whole-IsCounted s w same c = record { counted = same ∙ c.counted; within = c.within }

  Step-IsCounted : {s t : System env} → Step env topics s t → IsCounted s → IsCounted t
  unfolding ingests
  Step-IsCounted {s} (enter id body free e) c = subst IsCounted (sym e) (record {
    counted = ap suc c.counted;
    within = omega (arith, ltb→lt s.world.in_flight ingest_limit free, c.counted);
  })
  Step-IsCounted (shed full e) c = subst IsCounted (sym e) c
  Step-IsCounted {s} (leave before after id body q e) c =
      let fewer : ingests s.jobs ≡ suc (ingests (before ++ after)) =
        ap ingests q
        ∙ omega (
          arith,
          ingests-append before (ingesting id body ∷ after),
          ingests-append before after,
        ) in
      let (kept, same) = ingest_lem id body s.world in
      let (freed, same') = release_lem (ingest env topics id body s.world) in
      subst IsCounted (sym e) (record {
        counted = omega (arith, freed, kept, fewer, c.counted);
        within = omega (arith, fewer, c.within);
      })
  Step-IsCounted (look dst id target e) c =
      subst IsCounted (sym e) (record { counted = c.counted; within = c.within })
  Step-IsCounted {s} (finish before after dst l q e) c =
      let same : ingests s.jobs ≡ ingests (before ++ after) =
        ap ingests q
        ∙ omega
            (arith, ingests-append before (moving dst l ∷ after), ingests-append before after) in
      subst IsCounted (sym e) (record {
        counted = move-in_flight dst l s.world ∙ c.counted ∙ same;
        within = omega (arith, same, c.within);
      })
  Step-IsCounted {s} (Interleaved.ride body e) c =
      subst IsCounted (sym e) (whole-IsCounted s _ (ride-in_flight body s.world) c)
  Step-IsCounted {s} (show_trip id e) c =
      subst IsCounted (sym e) (whole-IsCounted s _ (get-in_flight id s.world) c)
  Step-IsCounted {s} (show_surge at e) c =
      subst IsCounted (sym e) (whole-IsCounted s _ (surge-in_flight at s.world) c)

  Reach-IsCounted :
      {w : World env} {s : System env} → w.in_flight ≡ 0 → Reach env topics w s → IsCounted s
  unfolding ingests
  Reach-IsCounted none_yet start = record { counted = none_yet; within = omega arith }
  Reach-IsCounted none_yet (later r st) = Step-IsCounted st (Reach-IsCounted none_yet r)

  -- In every interleaving of requests, from an idle front door, the semaphore holds one item for each
  -- location request under way, these are at most 5000, and it has no room exactly when they are 5000.
  pub in_flight_bounds :
      {w : World env} {s : System env}
      → w.in_flight ≡ 0
      → Reach env topics w s
      → (s.world.in_flight ≡ ingests s.jobs)
        × (ingests s.jobs ≤ 5000)
        × ((ltb s.world.in_flight ingest_limit ≡ false) ↔ (ingests s.jobs ≡ 5000))
  in_flight_bounds {s = s} none_yet r =
      let c = Reach-IsCounted none_yet r in
      (
        c.counted,
        c.within,
        (λ full. ground (arith, c.counted, c.within), λ full. ground (arith, c.counted)),
      )
