-- ===== src/Pipeline/Served.antt =====
-- cmd/api/main.go: every request keeps the trip topic in step with the cache.
use taxi_app.Base.{
  suc, String, false, Option, none, some, List, [], ◌∷◌, ◌++◌, ◌≡◌, refl, sym, ◌∙◌, ap, subst, ◌⊎◌,
  inl, inr, Bool-cases, str_eq, eq_refl, All, All-append, ltb,
}
use taxi_app.Float64.{Float64}
use taxi_app.Models.{
  Trip, RideRequest, LocationUpdate, in_progress, completed, cancelled, unix_milli,
}
use taxi_app.Infra.{Env, Message, IsCodec}
use taxi_app.Infra.Laws.{IsStringStore, IsLog, IsFresh, IsUp, IsEventCodec}
use taxi_app.Match.{Choice, chosen, nobody, failure}
use taxi_app.Region
use taxi_app.Trip.Cache.{cache_key}
use taxi_app.Api.{
  Response, Topics, World, Request, event_of, emit, store_and_emit, new_trip, assign, ride, or_nil,
  handle_ride, handle_location, ingest, release, ingest_limit, handle_get_trip, handle_surge, serve,
  serve_all, location, rides, start, complete, cancel, get_trip, surge,
}
use taxi_app.Api.Frame.{multiplier-Same, supply-Same, searched-Same}
use taxi_app.Api.Transitions.{get-Same}
use taxi_app.Pipeline.{
  timeless, step, see, view, view-append, Keyed, Foreign, view-Foreign, Foreign-Keyed,
}
use taxi_app.Pipeline.Logged.{
  Traced, Same-InStep, told, emit-trip_log, told-cases, told-Keyed, told-Foreign, told-Traced,
  store_and_emit-InStep,
}
use taxi_app.Pipeline.Moved
use taxi_app.Pipeline.Moved.{step-event, Cached-given, transition-InStep}

module _ {F : Type 0} ⦃fl : Float64 F⦄ (env : Env F) (laws : IsStringStore env.redis)
    (codec : IsCodec env.trip_json) (events : IsEventCodec env) (kafka : IsLog env.kafka)
    (up : IsUp env) (ids : IsFresh env) (topics : Topics) where
  open env use {redis, trip_json, event_json}
  open ids use {Used}

  abbrev Ready : World env → Type 0
  Ready = Moved.Ready env laws codec events kafka up ids topics

  abbrev said : World env → List Message
  said = Moved.said env laws codec events kafka up ids topics

  abbrev given : World env → World env
  given w = record w { ids = (env.new_string w.ids).1 }

  module _ (t : Trip F) (w : World env) (h : Ready w) (new : t.id ≡ (env.new_string w.ids).0) where
    new-Foreign : All (Foreign env t.id) (said w)
    new-Foreign = subst (λ x. All (Foreign env x) (said w)) (sym new) (h.ahead _ (ids.unused w.ids))

    abbrev announcement : List Message
    announcement =
        told env laws codec events kafka up ids topics t (unix_milli (env.now w.clock).0) ∷ []

    announced : said (emit env topics t (given w)) ≡ said w ++ announcement
    announced = emit-trip_log env laws codec events kafka up ids topics t (given w)

    emit-InStep : Ready (emit env topics t (given w))
    unfolding emit
    emit-InStep = record {
      traced = λ j u c.
          subst (λ ms. Traced env laws codec events kafka up ids topics ms j u) (sym announced)
            (told-Traced env laws codec events kafka up ids topics (said w) j u t _
              (λ e.
                Cached-given env laws codec events kafka up ids topics w u j h c _
                  (ids.unused w.ids) ((h.traced j u c).0 ∙ sym e ∙ new))
              (h.traced j u c));
      ahead = λ j n.
          subst (λ ms. All (Foreign env j) ms) (sym announced)
            (All-append (Foreign env j) (said w) _ (h.ahead j (λ u. n (ids.kept w.ids j u))) (
              told-Foreign env laws codec events kafka up ids topics j t _
                  (λ e. n (subst (λ x. Used (given w).ids x) (sym new ∙ e) (ids.given w.ids))),
              tt,
            ));
    }

    emit-Keyed : All (Keyed env t.id t.region) (said (emit env topics t (given w)))
    emit-Keyed =
        subst (λ ms. All (Keyed env t.id t.region) ms) (sym announced)
          (All-append (Keyed env t.id t.region) (said w) _
            (Foreign-Keyed env t.id t.region (said w) new-Foreign)
            (told-Keyed env laws codec events kafka up ids topics t.id t _, tt))

    -- The topic then holds the new trip, or nothing of it where its event cannot be written.
    emit-row :
        (view env t.id none (said (emit env topics t (given w))) ≡ none)
        ⊎ (view env t.id none (said (emit env topics t (given w))) ≡ some (timeless t))
    unfolding see event_of
    emit-row =
        let at = unix_milli (env.now w.clock).0 in
        let before = view-Foreign env t.id none (said w) new-Foreign in
        rw announced (
          rw (view-append env t.id none (said w) _) (
            rw before (elim (told-cases env laws codec events kafka up ids topics t at) [
              | inl says ↦ rw says (rw (eq_refl t.id) (inr refl))
              | inr nothing ↦ rw nothing (inl refl)
            ])))

  -- A new trip is announced, then cached with its driver.
  matched-InStep :
      (t u : Trip F) (clock : env.Clock) (r : Response F) (w : World env)
      → Ready w
      → t.id ≡ (env.new_string w.ids).0
      → t.id ≡ u.id
      → t.rider_id ≡ u.rider_id
      → t.region ≡ u.region
      → t.driver_id ≡ ""
      → Ready
          (store_and_emit env topics u r (record (emit env topics t (given w)) { clock = clock })).1
  unfolding emit
  matched-InStep t u clock r w h new i p g d =
      let w' : World env = record (emit env topics t (given w)) { clock = clock } in
      store_and_emit-InStep env laws codec events kafka up ids topics u r w'
        (Same-InStep env laws codec events kafka up ids topics _ w' (λ j. refl) refl refl
          (emit-InStep t w h new))
        (λ j n e. n (subst (λ x. Used w'.ids x) (sym new ∙ i ∙ e) (ids.given w.ids)))
        (subst (λ x. All (Keyed env x u.region) (said w')) i
          (subst (λ k. All (Keyed env t.id k) (said w')) g (emit-Keyed t w h new)))
        λ at.
          subst
            (λ x. step (view env x none (said w')) (event_of env topics u at) ≡ some (timeless u)) i
            (elim (emit-row t w h new) [
              | inl nothing ↦
                  ap (λ o. step o (event_of env topics u at)) nothing ∙ unfold event_of in refl
              | inr row ↦
                  ap (λ o. step o (event_of env topics u at)) row
                  ∙ step-event env laws codec events kafka up ids topics t u at i p g (inr d)
            ])

  assign-InStep :
      (req : RideRequest F) (mult : F) (choice : Choice F) (w : World env)
      → Ready w
      → Ready (assign env topics req mult choice w).1
  unfolding assign
  assign-InStep req mult failure w h = h
  assign-InStep req mult nobody w h =
      emit-InStep (new_trip env topics req mult (env.new_string w.ids).0) w h
        (unfold new_trip in refl)
  assign-InStep req mult (chosen best shortlist) w h =
      matched-InStep (new_trip env topics req mult (env.new_string w.ids).0) _ _ _ w h
        (unfold new_trip in refl) (unfold new_trip in refl) (unfold new_trip in refl)
        (unfold new_trip in refl) (unfold new_trip in refl)

  handle_ride-InStep :
      (body : Option (RideRequest F)) (w : World env)
      → Ready w
      → Ready (handle_ride env topics body w).1
  unfolding handle_ride ride
  handle_ride-InStep none w h = h
  handle_ride-InStep (some req) w h = elim (Bool-cases (str_eq req.rider_id "")) [
    | inl bad ↦ rw bad h
    | inr good ↦ rw good (
        assign-InStep req _ _ _ (
          Same-InStep env laws codec events kafka up ids topics w _
            (searched-Same env laws req w.db) refl refl h))
  ]

  module _ (apart : str_eq topics.location topics.trip ≡ false) where
    ingest-quiet :
        (id : String) (body : Option (LocationUpdate F)) (w : World env)
        → ((ingest env topics id body w).1.db ≡ w.db)
          × ((ingest env topics id body w).1.ids ≡ w.ids)
          × (said (ingest env topics id body w).1 ≡ said w)
    unfolding ingest
    ingest-quiet id none w = (refl, refl, refl)
    ingest-quiet id (some u) w =
        let now = unix_milli (env.now w.clock).0 in
        let m : Message = record {
          key = Region.key u.lat u.lng;
          value = or_nil (env.location_json.marshal (record u { driver_id = id; timestamp = now }));
        } in
        let ok = up.writes topics.location m w.broker in
        rw (ok, ingest)
          (refl, refl, kafka.appended topics.location topics.trip m w.broker ok ∙ rw apart refl)

    location-InStep :
        (id : String) (body : Option (LocationUpdate F)) (w : World env)
        → Ready w
        → Ready (handle_location env topics id body w).1
    unfolding handle_location release
    location-InStep id body w h = elim (Bool-cases (ltb w.in_flight ingest_limit)) [
      | inl room ↦
          let (d, i, l) = ingest-quiet id body (record w { in_flight = suc w.in_flight }) in
          rw room (
            Same-InStep env laws codec events kafka up ids topics w _
              (λ j. ap (λ x. laws.text x (cache_key j)) d) l i h)
      | inr full ↦ rw full h
    ]

    serve-InStep : (r : Request F) (w : World env) → Ready w → Ready (serve env topics r w).1
    unfolding serve handle_get_trip handle_surge
    serve-InStep (location id body) w h = location-InStep id body w h
    serve-InStep (rides body) w h = handle_ride-InStep body w h
    serve-InStep (start id) w h =
        transition-InStep env laws codec events kafka up ids topics in_progress id w h
    serve-InStep (complete id) w h =
        transition-InStep env laws codec events kafka up ids topics completed id w h
    serve-InStep (cancel id) w h =
        transition-InStep env laws codec events kafka up ids topics cancelled id w h
    serve-InStep (get_trip id) w h =
        Same-InStep env laws codec events kafka up ids topics w _
          (get-Same env laws codec topics id w.db) refl refl h
    serve-InStep (surge none) w h = h
    serve-InStep (surge (some (lat, lng))) w h =
        Same-InStep env laws codec events kafka up ids topics w _
          (λ j. supply-Same env laws lat lng _ j ∙ multiplier-Same env laws lat lng w.db j) refl
          refl h

    pub serve_all-InStep :
        (rs : List (Request F)) (w : World env) → Ready w → Ready (serve_all env topics rs w)
    unfolding serve_all
    serve_all-InStep [] w h = h
    serve_all-InStep (r ∷ rs) w h =
        serve_all-InStep rs (serve env topics r w).1 (serve-InStep r w h)
