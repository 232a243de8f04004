-- ===== src/Api/Stored.antt =====
-- cmd/api/main.go: what the cache holds, whatever requests the front door has served.
use taxi_app.Base.{
  String, Option, none, some, some-injective, List, [], ◌∷◌, ◌≡◌, refl, sym, ◌∙◌, ap, subst, ◌⊎◌,
  inl, inr, Bool-cases, Option-cases, arith, str_eq,
}
use taxi_app.Float64.{Float64}
use taxi_app.Models.{
  Trip, TripState, RideRequest, LocationUpdate, assigned, in_progress, completed, cancelled,
}
use taxi_app.Infra.{Env, IsCodec}
use taxi_app.Infra.Laws.{IsStringStore}
use taxi_app.Match.{Choice, chosen, nobody, failure}
use taxi_app.Surge
use taxi_app.Trip
use taxi_app.Trip.Cache.{cache_key, Lookup, found, not_found, broken, put, get, hour}
use taxi_app.Api.{
  Response, Topics, World, Request, emit, handle_location, store_and_emit, assign, ride,
  handle_ride, move, transition, handle_get_trip, handle_surge, serve, serve_all, location, rides,
  start, complete, cancel, get_trip, surge,
}
use taxi_app.Api.Frame.{Same, multiplier-Same, supply-Same, searched-Same, cache_key-injective}

-- A cached trip was assigned, and may have moved on; it is under its own key.
abbrev pub IsAssigned : TripState → Type 0
IsAssigned s = (s ≡ assigned) ⊎ ((s ≡ in_progress) ⊎ ((s ≡ completed) ⊎ (s ≡ cancelled)))

abbrev pub IsTracked : {F : Type 0} → String → Trip F → Type 0
IsTracked id t = (t.id ≡ id) × IsAssigned t.state

module _ {F : Type 0} ⦃fl : Float64 F⦄ (env : Env F) (laws : IsStringStore env.redis)
    (codec : IsCodec env.trip_json) (topics : Topics) where
  open env use {redis, trip_json}
  open laws use {text, get_reply, get_missing, get_text, set_or_not}

  -- The text of the database at the trip's key reads as the trip.
  abbrev pub Cached : redis.Db → String → Trip F → Type 0
  Cached db id t =
      (b : String) × (text db (cache_key id) ≡ some b) × (trip_json.unmarshal b ≡ some t)

  abbrev pub Stored : redis.Db → Type 0
  Stored db = (id : String) (t : Trip F) → Cached db id t → IsTracked id t

  pub Same-Stored : (db db' : redis.Db) → Same env laws db db' → Stored db → Stored db'
  Same-Stored db db' s h id t (b, p, q) = h id t (b, sym (s id) ∙ p, q)

  put-Stored :
      (t : Trip F) (db : redis.Db) → IsAssigned t.state → Stored db → Stored (put env t db).1
  unfolding put
  put-Stored t db a h = elim (Option-cases (trip_json.marshal t)) [
    | inl bad ↦ rw (bad, put) h
    | inr (s, good) ↦
        rw (good, put)
          λ id u (b, p, q). elim (set_or_not (cache_key t.id) s (cache_key id) hour db) [
            | inl kept ↦ h id u (b, sym kept ∙ p, q)
            | inr (same_key, new) ↦
                let read = codec.unmarshal-marshal t s good in
                let eb : s ≡ b = some-injective _ _ (sym new ∙ p) in
                let et : t ≡ u = some-injective _ _ (sym read ∙ ap trip_json.unmarshal eb ∙ q) in
                subst (IsTracked id) et (cache_key-injective t.id id same_key, a)
          ]
  ]

  store_and_emit-db :
      (t : Trip F) (r : Response F) (w : World env)
      → (store_and_emit env topics t r w).1.db ≡ (put env t w.db).1
  unfolding store_and_emit emit
  store_and_emit-db t r w = elim (Option-cases (put env t w.db).0) [
    | inl good ↦ rw (good, store_and_emit)
    | inr (e, bad) ↦ rw (bad, store_and_emit)
  ]

  store-Stored :
      (t : Trip F) (r : Response F) (w : World env)
      → IsAssigned t.state
      → Stored w.db
      → Stored (store_and_emit env topics t r w).1.db
  store-Stored t r w a h = rw (store_and_emit-db t r w) (put-Stored t w.db a h)

  assign-Stored :
      (req : RideRequest F) (mult : F) (choice : Choice F) (w : World env)
      → Stored w.db
      → Stored (assign env topics req mult choice w).1.db
  unfolding assign emit
  assign-Stored req mult failure w h = h
  assign-Stored req mult nobody w h = h
  assign-Stored req mult (chosen best shortlist) w h = store-Stored _ _ _ (inl refl) h

  pub ride-Stored :
      (body : Option (RideRequest F)) (w : World env)
      → Stored w.db
      → Stored (handle_ride env topics body w).1.db
  unfolding handle_ride ride
  ride-Stored none w h = h
  ride-Stored (some req) w h = elim (Bool-cases (str_eq req.rider_id "")) [
    | inl bad ↦ rw bad h
    | inr good ↦
        rw good (assign-Stored req _ _ _ (Same-Stored _ _ (searched-Same env laws req w.db) h))
  ]

  pub get-Same : (id : String) (db : redis.Db) → Same env laws db (get env id db).1
  unfolding get
  get-Same id db j = get_text (cache_key id) (cache_key j) db

  pub move-Stored :
      (dst : TripState) (l : Lookup F) (w : World env)
      → IsAssigned dst
      → Stored w.db
      → Stored (move env topics dst l w).1.db
  unfolding move
  move-Stored dst not_found w a h = h
  move-Stored dst broken w a h = h
  move-Stored dst (found t) w a h = elim (Bool-cases (Trip.can_transition t.state dst)) [
    | inl legal ↦ rw legal (store-Stored _ _ _ a h)
    | inr illegal ↦ rw illegal h
  ]

  transition-Stored :
      (dst : TripState) (id : String) (w : World env)
      → IsAssigned dst
      → Stored w.db
      → Stored (transition env topics dst id w).1.db
  unfolding transition
  transition-Stored dst id w a h = move-Stored dst _ _ a (Same-Stored _ _ (get-Same id w.db) h)

  location-db :
      (id : String) (body : Option (LocationUpdate F)) (w : World env)
      → (handle_location env topics id body w).1.db ≡ w.db
  unfolding handle_location
  location-db id none w = ground arith
  location-db id (some u) w = ground arith

  pub surge-Stored :
      (at : Option (F × F)) (w : World env)
      → Stored w.db
      → Stored (handle_surge env topics at w).1.db
  unfolding handle_surge
  surge-Stored none w h = h
  surge-Stored (some (lat, lng)) w h =
      let priced = Surge.multiplier env lat lng w.db in
      Same-Stored _ _ (supply-Same env laws lat lng priced.1)
        (Same-Stored _ _ (multiplier-Same env laws lat lng w.db) h)

  pub serve-Stored :
      (r : Request F) (w : World env) → Stored w.db → Stored (serve env topics r w).1.db
  unfolding serve handle_get_trip
  serve-Stored (location id body) w h = rw (location-db id body w) h
  serve-Stored (rides body) w h = ride-Stored body w h
  serve-Stored (start id) w h = transition-Stored in_progress id w (inr (inl refl)) h
  serve-Stored (complete id) w h = transition-Stored completed id w (inr (inr (inl refl))) h
  serve-Stored (cancel id) w h = transition-Stored cancelled id w (inr (inr (inr refl))) h
  serve-Stored (get_trip id) w h = Same-Stored _ _ (get-Same id w.db) h
  serve-Stored (surge at) w h = surge-Stored at w h

  serve_all-Stored :
      (rs : List (Request F)) (w : World env) → Stored w.db → Stored (serve_all env topics rs w).db
  unfolding serve_all
  serve_all-Stored [] w h = h
  serve_all-Stored (r ∷ rs) w h = serve_all-Stored rs (serve env topics r w).1 (serve-Stored r w h)

  -- Whatever requests the front door serves, and whichever calls of Redis and Kafka fail, a trip that
  -- is then in the cache is under its own id and is assigned, in progress, completed or cancelled, if
  -- every cached trip was so before.
  serve_all-IsTracked :
      (rs : List (Request F)) (w : World env) (id : String) (t : Trip F)
      → Stored w.db
      → Cached (serve_all env topics rs w).db id t
      → IsTracked id t
  serve_all-IsTracked rs w id t h = serve_all-Stored rs w h id t
