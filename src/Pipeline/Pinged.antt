-- ===== src/Pipeline/Pinged.antt =====
-- cmd/api/main.go: the location topic holds the accepted pings.
use taxi_app.Base.{
  String, Bool, true, false, none, some, some-injective, List, [], ◌∷◌, ◌++◌, ◌≡◌, refl, sym, ◌∙◌,
  ap, subst, inl, inr, Option-cases, arith, str_eq, eq_refl, All, All-append, ltb,
}
use taxi_app.Base.Int.{ℤ}
use taxi_app.Float64.{Float64}
use taxi_app.Models.{LocationUpdate, unix_milli}
use taxi_app.Region
use taxi_app.Infra.{Env, Message, IsCodec}
use taxi_app.Infra.Laws.{IsLog}
use taxi_app.Api.{
  Topics, World, Request, handle_location, ingest, release, ingest_limit, or_nil, serve, serve_all,
  location, rides, start, complete, cancel, get_trip, surge,
}
use taxi_app.Pipeline.Positions.{indexed, told_of, told_of-append, heard, IsPlaced}
use taxi_app.Pipeline.Unpinged
use taxi_app.Pipeline.Unpinged.{ping_in, pings_of, serve-Quiet}

module _ {F : Type 0} ⦃fl : Float64 F⦄ (env : Env F) (kafka : IsLog env.kafka)
    (writes : (topic : String) (m : Message) (b : env.kafka.Broker)
      → (env.kafka.write_messages topic m b).0 ≡ none)
    (topics : Topics) (apart : str_eq topics.location topics.trip ≡ false) where
  open env use {location_json}

  abbrev positions : World env → List Message
  positions = Unpinged.positions env kafka writes topics apart

  -- The message of an accepted position.
  pinged : LocationUpdate F → ℤ → Message
  pinged u at = record {
    key = Region.key u.lat u.lng;
    value = or_nil (location_json.marshal (record u { timestamp = at }));
  }

  location-accepted :
      (id : String) (u : LocationUpdate F) (w : World env)
      → ltb w.in_flight ingest_limit ≡ true
      → ((handle_location env topics id (some u) w).1.in_flight ≡ w.in_flight)
        × (positions (handle_location env topics id (some u) w).1
            ≡ positions w
              ++ (pinged (record u { driver_id = id }) (unix_milli (env.now w.clock).0) ∷ []))
  unfolding handle_location release ingest pinged
  location-accepted id u w room =
      let m = pinged (record u { driver_id = id }) (unix_milli (env.now w.clock).0) in
      let ok = writes topics.location m w.broker in
      rw room (
        rw (ok, ingest)
          (
            omega arith,
            kafka.appended topics.location topics.location m w.broker ok
                ∙ rw (eq_refl topics.location) refl,
          ))

  module _ (codec : IsCodec location_json) where
    -- JSON can write the position, at whatever time.
    abbrev pub IsWritable : LocationUpdate F → Type 0
    IsWritable u =
        (at : ℤ) → (b : String) × (location_json.marshal (record u { timestamp = at }) ≡ some b)

    pinged-read :
        (u : LocationUpdate F) (at : ℤ)
        → IsWritable u
        → location_json.unmarshal (pinged u at).value ≡ some (record u { timestamp = at })
    unfolding pinged
    pinged-read u at h = let (b, good) = h at in rw good (codec.unmarshal-marshal _ b good)

    pinged-IsPlaced : (u : LocationUpdate F) (at : ℤ) → IsWritable u → IsPlaced env (pinged u at)
    unfolding pinged
    pinged-IsPlaced u at h v e =
        let same : record u { timestamp = at } ≡ v =
          some-injective _ _ (sym (pinged-read u at h) ∙ e) in
        ap (λ x. Region.key x.lat x.lng) same

    -- One request: the semaphore is as it was, and the topic tells of the position that was reported.
    abbrev Told : Request F → World env → Type 0
    Told r w =
        ((serve env topics r w).1.in_flight ≡ w.in_flight)
        × ((reg d : String) (b : Bool)
            → told_of env reg d b (positions (serve env topics r w).1)
              ≡ heard env reg d (told_of env reg d b (positions w)) (ping_in r))
        × All (IsPlaced env) (positions (serve env topics r w).1)

    Quiet-Told :
        (r : Request F) (w : World env)
        → ping_in r ≡ none
        → All (IsPlaced env) (positions w)
        → Told r w
    Quiet-Told r w nothing placed =
        let (load, same) = serve-Quiet env kafka writes topics apart r w nothing in
        (
          load,
          λ reg d b. ap (told_of env reg d b) same ∙ ap (heard env reg d _) (sym nothing),
          subst (λ ms. All (IsPlaced env) ms) (sym same) placed,
        )

    location-Told :
        (id : String) (u : LocationUpdate F) (w : World env)
        → ltb w.in_flight ingest_limit ≡ true
        → IsWritable (record u { driver_id = id })
        → All (IsPlaced env) (positions w)
        → Told (location id (some u)) w
    unfolding serve ping_in
    location-Told id u w room ok placed =
        let (load, more) = location-accepted id u w room in
        let at = unix_milli (env.now w.clock).0 in
        let v = record u { driver_id = id } in
        (
          load,
          λ reg d b.
              ap (told_of env reg d b) more
              ∙ told_of-append env reg d b (positions w) (pinged v at)
              ∙ ap (heard env reg d (told_of env reg d b (positions w))) (pinged-read v at ok),
          subst (λ ms. All (IsPlaced env) ms) (sym more)
              (All-append (IsPlaced env) (positions w) _ placed (pinged-IsPlaced v at ok, tt)),
        )

    serve-Told :
        (r : Request F) (w : World env)
        → ltb w.in_flight ingest_limit ≡ true
        → ((u : LocationUpdate F) → ping_in r ≡ some u → IsWritable u)
        → All (IsPlaced env) (positions w)
        → Told r w
    unfolding ping_in
    serve-Told (location id (some u)) w room ok placed =
        location-Told id u w room (ok _ refl) placed
    serve-Told (location id none) w room ok placed = Quiet-Told (location id none) w refl placed
    serve-Told (rides body) w room ok placed = Quiet-Told (rides body) w refl placed
    serve-Told (start id) w room ok placed = Quiet-Told (start id) w refl placed
    serve-Told (complete id) w room ok placed = Quiet-Told (complete id) w refl placed
    serve-Told (cancel id) w room ok placed = Quiet-Told (cancel id) w refl placed
    serve-Told (get_trip id) w room ok placed = Quiet-Told (get_trip id) w refl placed
    serve-Told (surge at) w room ok placed = Quiet-Told (surge at) w refl placed

    indexed-pings_of :
        (r : Request F) (rs : List (Request F)) (reg d : String) (b : Bool)
        → indexed reg d b (pings_of (r ∷ rs))
          ≡ indexed reg d (heard env reg d b (ping_in r)) (pings_of rs)
    unfolding pings_of indexed
    indexed-pings_of r rs reg d b = elim (Option-cases (ping_in r)) [
      | inl nothing ↦ rw (nothing, indexed) refl
      | inr (u, ping) ↦ rw (ping, indexed) refl
    ]

    IsWritable-pings_of :
        (r : Request F) (rs : List (Request F))
        → All IsWritable (pings_of (r ∷ rs))
        → ((u : LocationUpdate F) → ping_in r ≡ some u → IsWritable u)
          × All IsWritable (pings_of rs)
    unfolding pings_of
    IsWritable-pings_of r rs h = elim (Option-cases (ping_in r)) [
      | inl nothing ↦ ((λ u e. absurd (cc (sym nothing ∙ e))), rw (nothing, pings_of) at h)
      | inr (u, ping) ↦
          let now = rw (ping, pings_of) at h in
          ((λ v e. subst IsWritable (some-injective _ _ (sym ping ∙ e)) now.0), now.1)
    ]

    -- What the topic tells after the requests is what it told before, with the positions reported since;
    -- and it stays keyed by region.
    pub serve_all-positions :
        (rs : List (Request F)) (w : World env)
        → ltb w.in_flight ingest_limit ≡ true
        → All IsWritable (pings_of rs)
        → All (IsPlaced env) (positions w)
        → ((reg d : String) (b : Bool)
            → told_of env reg d b (positions (serve_all env topics rs w))
              ≡ indexed reg d (told_of env reg d b (positions w)) (pings_of rs))
          × All (IsPlaced env) (positions (serve_all env topics rs w))
    unfolding serve_all
    serve_all-positions [] w room ok placed = ((λ reg d b. unfold indexed pings_of in refl), placed)
    serve_all-positions (r ∷ rs) w room ok placed =
        let (own, others) = IsWritable-pings_of r rs ok in
        let (load, told, placed') = serve-Told r w room own placed in
        let (rest, end) =
          serve_all-positions rs (serve env topics r w).1 (rw load room) others placed' in
        (
          λ reg d b.
              rest reg d b
              ∙ ap (λ x. indexed reg d x (pings_of rs)) (told reg d b)
              ∙ sym (indexed-pings_of r rs reg d (told_of env reg d b (positions w))),
          end,
        )
