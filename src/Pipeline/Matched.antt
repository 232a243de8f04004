-- ===== src/Pipeline/Matched.antt =====
-- internal/match/match.go behind cmd/api/main.go and cmd/locationworker/main.go: whom a rider gets.
use taxi_app.Base.{
  String, len, true, false, Option, none, List, [], ◌∷◌, ◌≡◌, ◌≢◌, refl, sym, ◌∙◌, ap, subst, inl,
  inr, arith, str_eq, eq_iff, All, ltb, Bool-cases, ◌&&◌,
}
use taxi_app.Float64.{Float64}
use taxi_app.Models.{LocationUpdate, RideRequest, Candidate}
use taxi_app.Region
use taxi_app.Region.Shards as Shards
use taxi_app.Infra.{Env, Message, IsCodec}
use taxi_app.Infra.Laws.{IsLog, IsPresence}
use taxi_app.Infra.Sorting.{IsSort}
use taxi_app.Infra.Members.{IsMembership}
use taxi_app.Infra.Keys.{of_key}
use taxi_app.Geo.{geo_key, driver_key, Result, ok, err}
use taxi_app.Geo.Presence.{IsAvailable, nearest-IsAvailable}
use taxi_app.Match.{chosen, choose, best, search_radius_km, candidate_limit}
use taxi_app.LocationWorker.{consume}
use taxi_app.Api.{Topics, World, Request, ingest_limit, serve_all}
use taxi_app.Pipeline.Positions.{indexed, received, AllUpserted}
use taxi_app.Pipeline.Unpinged.{pings_of, positions}
use taxi_app.Pipeline.Pinged.{IsWritable}
use taxi_app.Pipeline.Indexed.{member-indexed}

-- Nobody reports from a region whose code is not four characters long.
indexed-coarse :
    {F : Type 0} ⦃fl : Float64 F⦄ (c d : String) (us : List (LocationUpdate F))
    → len c ≢ 4
    → indexed c d false us ≡ false
unfolding indexed Region.key
indexed-coarse c d [] h = refl
indexed-coarse c d (u ∷ us) h = elim (Bool-cases (str_eq (Region.geohash u.lat u.lng 4) c)) [
  | inl same ↦
      absurd (h (ap len (sym ((eq_iff _ _).0 same)) ∙ (Shards.geohash_shape u.lat u.lng 4).0))
  | inr other ↦
      let away : (str_eq u.driver_id d && str_eq (Region.geohash u.lat u.lng 4) c) ≡ false =
        ground arith in
      rw away (indexed-coarse c d us h)
]

-- The shortlist of a choice is what the search returned, the driver first.
choose-ok :
    {F : Type 0} (r : Result (List (Candidate F))) (d : Candidate F) (ds : List (Candidate F))
    → choose r ≡ chosen d ds
    → (r ≡ ok ds) × ((rest : List (Candidate F)) × (ds ≡ d ∷ rest))
choose-ok (err e) d ds h = absurd (cc h)
choose-ok (ok []) d ds h = absurd (cc h)
choose-ok (ok (c ∷ cs)) d ds h = (ground arith, (cs, ground arith))

module _ {F : Type 0} ⦃fl : Float64 F⦄ (env : Env F) (laws : IsMembership env.redis)
    (codec : IsCodec env.location_json) (kafka : IsLog env.kafka)
    (writes : (topic : String) (m : Message) (b : env.kafka.Broker)
      → (env.kafka.write_messages topic m b).0 ≡ none)
    (topics : Topics) (apart : str_eq topics.location topics.trip ≡ false)
    (presence : IsPresence env.redis) (sorts : IsSort env.sort_slice) where
  -- The last report of the driver from the region says that he is available.
  abbrev pub HasReported : String → List (Request F) → Candidate F → Type 0
  HasReported reg rs c = indexed reg c.driver_id false (pings_of rs) ≡ true

  All-HasReported :
      (reg coarse : String) (rs : List (Request F)) (db : env.redis.Db) (cs : List (Candidate F))
      → len coarse ≢ 4
      → ((r d : String) → presence.Member db (geo_key r) d → indexed r d false (pings_of rs) ≡ true)
      → All (IsAvailable env presence db (reg ∷ coarse ∷ [])) cs
      → All (λ c. presence.Alive db (driver_key c.driver_id) × HasReported reg rs c) cs
  All-HasReported reg coarse rs db [] short told h = tt
  All-HasReported reg coarse rs db (c ∷ cs) short told h = (
    (
      h.0.0,
      elim h.0.1 [
        | inl own ↦ told reg c.driver_id own
        | inr (inl far) ↦ absurd (
            cc (
              sym (indexed-coarse coarse c.driver_id (pings_of rs) short)
              ∙ told coarse c.driver_id far))
        | inr (inr never) ↦ absurd never
      ],
    ),
    All-HasReported reg coarse rs db cs short told h.1,
  )

  -- Where no write to Kafka fails and the two topics differ, searches find members only and sort.Slice
  -- keeps the items: after any requests one after the other, to a front door with room in its
  -- semaphore and an empty location topic, whose positions JSON can write, and after a worker has read
  -- the topic, the messages of each key in their order and those of different keys in any, failed
  -- reads between them, no Upsert failing, into geo sets that are empty at first, everybody in the
  -- shortlist that Best returns, the chosen driver first, has metadata that has not expired, and the
  -- last of his reports from the rider's own region says that he is available.
  pub best-HasReported :
      (rs : List (Request F)) (w : World env) (reads : List (Option Message)) (db : env.redis.Db)
      (req : RideRequest F) (d : Candidate F) (ds : List (Candidate F))
      → ltb w.in_flight ingest_limit ≡ true
      → All (IsWritable env kafka writes topics apart codec) (pings_of rs)
      → positions env kafka writes topics apart w ≡ []
      → AllUpserted env reads db
      → ((reg name : String) → laws.member db (geo_key reg) name ≡ false)
      → ((k : String)
          → of_key k (received env reads)
            ≡ of_key k (positions env kafka writes topics apart (serve_all env topics rs w)))
      → ((after : env.redis.Db) (k name : String)
          → presence.Member after k name
          → laws.member after k name ≡ true)
      → (best env req (consume env reads db)).0 ≡ chosen d ds
      → All
          (λ c.
            presence.Alive (consume env reads db) (driver_key c.driver_id)
            × HasReported (Region.key req.lat req.lng) rs c)
          ds
        × ((rest : List (Candidate F)) × (ds ≡ d ∷ rest))
  unfolding best
  best-HasReported rs w reads db req d ds room writable empty upserted out order agree h =
      let after = consume env reads db in
      let reg = Region.key req.lat req.lng in
      let coarse = Region.geohash req.lat req.lng 3 in
      let (searched, first) = choose-ok _ d ds h in
      let available : All (IsAvailable env presence after (reg ∷ coarse ∷ [])) ds =
        subst (λ regs. All (IsAvailable env presence after regs) ds)
          (Shards.neighbors_lem req.lat req.lng)
          (nearest-IsAvailable env presence sorts req.lat req.lng search_radius_km candidate_limit
            after ds searched) in
      let told : (r n : String)
          → presence.Member after (geo_key r) n
          → indexed r n false (pings_of rs) ≡ true =
        λ r n m.
          sym (
            member-indexed env laws codec kafka writes topics apart rs w reads db r n room writable
              empty upserted (out r n) order)
          ∙ agree after (geo_key r) n m in
      (
        All-HasReported reg coarse rs after ds
            (λ e. omega (arith, (Shards.geohash_shape req.lat req.lng 3).0)) told available,
        first,
      )
