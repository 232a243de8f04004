-- ===== src/Pipeline/Indexed.antt =====
-- cmd/locationworker/main.go behind cmd/api/main.go: the geo sets hold what the drivers reported.
use taxi_app.Base.{
  String, true, false, Option, none, List, [], ◌≡◌, refl, sym, ◌∙◌, ap, subst, str_eq, All, ltb,
}
use taxi_app.Float64.{Float64}
use taxi_app.Infra.{Env, Message, IsCodec}
use taxi_app.Infra.Laws.{IsLog}
use taxi_app.Infra.Members.{IsMembership}
use taxi_app.Infra.Keys.{of_key, All-of_key, of_key-All}
use taxi_app.Geo.{geo_key}
use taxi_app.LocationWorker.{consume}
use taxi_app.Api.{Topics, World, Request, ingest_limit, serve_all}
use taxi_app.Pipeline.Positions.{
  indexed, told_of, told_of-of_key, IsPlaced, received, AllUpserted, member-consume,
}
use taxi_app.Pipeline.Unpinged.{pings_of, positions}
use taxi_app.Pipeline.Pinged.{IsWritable, serve_all-positions}

module _ {F : Type 0} ⦃fl : Float64 F⦄ (env : Env F) (laws : IsMembership env.redis)
    (codec : IsCodec env.location_json) (kafka : IsLog env.kafka)
    (writes : (topic : String) (m : Message) (b : env.kafka.Broker)
      → (env.kafka.write_messages topic m b).0 ≡ none)
    (topics : Topics) (apart : str_eq topics.location topics.trip ≡ false) where
  -- Where no write to Kafka fails and the two topics differ: after any requests one after the other, to
  -- a front door with room in its semaphore and an empty location topic, whose positions JSON can write,
  -- and after a worker has read the topic, the messages of each key in their order and those of
  -- different keys in any, failed reads between them, no Upsert failing, into geo sets that are empty
  -- at first, a driver is in the geo set of a region exactly if the last of his reports from that
  -- region says that he is available; what he reports from other regions does not count.
  pub member-indexed :
      (rs : List (Request F)) (w : World env) (reads : List (Option Message)) (db : env.redis.Db)
      (reg d : String)
      → ltb w.in_flight ingest_limit ≡ true
      → All (IsWritable env kafka writes topics apart codec) (pings_of rs)
      → positions env kafka writes topics apart w ≡ []
      → AllUpserted env reads db
      → laws.member db (geo_key reg) d ≡ false
      → ((k : String)
          → of_key k (received env reads)
            ≡ of_key k (positions env kafka writes topics apart (serve_all env topics rs w)))
      → laws.member (consume env reads db) (geo_key reg) d ≡ indexed reg d false (pings_of rs)
  member-indexed rs w reads db reg d room writable empty upserted out order =
      let sent = positions env kafka writes topics apart (serve_all env topics rs w) in
      let none_yet : All (IsPlaced env) (positions env kafka writes topics apart w) =
        subst (λ ms. All (IsPlaced env) ms) (sym empty) tt in
      let (told, placed) =
        serve_all-positions env kafka writes topics apart codec rs w room writable none_yet in
      let arrived : All (IsPlaced env) (received env reads) =
        All-of_key (IsPlaced env) (received env reads) λ k.
          subst (λ ms. All (IsPlaced env) ms) (sym (order k))
            (of_key-All (IsPlaced env) k sent placed) in
      member-consume env laws reads db reg d upserted
      ∙ ap (λ b. told_of env reg d b (received env reads)) out
      ∙ sym (told_of-of_key env reg d false (received env reads) arrived)
      ∙ ap (told_of env reg d false) (order reg)
      ∙ told_of-of_key env reg d false sent placed
      ∙ told reg d false
      ∙ ap (λ ms. indexed reg d (told_of env reg d false ms) (pings_of rs)) empty
      ∙ unfold told_of in refl
