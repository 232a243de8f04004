-- ===== src/LocationWorker/Index.antt =====
-- cmd/locationworker/main.go: what the worker leaves in the geo sets, and what a search then finds.
use taxi_app.Base.{
  ℕ, String, len, Option, none, some, List, [], ◌∷◌, ◌≡◌, ◌≢◌, inl, inr, Option-cases, arith,
}
use taxi_app.Float64.{Float64}
use taxi_app.Models.{Candidate}
use taxi_app.Region
use taxi_app.Region.Shards
use taxi_app.Infra.{Env, Message}
use taxi_app.Infra.Laws.{IsGeoStore}
use taxi_app.Geo.{geo_key, ok, query, nearest, search_all, rank_result}
use taxi_app.Geo.Shards.{upsert-size, nearest_own_shard}
use taxi_app.LocationWorker.{handle, consume}

module _ {F : Type 0} ⦃fl : Float64 F⦄ (env : Env F) (laws : IsGeoStore env.redis) where
  open env use {redis, location_json}
  open laws use {size}

  handle-size :
      (m : Option Message) (c : String) (db : redis.Db)
      → len c ≢ 4
      → size db (geo_key c) ≡ 0
      → size (handle env m db) (geo_key c) ≡ 0
  unfolding handle
  handle-size none c db h e = e
  handle-size (some m) c db h e = elim (Option-cases (location_json.unmarshal m.value)) [
    | inl bad ↦ rw (bad, handle) e
    | inr (u, good) ↦ rw (good, handle) (upsert-size env laws u c db h e)
  ]

  consume-size :
      (ms : List (Option Message)) (c : String) (db : redis.Db)
      → len c ≢ 4
      → size db (geo_key c) ≡ 0
      → size (consume env ms db) (geo_key c) ≡ 0
  unfolding consume
  consume-size [] c db h e = e
  consume-size (m ∷ ms) c db h e = consume-size ms c (handle env m db) h (handle-size m c db h e)

  -- In a store that keeps its geo sets as documented: after the worker has consumed any messages, from
  -- a database without geo sets, a successful `Nearest` returns what a search of the point's own shard
  -- alone returns: the coarse shard, which is searched for the drivers just over a boundary, adds none.
  pub nearest-consume :
      (ms : List (Option Message)) (db : redis.Db) (lat lng radius : F) (limit : ℕ)
      (cs : List (Candidate F))
      → ((c : String) → size db (geo_key c) ≡ 0)
      → (nearest env lat lng radius limit (consume env ms db)).0 ≡ ok cs
      → rank_result env limit
          (search_all env
            (query lat lng radius limit)
            (Region.key lat lng ∷ [])
            []
            (consume env ms db)).0
        ≡ ok cs
  nearest-consume ms db lat lng radius limit cs e h =
      let coarse = Region.geohash lat lng 3 in
      let short : len coarse ≢ 4 = λ p. omega (arith, (Shards.geohash_shape lat lng 3).0) in
      nearest_own_shard env laws lat lng radius limit (consume env ms db) cs
        (consume-size ms coarse db short (e coarse)) h
