-- ===== src/Geo/Shards.antt =====
-- internal/geo/geo.go: which geo sets are written, and what the search of the coarse shard adds.
use text.Mathlib.TextLemmas.{append_cancel_left}
use taxi_app.Base.{
  ℕ, String, len, Bool, true, false, List, [], ◌∷◌, ◌++◌, ◌⊎◌, ◌≡◌, ◌≢◌, sym, ◌∙◌, ap, inl, inr,
  Bool-cases, if◌then◌else◌,
}
use taxi_app.Float64.{Float64}
use taxi_app.Models.{LocationUpdate, Candidate}
use taxi_app.Region
use taxi_app.Region.Shards
use taxi_app.Infra.{Env, Reply-cases, GeoLocation, GeoQuery}
use taxi_app.Infra.Laws.{IsGeoStore}
use taxi_app.Geo.{
  geo_key, Result, ok, err, Result-cases, query, remove, upsert, fresh, keep_fresh, search_all,
  nearest, candidate, rank_result,
}

pub geo_key-injective : (a b : String) → geo_key a ≡ geo_key b → a ≡ b
unfolding geo_key
geo_key-injective a b h = append_cancel_left "geo:drivers:" a b h

after {ℓ} :
    {A : Type ℓ} {x : Result A} {a b : A}
    → (x ≡ ok a) ⊎ ((e : String) × (x ≡ err e))
    → x ≡ ok b
    → ◌≡◌ {A = Result A} (ok a) (ok b)
after (inl p) h = sym p ∙ h
after (inr (e, p)) h = cc

module _ {F : Type 0} ⦃fl : Float64 F⦄ (env : Env F) (laws : IsGeoStore env.redis) where
  open env use {redis}
  open laws use {size, search_empty, tx_empty, search_keeps_empty, zrem_empty, exists_empty}

  key-ne : (lat lng : F) (c : String) → len c ≢ 4 → geo_key (Region.key lat lng) ≢ geo_key c
  unfolding Region.key
  key-ne lat lng c h e =
      h (ap len (sym (geo_key-injective _ _ e)) ∙ (Shards.geohash_shape lat lng 4).0)

  -- Indexing a driver puts nothing into a geo set whose code is not four characters long.
  pub upsert-size :
      (u : LocationUpdate F) (c : String) (db : redis.Db)
      → len c ≢ 4
      → size db (geo_key c) ≡ 0
      → size (upsert env u db).1 (geo_key c) ≡ 0
  unfolding upsert remove
  upsert-size u c db h e = elim (Bool-cases u.available) [
    | inl on ↦
        rw on (tx_empty _ (geo_key c) db (key-ne u.lat u.lng c h, ((λ x. x), ((λ x. x), tt))) e)
    | inr off ↦ rw off (tx_empty _ (geo_key c) db ((λ x. x), ((λ x. x), tt)) e)
  ]

  if-size :
      (b : Bool) (x y : redis.Db) (j : String)
      → size x j ≡ 0
      → size y j ≡ 0
      → size (if b then x else y) j ≡ 0
  if-size true x y j h k = h
  if-size false x y j h k = k

  keep_fresh-size :
      (k j : String) (locs : List (GeoLocation F)) (all : List (Candidate F)) (db : redis.Db)
      → size db j ≡ 0
      → size (keep_fresh env k locs all db).1 j ≡ 0
  unfolding keep_fresh fresh
  keep_fresh-size k j [] all db e = e
  keep_fresh-size k j (l ∷ locs) all db e =
      let alive = (fresh env l.name db).0 in
      let asked = (fresh env l.name db).1 in
      keep_fresh-size k j locs (if alive then all ++ (candidate env l ∷ []) else all)
        (if alive then asked else redis.zrem k l.name asked)
        (if-size alive asked (redis.zrem k l.name asked) j (exists_empty _ j db e)
          (zrem_empty k l.name j asked (exists_empty _ j db e)))

  search_one :
      (q : GeoQuery F) (c : String) (all : List (Candidate F)) (db : redis.Db)
      → size db (geo_key c) ≡ 0
      → ((search_all env q (c ∷ []) all db).0 ≡ ok all)
        ⊎ ((e : String) × ((search_all env q (c ∷ []) all db).0 ≡ err e))
  unfolding search_all keep_fresh
  search_one q c all db e = elim (Reply-cases (redis.geo_search (geo_key c) q db).0) [
    | inl (locs, r) ↦ inl (rw (r, search_all) (rw (search_empty (geo_key c) q db locs e r)))
    | inr (inl r) ↦ inl (rw (r, search_all))
    | inr (inr (m, r)) ↦ inr (m, rw (r, search_all))
  ]

  two_shards :
      (q : GeoQuery F) (a c : String) (db : redis.Db) (all : List (Candidate F))
      → size db (geo_key c) ≡ 0
      → (search_all env q (a ∷ c ∷ []) [] db).0 ≡ ok all
      → (search_all env q (a ∷ []) [] db).0 ≡ ok all
  unfolding search_all keep_fresh
  two_shards q a c db all e h =
      let sent = redis.geo_search (geo_key a) q db in
      let e' = search_keeps_empty (geo_key a) (geo_key c) q db e in
      elim (Reply-cases sent.0) [
        | inl (locs, r) ↦
            let kept = keep_fresh env (geo_key a) locs [] sent.1 in
            let one =
              search_one q c kept.0 kept.1
                (keep_fresh-size (geo_key a) (geo_key c) locs [] sent.1 e') in
            rw (r, search_all) (after one (rw (r, search_all) at h))
        | inr (inl r) ↦
            rw (r, search_all) (after (search_one q c [] sent.1 e') (rw (r, search_all) at h))
        | inr (inr (m, r)) ↦ rw (r, search_all) (rw (r, search_all) at h)
      ]

  -- While the coarse shard's geo set is empty, a successful `Nearest` returns what a search of the
  -- point's own shard alone returns: a driver in a neighbouring shard is not found.
  pub nearest_own_shard :
      (lat lng radius : F) (limit : ℕ) (db : redis.Db) (cs : List (Candidate F))
      → size db (geo_key (Region.geohash lat lng 3)) ≡ 0
      → (nearest env lat lng radius limit db).0 ≡ ok cs
      → rank_result env limit
          (search_all env (query lat lng radius limit) (Region.key lat lng ∷ []) [] db).0
        ≡ ok cs
  unfolding nearest
  nearest_own_shard lat lng radius limit db cs e h =
      let q = query lat lng radius limit in
      let names = Shards.neighbors_lem lat lng in
      let whole = (search_all env q (Region.neighbors lat lng) [] db).0 in
      elim (Result-cases whole) [
        | inl (all, p) ↦
            let own =
              two_shards q (Region.key lat lng) (Region.geohash lat lng 3) db all e
                (ap (λ ns. (search_all env q ns [] db).0) (sym names) ∙ p) in
            ap (rank_result env limit) (own ∙ sym p) ∙ h
        | inr (m, p) ↦ cc (ap (rank_result env limit) p)
      ]
