-- ===== src/Geo/Presence.antt =====
-- internal/geo/geo.go: whom `Nearest` returns.
use taxi_app.Base.{
  ℕ, zero, suc, String, Bool, true, false, List, [], ◌∷◌, ◌++◌, ◌⊎◌, ◌≡◌, subst, inl, inr,
  Bool-cases, if◌then◌else◌, All, All-append, take, ltb, length, arith,
}
use taxi_app.Float64.{Float64}
use taxi_app.Models.{Candidate}
use taxi_app.Region
use taxi_app.Infra.{Env, Reply-cases, GeoLocation, GeoQuery}
use taxi_app.Infra.Laws.{IsPresence}
use taxi_app.Infra.Sorting.{IsSort}
use taxi_app.Geo.{
  geo_key, driver_key, Result, ok, Result-cases, query, fresh, candidate, keep_fresh, search_all,
  closer, nearest,
}

All-take : {A : Type 0} (P : A → Type 0) (n : ℕ) (l : List A) → All P l → All P (take n l)
All-take P zero l h = tt
All-take P (suc n) [] h = tt
All-take P (suc n) (x ∷ l) h = (h.0, All-take P n l h.1)

All-map : {A : Type 0} (P Q : A → Type 0) (l : List A) → ((x : A) → P x → Q x) → All P l → All Q l
All-map P Q [] f h = tt
All-map P Q (x ∷ l) f h = (f x h.0, All-map P Q l f h.1)

module _ {F : Type 0} ⦃fl : Float64 F⦄ (env : Env F) (laws : IsPresence env.redis) where
  open env use {redis}
  open laws use {Alive, Member}

  -- A member of the geo set of one of the regions.
  abbrev pub InOneOf : redis.Db → List String → String → Type 0
  InOneOf db [] name = ⊥
  InOneOf db (reg ∷ regs) name = Member db (geo_key reg) name ⊎ InOneOf db regs name

  -- The driver's metadata has not expired, and he is indexed in one of the regions.
  abbrev pub IsAvailable : redis.Db → List String → Candidate F → Type 0
  IsAvailable db regs c = Alive db (driver_key c.driver_id) × InOneOf db regs c.driver_id

  -- What is there later was there at first.
  record Later (first db : redis.Db) : Type 0 where
    alive : (j : String) → Alive db j → Alive first j
    member : (j name : String) → Member db j name → Member first j name

  fresh-Later :
      (first db : redis.Db) (name : String) → Later first db → Later first (fresh env name db).1
  unfolding fresh
  fresh-Later first db name h = record {
    alive = λ j a. h.alive j (laws.exists_revives_none _ j db a);
    member = λ j n m. h.member j n (laws.exists_keeps _ j n db m);
  }

  zrem-Later :
      (first db : redis.Db) (k name : String) → Later first db → Later first (redis.zrem k name db)
  zrem-Later first db k name h = record {
    alive = λ j a. h.alive j (laws.zrem_revives_none k name j db a);
    member = λ j n m. h.member j n (laws.zrem_keeps k name j n db m);
  }

  search-Later :
      (first db : redis.Db) (k : String) (q : GeoQuery F)
      → Later first db
      → Later first (redis.geo_search k q db).1
  search-Later first db k q h = record {
    alive = λ j a. h.alive j (laws.search_alive k j q db a);
    member = λ j n m. h.member j n (laws.search_keeps k j n q db m);
  }

  if-Later :
      (b : Bool) (first x y : redis.Db)
      → Later first x
      → Later first y
      → Later first (if b then x else y)
  if-Later true first x y h k = h
  if-Later false first x y h k = k

  -- A driver that `fresh` accepts has not expired.
  fresh_lem :
      (name : String) (db : redis.Db) → (fresh env name db).0 ≡ true → Alive db (driver_key name)
  unfolding fresh
  fresh_lem name db h = elim (Reply-cases (redis.exists (driver_key name) db).0) [
    | inl (n, r) ↦ laws.exists_alive (driver_key name) n db r (rw r at h)
    | inr (inl r) ↦ absurd (cc (rw r at h))
    | inr (inr (e, r)) ↦ absurd (cc (rw r at h))
  ]

  module _ (first : redis.Db) (regs : List String) where
    kept-IsAvailable :
        (l : GeoLocation F) (all : List (Candidate F)) (db : redis.Db)
        → Later first db
        → InOneOf first regs l.name
        → All (IsAvailable first regs) all
        → All
            (IsAvailable first regs)
            (if (fresh env l.name db).0 then all ++ (candidate env l ∷ []) else all)
    unfolding candidate
    kept-IsAvailable l all db h m a = elim (Bool-cases (fresh env l.name db).0) [
      | inl alive ↦ rw alive (
          All-append (IsAvailable first regs) all _ a
            ((h.alive _ (fresh_lem l.name db alive), m), tt))
      | inr stale ↦ rw stale a
    ]

    keep_fresh-IsAvailable :
        (k : String) (locs : List (GeoLocation F)) (all : List (Candidate F)) (db : redis.Db)
        → Later first db
        → All (λ l. InOneOf first regs l.name) locs
        → All (IsAvailable first regs) all
        → All (IsAvailable first regs) (keep_fresh env k locs all db).0
          × Later first (keep_fresh env k locs all db).1
    unfolding keep_fresh
    keep_fresh-IsAvailable k [] all db h m a = (a, h)
    keep_fresh-IsAvailable k (l ∷ locs) all db h m a =
        let asked = fresh-Later first db l.name h in
        keep_fresh-IsAvailable k locs _ _
          (if-Later (fresh env l.name db).0 first _ _ asked (zrem-Later first _ k l.name asked)) m.1
          (kept-IsAvailable l all db h m.0 a)

    search_all-IsAvailable :
        (q : GeoQuery F) (rest : List String) (all out : List (Candidate F)) (db : redis.Db)
        → Later first db
        → All
            (λ reg. (name : String) → Member first (geo_key reg) name → InOneOf first regs name)
            rest
        → All (IsAvailable first regs) all
        → (search_all env q rest all db).0 ≡ ok out
        → All (IsAvailable first regs) out
    unfolding search_all keep_fresh
    search_all-IsAvailable q [] all out db h m a e =
        let same : all ≡ out = ground arith in subst (All (IsAvailable first regs)) same a
    search_all-IsAvailable q (reg ∷ rest) all out db h m a e =
        let sent = redis.geo_search (geo_key reg) q db in
        let later = search-Later first db (geo_key reg) q h in
        elim (Reply-cases sent.0) [
          | inl (locs, r) ↦
              let members =
                All-map _ (λ l. InOneOf first regs l.name) locs
                  (λ l x. m.0 l.name (h.member _ l.name x))
                  (laws.search_member (geo_key reg) q db locs r) in
              let (kept, after) =
                keep_fresh-IsAvailable (geo_key reg) locs all sent.1 later members a in
              search_all-IsAvailable q rest _ out _ after m.1 kept (rw (r, search_all) at e)
          | inr (inl r) ↦
              search_all-IsAvailable q rest all out sent.1 later m.1 a (rw (r, search_all) at e)
          | inr (inr (x, r)) ↦ absurd (cc (rw (r, search_all) at e))
        ]

  own-InOneOf :
      (db : redis.Db) (regs : List String)
      → All (λ reg. (name : String) → Member db (geo_key reg) name → InOneOf db regs name) regs
  own-InOneOf db [] = tt
  own-InOneOf db (reg ∷ regs) =
      ((λ name m. inl m), All-map _ _ regs (λ r f name m. inr (f name m)) (own-InOneOf db regs))

  -- Where sort.Slice keeps the items, every driver that Nearest returns was there when it was called:
  -- his metadata had not expired, and he was indexed in one of the regions that Neighbors names.
  pub nearest-IsAvailable :
      (sorts : IsSort env.sort_slice) (lat lng radius : F) (limit : ℕ) (db : redis.Db)
      (cs : List (Candidate F))
      → (nearest env lat lng radius limit db).0 ≡ ok cs
      → All (IsAvailable db (Region.neighbors lat lng)) cs
  unfolding nearest
  nearest-IsAvailable sorts lat lng radius limit db cs h =
      let regs = Region.neighbors lat lng in
      let q = query lat lng radius limit in
      elim (Result-cases (search_all env q regs [] db).0) [
        | inl (all, p) ↦
            let good =
              search_all-IsAvailable db regs q regs [] all db
                (record { alive = λ j a. a; member = λ j n m. m }) (own-InOneOf db regs) tt p in
            let kept = sorts.keeps (IsAvailable db regs) (closer env) all good in
            let cut = rw p at h in
            elim (Bool-cases (ltb limit (length (env.sort_slice (closer env) all)))) [
              | inl long ↦
                  same_items (take limit (env.sort_slice (closer env) all)) cs
                    (All-take (IsAvailable db regs) limit _ kept) (rw long at cut)
              | inr short ↦ same_items (env.sort_slice (closer env) all) cs kept (rw short at cut)
            ]
        | inr (e, p) ↦ absurd (cc (rw p at h))
      ]
    where
      same_items :
          (xs ys : List (Candidate F))
          → All (IsAvailable db (Region.neighbors lat lng)) xs
          → ◌≡◌ {A = Result (List (Candidate F))} (ok xs) (ok ys)
          → All (IsAvailable db (Region.neighbors lat lng)) ys
      same_items xs ys good e =
          let same : xs ≡ ys = ground arith in
          subst (All (IsAvailable db (Region.neighbors lat lng))) same good
