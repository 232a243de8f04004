-- ===== src/Geo/Reference.antt =====
-- internal/geo/geo.go, `Nearest`: what it answers, described without its code.
use mathlib.Core.List.{Perm}
use taxi_app.Base.{
  ℕ, zero, suc, ◌*◌, ◌≤◌, List, [], ◌∷◌, ◌++◌, ◌≡◌, false, refl, sym, ◌∙◌, ap, inl, inr, Bool-cases,
  arith, All, take, length, ltb,
}
use taxi_app.Float64.{Float64, IsComparable, ◌≼◌}
use taxi_app.Models.{Candidate}
use taxi_app.Region
use taxi_app.Infra.{Env, GeoQuery}
use taxi_app.Infra.Answers.{IsAnswering}
use taxi_app.Infra.Evictions.{IsEvicting}
use taxi_app.Infra.Sorting.{Ordered, IsSort, IsPermuting}
use taxi_app.Geo.{ok, closer, nearest, query, ranked, rank_result}
use taxi_app.Geo.Present.{present, search_all-two}
use taxi_app.Match.Closest.{Measured, closer-IsStrictWeak}

take-all : {A : Type 0} (n : ℕ) (l : List A) → length l ≤ n → take n l ≡ l
take-all zero [] h = refl
take-all zero (x ∷ l) h = absurd (omega arith)
take-all (suc n) [] h = refl
take-all (suc n) (x ∷ l) h = ap (λ m. x ∷ m) (take-all n l (omega arith))

-- The search that is asked of Redis: three times as many as are wanted.
abbrev pub wanted : {F : Type 0} → F → F → F → ℕ → GeoQuery F
wanted lat lng radius limit = record {
  longitude = lng;
  latitude = lat;
  radius = radius;
  count = limit * 3;
}

module _ {F : Type 0} ⦃fl : Float64 F⦄ where
  -- No candidate is farther than one after it.
  pub Ascending : List (Candidate F) → Type 0
  Ascending [] = Unit
  Ascending (c ∷ cs) = All (λ d. c.distance_km ≼ d.distance_km) cs × Ascending cs

module _ {F : Type 0} ⦃fl : Float64 F⦄ (env : Env F) (laws : IsAnswering env.redis)
    (evicting : IsEvicting env.redis laws) (numbers : IsComparable F)
    (sorts : IsSort env.sort_slice) (permuting : IsPermuting env.sort_slice) where
  open env use {redis, sort_slice}

  ranked-take :
      (limit : ℕ) (all : List (Candidate F))
      → ranked env limit all ≡ take limit (sort_slice (closer env) all)
  ranked-take limit all =
      let sorted = sort_slice (closer env) all in
      elim (Bool-cases (ltb limit (length sorted))) [
        | inl long ↦ rw long refl
        | inr short ↦ rw short (sym (take-all limit sorted (ground arith)))
      ]

  least :
      (c : Candidate F) (cs : List (Candidate F))
      → c.distance_km ≼ c.distance_km
      → All (Measured env numbers sorts) cs
      → All (λ d. closer env d c ≡ false) cs
      → All (λ d. c.distance_km ≼ d.distance_km) cs
  least c [] n m h = tt
  least c (d ∷ cs) n m h = (numbers.le_of_not_lt _ _ m.0 n h.0, least c cs n m.1 h.1)

  Ordered-Ascending :
      (cs : List (Candidate F))
      → All (Measured env numbers sorts) cs
      → Ordered (closer env) cs
      → Ascending cs
  unfolding Ascending
  Ordered-Ascending [] m h = tt
  Ordered-Ascending (c ∷ cs) m h = (least c cs m.0 m.1 h.0, Ordered-Ascending cs m.1 h.1)

  -- Who is found in the two shards, and not stale.
  abbrev pub in_both : F → F → F → ℕ → redis.Db → List (Candidate F)
  in_both lat lng radius limit db =
      present env laws evicting db (wanted lat lng radius limit) (Region.key lat lng)
      ++ present env laws evicting db (wanted lat lng radius limit) (Region.geohash lat lng 3)

  -- Where Redis answers, no key expires, ZREM changes its own set only, sort.Slice sorts and the
  -- distances that are found are numbers: `Nearest` answers the first `limit` of a list that is
  -- ascending by distance and has, each as often, the drivers that a search of the point's own shard
  -- and one of its coarse shard find at the call and whose metadata has not expired then.
  pub nearest-reference :
      (lat lng radius : F) (limit : ℕ) (db : redis.Db)
      → All (Measured env numbers sorts) (in_both lat lng radius limit db)
      → (sorted : List (Candidate F)) × Perm sorted (in_both lat lng radius limit db)
        × Ascending sorted
        × ((nearest env lat lng radius limit db).0 ≡ ok (take limit sorted))
  unfolding nearest
  nearest-reference lat lng radius limit db m =
      let all = in_both lat lng radius limit db in
      let kept = sorts.keeps (Measured env numbers sorts) (closer env) all m in
      let order =
        sorts.ordered (Measured env numbers sorts) (closer env) all
          (closer-IsStrictWeak env numbers sorts) m in
      (
        sort_slice (closer env) all,
        permuting.permutes (closer env) all,
        Ordered-Ascending (sort_slice (closer env) all) kept order,
        ap (rank_result env limit)
              (search_all-two env laws evicting lat lng (query lat lng radius limit) db)
            ∙ ap ok (ranked-take limit all),
      )
