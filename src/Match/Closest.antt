-- ===== src/Match/Closest.antt =====
-- internal/match/match.go: how good the choice is among the drivers that were found.
use taxi_app.Base.{
  ℕ, zero, suc, ◌≤◌, List, [], ◌∷◌, false, ◌≡◌, sym, ◌∙◌, subst, arith, ltb, length, take, All, inl,
  inr, Bool-cases,
}
use taxi_app.Float64.{Float64, IsComparable, ◌≼◌}
use taxi_app.Models.{RideRequest, Candidate}
use taxi_app.Infra.{Env}
use taxi_app.Infra.Sorting.{Ordered, IsStrictWeak, IsSort}
use taxi_app.Region
use taxi_app.Geo.{Result, ok, query, search_all, nearest, closer, ranked}
use taxi_app.Match.{chosen, choose, best, search_radius_km, candidate_limit}

length-take : {A : Type 0} (n : ℕ) (l : List A) → length (take n l) ≤ n
length-take zero l = omega arith
length-take (suc n) [] = omega arith
length-take (suc n) (x ∷ l) = omega (arith, length-take n l)

module _ {F : Type 0} ⦃fl : Float64 F⦄ (env : Env F) (laws : IsComparable F)
    (sorts : IsSort env.sort_slice) where
  open laws use {le_trans, le_of_not_lt, not_lt_of_le, le_of_lt}

  -- The distance is a number.
  abbrev pub Measured : Candidate F → Type 0
  Measured c = c.distance_km ≼ c.distance_km

  pub closer-IsStrictWeak : IsStrictWeak Measured (closer env)
  closer-IsStrictWeak = record {
    irreflexive = λ a n. not_lt_of_le _ _ n;
    asymmetric = λ a b n m h. not_lt_of_le _ _ (le_of_lt _ _ h);
    transitive = λ a b c n m k h g.
        not_lt_of_le _ _ (le_trans _ _ _ (le_of_not_lt _ _ m k g) (le_of_not_lt _ _ n m h));
  }

  length-ranked : (limit : ℕ) (all : List (Candidate F)) → length (ranked env limit all) ≤ limit
  length-ranked limit all = ground (arith, length-take limit (env.sort_slice (closer env) all))

  head_of_ranked :
      (limit : ℕ) (all : List (Candidate F)) (d : Candidate F) (ds : List (Candidate F))
      → ranked env (suc limit) all ≡ d ∷ ds
      → (rest : List (Candidate F)) × (env.sort_slice (closer env) all ≡ d ∷ rest)
  head_of_ranked limit all d ds h =
      elim (Bool-cases (ltb (suc limit) (length (env.sort_slice (closer env) all)))) [
        | inl long ↦ first (env.sort_slice (closer env) all) (rw long at h)
        | inr short ↦ (ds, rw short at h)
      ]
    where
      first :
          (l : List (Candidate F))
          → take (suc limit) l ≡ d ∷ ds
          → (rest : List (Candidate F)) × (l ≡ d ∷ rest)
      first [] e = absurd (cc e)
      first (x ∷ l) e = (l, ground arith)

  ranked-closest :
      (limit : ℕ) (all : List (Candidate F)) (d : Candidate F) (ds : List (Candidate F))
      → All Measured all
      → ranked env (suc limit) all ≡ d ∷ ds
      → All (λ c. closer env c d ≡ false) all
  ranked-closest limit all d ds m h =
      let (rest, e) = head_of_ranked limit all d ds h in
      let in_order =
        subst (Ordered (closer env)) e
          (sorts.ordered Measured (closer env) all closer-IsStrictWeak m) in
      let measured = subst (All Measured) e (sorts.keeps Measured (closer env) all m) in
      sorts.covers (λ c. closer env c d ≡ false) (closer env) all
        (subst (All (λ c. closer env c d ≡ false)) (sym e)
          (not_lt_of_le _ _ measured.0, in_order.0))

  -- What the searches around a request find.
  abbrev pub found_near : RideRequest F → env.redis.Db → Result (List (Candidate F))
  found_near req db =
      (search_all env (query req.lat req.lng search_radius_km candidate_limit)
        (Region.neighbors req.lat req.lng) [] db).0

  chosen-ranked :
      (all : List (Candidate F)) (d : Candidate F) (ds : List (Candidate F))
      → choose (ok all) ≡ chosen d ds
      → (rest : List (Candidate F)) × (all ≡ d ∷ rest) × (ds ≡ all)
  chosen-ranked [] d ds h = absurd (cc h)
  chosen-ranked (c ∷ cs) d ds h = (cs, ground arith, ground arith)

  -- Where sort.Slice sorts and all distances found are numbers, the driver that Best returns is first
  -- in a shortlist of at most ten, and no driver that the searches found is closer.
  pub best-closest :
      (req : RideRequest F) (db : env.redis.Db) (all : List (Candidate F)) (d : Candidate F)
      (ds : List (Candidate F))
      → found_near req db ≡ ok all
      → All Measured all
      → (best env req db).0 ≡ chosen d ds
      → All (λ c. closer env c d ≡ false) all
        × (length ds ≤ 10)
        × ((rest : List (Candidate F)) × (ds ≡ d ∷ rest))
  unfolding best nearest
  best-closest req db all d ds found m h =
      let (rest, cut, same) = chosen-ranked (ranked env 10 all) d ds (rw found at h) in
      (ranked-closest 9 all d rest m cut, rw same (length-ranked 10 all), (rest, same ∙ cut))
