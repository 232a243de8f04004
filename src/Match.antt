-- ===== src/Match.antt =====
-- internal/match/match.go: the choice of the driver.
pub mod Closest
use taxi_app.Base.{ℕ, List, [], ◌∷◌, ◌≡◌, ◌⊎◌, inl, inr, refl}
use taxi_app.Float64.{Float64, whole}
use taxi_app.Models.{RideRequest, Candidate}
use taxi_app.Infra.{Env}
use taxi_app.Geo
use taxi_app.Geo.{Result, ok, err}

abbrev pub search_radius_km : {F : Type 0} ⦃fl : Float64 F⦄ → F
search_radius_km = whole 5

abbrev pub candidate_limit : ℕ
candidate_limit = 10

-- The best driver and the shortlist, `ok=false`, or an error.
pub data Choice (F : Type 0) : Type 0 where
  chosen : Candidate F → List (Candidate F) → Choice F
  nobody : Choice F
  failure : Choice F

pub Choice-cases :
    {F : Type 0} (c : Choice F)
    → (c ≡ nobody)
      ⊎ ((c ≡ failure) ⊎ ((d : Candidate F) × (ds : List (Candidate F)) × (c ≡ chosen d ds)))
Choice-cases (chosen d ds) = inr (inr (d, ds, refl))
Choice-cases nobody = inl refl
Choice-cases failure = inr (inl refl)

abbrev pub choose : {F : Type 0} → Result (List (Candidate F)) → Choice F
choose (err e) = failure
choose (ok []) = nobody
choose (ok (c ∷ cs)) = chosen c (c ∷ cs)

module _ {F : Type 0} ⦃fl : Float64 F⦄ (env : Env F) where
  open env use {redis}

  -- `Best`
  unfoldable pub best : RideRequest F → redis.Db → Choice F × redis.Db
  best req db =
      let (r, db') = Geo.nearest env req.lat req.lng search_radius_km candidate_limit db in
      (choose r, db')
