-- ===== src/Surge/Demand.antt =====
-- internal/surge/surge.go: the multiplier that the recorded requests lead to.
use taxi_app.Base.{
  ℕ, ◌+◌, String, List, [], ◌∷◌, ◌≡◌, ◌≢◌, refl, sym, ◌∙◌, ap, inl, inr, arith, if◌then◌else◌,
  str_eq, eq_iff, first_differs,
}
use text.Mathlib.TextLemmas.{append_cancel_left}
use taxi_app.Base.Int.{pos}
use taxi_app.Float64.{Float64, IsMonotone, ◌≼◌}
use taxi_app.Region
use taxi_app.Infra.{Env}
use taxi_app.Infra.Counters.{IsCounting}
use taxi_app.Geo.{geo_key, supply}
use taxi_app.Surge.{demand_key, record_demand, count_of, multiplier, factor}
use taxi_app.Surge.Curve.{factor_mono}

demand_key-injective : (a b : String) → demand_key a ≡ demand_key b → a ≡ b
unfolding demand_key
demand_key-injective a b h = append_cancel_left "demand:" a b h

same_key : (a b : String) → a ≡ b → demand_key a ≡ demand_key b
same_key a b h = ap demand_key h

demand-ne-geo : (a b : String) → demand_key a ≢ geo_key b
unfolding demand_key geo_key
demand-ne-geo a b = first_differs "d" "g" "emand:" "eo:drivers:" a b (omega arith)

module _ {F : Type 0} ⦃fl : Float64 F⦄ where
  -- The places that are in the region.
  unfoldable pub inside : String → List (F × F) → ℕ
  inside reg [] = 0
  inside reg ((lat, lng) ∷ ps) = (if str_eq (Region.key lat lng) reg then 1 else 0) + inside reg ps

module _ {F : Type 0} ⦃fl : Float64 F⦄ (env : Env F)
    (laws : IsCounting env.redis env.parse_int) where
  open env use {redis}
  open laws use {count, size}

  -- A request at each of the places, in their order.
  pub record_all : List (F × F) → redis.Db → redis.Db
  record_all [] db = db
  record_all ((lat, lng) ∷ ps) db = record_all ps (record_demand env lat lng db)

  record_demand-count :
      (lat lng : F) (reg : String) (db : redis.Db)
      → count (record_demand env lat lng db) (demand_key reg)
        ≡ (if str_eq (Region.key lat lng) reg then 1 else 0) + count db (demand_key reg)
  unfolding record_demand
  record_demand-count lat lng reg db =
      laws.pipe_count _ (demand_key reg) db
      ∙ ground (
        arith,
        eq_iff (demand_key (Region.key lat lng)) (demand_key reg),
        eq_iff (Region.key lat lng) reg,
        demand_key-injective (Region.key lat lng) reg,
        same_key (Region.key lat lng) reg,
      )

  record_demand-size :
      (lat lng : F) (reg : String) (db : redis.Db)
      → size (record_demand env lat lng db) (geo_key reg) ≡ size db (geo_key reg)
  unfolding record_demand
  record_demand-size lat lng reg db =
      let apart = demand-ne-geo (Region.key lat lng) reg in
      laws.pipe_size _ (geo_key reg) db (apart, (apart, tt))

  record_all-count :
      (ps : List (F × F)) (reg : String) (db : redis.Db)
      → count (record_all ps db) (demand_key reg) ≡ inside reg ps + count db (demand_key reg)
  unfolding record_all inside
  record_all-count [] reg db = omega arith
  record_all-count ((lat, lng) ∷ ps) reg db = omega (
    arith,
    record_all-count ps reg (record_demand env lat lng db),
    record_demand-count lat lng reg db,
  )

  record_all-size :
      (ps : List (F × F)) (reg : String) (db : redis.Db)
      → size (record_all ps db) (geo_key reg) ≡ size db (geo_key reg)
  unfolding record_all
  record_all-size [] reg db = refl
  record_all-size ((lat, lng) ∷ ps) reg db =
      record_all-size ps reg (record_demand env lat lng db) ∙ record_demand-size lat lng reg db

  demand-count : (k : String) (db : redis.Db) → count_of env (redis.get k db).0 ≡ pos (count db k)
  unfolding count_of
  demand-count k db = elim (laws.get_count k db) [
    | inl (none_yet, zero_) ↦ rw none_yet (ap pos (sym zero_))
    | inr (s, answer, parsed) ↦ rw answer parsed
  ]

  multiplier-factor :
      (lat lng : F) (db : redis.Db)
      → (multiplier env lat lng db).0
        ≡ factor
            (pos (count db (demand_key (Region.key lat lng))))
            (size db (geo_key (Region.key lat lng)))
  unfolding multiplier supply
  multiplier-factor lat lng db =
      let reg = Region.key lat lng in
      let asked = (redis.get (demand_key reg) db).1 in
      rw
        (
          demand-count (demand_key reg) db,
          laws.zcard_size (geo_key reg) asked,
          laws.get_size (demand_key reg) (geo_key reg) db,
        )
        refl

  -- While Redis answers and no counter expires: after requests at any places, the multiplier at a place
  -- is the factor of the demand that was counted in its region, with one more for each of the requests
  -- that was in that region, and of its supply; and it is at least what it was before.
  pub multiplier-record_all :
      (mono : IsMonotone F) (ps : List (F × F)) (lat lng : F) (db : redis.Db)
      → ((multiplier env lat lng (record_all ps db)).0
          ≡ factor
              (pos (inside (Region.key lat lng) ps + count db (demand_key (Region.key lat lng))))
              (size db (geo_key (Region.key lat lng))))
        × ((multiplier env lat lng db).0 ≼ (multiplier env lat lng (record_all ps db)).0)
  multiplier-record_all mono ps lat lng db =
      let reg = Region.key lat lng in
      let before = count db (demand_key reg) in
      let after =
        multiplier-factor lat lng (record_all ps db)
        ∙ ap (λ n. factor (pos n) (size (record_all ps db) (geo_key reg)))
            (record_all-count ps reg db)
        ∙ ap (factor (pos (inside reg ps + before))) (record_all-size ps reg db) in
      (
        after,
        rw (after, multiplier-factor lat lng db)
            (factor_mono mono (pos before) (pos (inside reg ps + before)) (size db (geo_key reg))
              (omega arith)),
      )
