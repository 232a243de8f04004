-- ===== src/Geo/Members.antt =====
-- internal/geo/geo.go: who is in which geo set after `Upsert`.
use taxi_app.Base.{
  first_differs, String, Bool, none, ◌≡◌, ◌≢◌, sym, ◌∙◌, ap, inl, inr, Bool-cases, arith,
  if◌then◌else◌, str_eq, eq_iff, ◌&&◌,
}
use taxi_app.Float64.{Float64}
use taxi_app.Models.{LocationUpdate}
use taxi_app.Region
use taxi_app.Infra.{Env}
use taxi_app.Infra.Members.{IsMembership}
use taxi_app.Geo.{geo_key, driver_key, remove, upsert}
use taxi_app.Geo.Shards.{geo_key-injective}

driver_key-ne-geo_key : (d reg : String) → driver_key d ≢ geo_key reg
unfolding driver_key geo_key
driver_key-ne-geo_key d reg = first_differs "d" "g" "river:" "eo:drivers:" d reg (omega arith)

-- The update is about the driver, and its position is in the region.
abbrev pub places : {F : Type 0} ⦃fl : Float64 F⦄ → LocationUpdate F → String → String → Bool
places u reg d = str_eq u.driver_id d && str_eq (Region.key u.lat u.lng) reg

module _ {F : Type 0} ⦃fl : Float64 F⦄ (env : Env F) (laws : IsMembership env.redis) where
  open env use {redis}
  open laws use {member, tx_member}

  geo_key-eq : (a b : String) → str_eq (geo_key a) (geo_key b) ≡ str_eq a b
  geo_key-eq a b = elim (Bool-cases (str_eq a b)) [
    | inl same ↦ (eq_iff (geo_key a) (geo_key b)).1 (ap geo_key ((eq_iff a b).0 same)) ∙ sym same
    | inr other ↦ ground (arith, eq_iff a b, eq_iff (geo_key a) (geo_key b), geo_key-injective a b)
  ]

  -- An `Upsert` without an error sets the driver's membership in the region of the update to what the
  -- update says, and changes no other membership.
  pub member-upsert :
      (u : LocationUpdate F) (reg d : String) (db : redis.Db)
      → (upsert env u db).0 ≡ none
      → member (upsert env u db).1 (geo_key reg) d
        ≡ (if places u reg d then u.available else member db (geo_key reg) d)
  unfolding upsert remove
  member-upsert u reg d db h = elim (Bool-cases u.available) [
    | inl on ↦ rw on (
        tx_member _ (geo_key reg) d db (rw on at h)
        ∙ rw (geo_key-eq (Region.key u.lat u.lng) reg) (ground arith))
    | inr off ↦ rw off (
        tx_member _ (geo_key reg) d db (rw off at h)
        ∙ rw (geo_key-eq (Region.key u.lat u.lng) reg) (
            ground (
              arith,
              eq_iff (driver_key u.driver_id) (geo_key reg),
              driver_key-ne-geo_key u.driver_id reg,
            )))
  ]
