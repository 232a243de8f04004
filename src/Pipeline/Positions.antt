-- ===== src/Pipeline/Positions.antt =====
-- cmd/locationworker/main.go on the location topic: what the geo sets hold after its run.
use taxi_app.Base.{
  String, Bool, false, Option, none, some, List, [], ◌∷◌, ◌++◌, ◌≡◌, refl, sym, ◌∙◌, ap, inl, inr,
  Bool-cases, Option-cases, arith, if◌then◌else◌, str_eq, eq_iff, All,
}
use taxi_app.Float64.{Float64}
use taxi_app.Models.{LocationUpdate}
use taxi_app.Region
use taxi_app.Infra.{Env, Message}
use taxi_app.Infra.Members.{IsMembership}
use taxi_app.Infra.Keys.{of_key}
use taxi_app.Geo.{geo_key, upsert}
use taxi_app.Geo.Members.{places, member-upsert}
use taxi_app.LocationWorker.{handle, consume}

-- Whether the last of the updates that place the driver in the region says that he is available.
unfoldable pub indexed :
    {F : Type 0} ⦃fl : Float64 F⦄ → String → String → Bool → List (LocationUpdate F) → Bool
indexed reg d b [] = b
indexed reg d b (u ∷ us) = indexed reg d (if places u reg d then u.available else b) us

module _ {F : Type 0} ⦃fl : Float64 F⦄ (env : Env F) where
  open env use {redis, location_json}

  -- The same over messages.
  abbrev pub heard : String → String → Bool → Option (LocationUpdate F) → Bool
  heard reg d b none = b
  heard reg d b (some u) = if places u reg d then u.available else b

  unfoldable pub told_of : String → String → Bool → List Message → Bool
  told_of reg d b [] = b
  told_of reg d b (m ∷ ms) = told_of reg d (heard reg d b (location_json.unmarshal m.value)) ms

  pub told_of-append :
      (reg d : String) (b : Bool) (ms : List Message) (m : Message)
      → told_of reg d b (ms ++ (m ∷ []))
        ≡ heard reg d (told_of reg d b ms) (location_json.unmarshal m.value)
  unfolding told_of
  told_of-append reg d b [] m = refl
  told_of-append reg d b (n ∷ ms) m =
      told_of-append reg d (heard reg d b (location_json.unmarshal n.value)) ms m

  -- A position stands under the key of its region.
  abbrev pub IsPlaced : Message → Type 0
  IsPlaced m =
      (u : LocationUpdate F)
      → location_json.unmarshal m.value ≡ some u
      → m.key ≡ Region.key u.lat u.lng

  -- The messages of one region's key tell all of that region.
  pub told_of-of_key :
      (reg d : String) (b : Bool) (ms : List Message)
      → All IsPlaced ms
      → told_of reg d b (of_key reg ms) ≡ told_of reg d b ms
  unfolding told_of of_key
  told_of-of_key reg d b [] h = refl
  told_of-of_key reg d b (m ∷ ms) h = elim (Bool-cases (str_eq m.key reg)) [
    | inl same ↦
        rw same (told_of-of_key reg d (heard reg d b (location_json.unmarshal m.value)) ms h.1)
    | inr other ↦
        rw other
          (told_of-of_key reg d b ms h.1 ∙ ap (λ x. told_of reg d x ms) (sym (elsewhere other)))
  ]
    where
      elsewhere : str_eq m.key reg ≡ false → heard reg d b (location_json.unmarshal m.value) ≡ b
      elsewhere other = elim (Option-cases (location_json.unmarshal m.value)) [
        | inl bad ↦ rw bad refl
        | inr (u, good) ↦
            rw good
              (ground (arith, eq_iff m.key reg, eq_iff (Region.key u.lat u.lng) reg, h.0 u good))
      ]

  -- What the worker's reads returned.
  unfoldable pub received : List (Option Message) → List Message
  received [] = []
  received (none ∷ rs) = received rs
  received (some m ∷ rs) = m ∷ received rs

  -- The `Upsert` that a read leads to returns no error.
  abbrev pub Upserted : Option Message → redis.Db → Type 0
  Upserted none db = Unit
  Upserted (some m) db =
      (u : LocationUpdate F) → location_json.unmarshal m.value ≡ some u → (upsert env u db).0 ≡ none

  unfoldable pub AllUpserted : List (Option Message) → redis.Db → Type 0
  AllUpserted [] db = Unit
  AllUpserted (r ∷ rs) db = Upserted r db × AllUpserted rs (handle env r db)

  module _ (laws : IsMembership env.redis) where
    -- After the worker's run a driver is in the geo set of a region as the messages tell.
    pub member-consume :
        (rs : List (Option Message)) (db : redis.Db) (reg d : String)
        → AllUpserted rs db
        → laws.member (consume env rs db) (geo_key reg) d
          ≡ told_of reg d (laws.member db (geo_key reg) d) (received rs)
    unfolding consume handle told_of received AllUpserted
    member-consume [] db reg d h = refl
    member-consume (none ∷ rs) db reg d h = member-consume rs db reg d h.1
    member-consume (some m ∷ rs) db reg d h =
        member-consume rs (handle env (some m) db) reg d h.1
        ∙ ap (λ x. told_of reg d x (received rs))
            (elim (Option-cases (location_json.unmarshal m.value)) [
              | inl bad ↦ rw (bad, handle) refl
              | inr (u, good) ↦ rw (good, handle) (member-upsert env laws u reg d db (h.0 u good))
            ])
