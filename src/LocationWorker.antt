-- ===== src/LocationWorker.antt =====
-- cmd/locationworker/main.go: index each driver's position.
pub mod Index
pub mod Life
use taxi_app.Base.{Option, none, some, List, [], ◌∷◌}
use taxi_app.Float64.{Float64}
use taxi_app.Infra.{Env, Message}
use taxi_app.Geo

module _ {F : Type 0} ⦃fl : Float64 F⦄ (env : Env F) where
  open env use {redis, location_json}

  -- One round of the loop: `none` is a read error; a poison message is skipped, and so is the error
  -- of `Upsert`.
  unfoldable pub handle : Option Message → redis.Db → redis.Db
  handle none db = db
  handle (some m) db = elim (location_json.unmarshal m.value) [
    | none ↦ db
    | some u ↦ (Geo.upsert env u db).1
  ]

  unfoldable pub consume : List (Option Message) → redis.Db → redis.Db
  consume [] db = db
  consume (m ∷ ms) db = consume ms (handle m db)
