-- ===== src/Infra/Evictions.antt =====
-- What ZREM leaves alone: the keys' lives, and the members of every other set.
use taxi_app.Base.{String, ◌≡◌, ◌≢◌}
use taxi_app.Infra.{Redis, GeoQuery}
use taxi_app.Infra.Answers.{IsAnswering}

pub record IsEvicting {F : Type 0} (r : Redis F) (answers : IsAnswering r) : Type 0 where
  pub zrem_alive :
      (k name j : String) (db : r.Db) → answers.alive (r.zrem k name db) j ≡ answers.alive db j
  pub zrem_found :
      (k name j : String) (q : GeoQuery F) (db : r.Db)
      → k ≢ j
      → answers.found (r.zrem k name db) j q ≡ answers.found db j q
