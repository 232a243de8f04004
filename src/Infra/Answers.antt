-- ===== src/Infra/Answers.antt =====
-- A Redis that answers, while no key expires: what a search and EXISTS answer, and that a command
-- changes this for its own key at most.
use taxi_app.Base.{ℕ, String, Bool, List, ◌≡◌, ◌≢◌, All, if◌then◌else◌}
use taxi_app.Base.Int.{pos}
use taxi_app.Infra.{Redis, Command, reply, GeoLocation, GeoQuery}
use taxi_app.Infra.Laws.{key_of}

pub record IsAnswering {F : Type 0} (r : Redis F) : Type 0 where
  pub alive : r.Db → String → Bool
  pub found : r.Db → String → GeoQuery F → List (GeoLocation F)
  pub exists_answer :
      (k : String) (db : r.Db) → (r.exists k db).0 ≡ reply (if alive db k then pos 1 else pos 0)
  pub search_answer :
      (k : String) (q : GeoQuery F) (db : r.Db) → (r.geo_search k q db).0 ≡ reply (found db k q)
  pub exists_alive : (k j : String) (db : r.Db) → alive (r.exists k db).1 j ≡ alive db j
  pub exists_found :
      (k j : String) (q : GeoQuery F) (db : r.Db) → found (r.exists k db).1 j q ≡ found db j q
  pub search_alive :
      (k j : String) (p : GeoQuery F) (db : r.Db) → alive (r.geo_search k p db).1 j ≡ alive db j
  pub search_found :
      (k j : String) (p q : GeoQuery F) (db : r.Db)
      → found (r.geo_search k p db).1 j q ≡ found db j q
  pub zcard_alive : (k j : String) (db : r.Db) → alive (r.zcard k db).1 j ≡ alive db j
  pub zcard_found :
      (k j : String) (q : GeoQuery F) (db : r.Db) → found (r.zcard k db).1 j q ≡ found db j q
  pub get_alive : (k j : String) (db : r.Db) → alive (r.get k db).1 j ≡ alive db j
  pub get_found :
      (k j : String) (q : GeoQuery F) (db : r.Db) → found (r.get k db).1 j q ≡ found db j q
  pub set_alive :
      (k s j : String) (ttl : ℕ) (db : r.Db) → k ≢ j → alive (r.set k s ttl db).1 j ≡ alive db j
  pub set_found :
      (k s j : String) (ttl : ℕ) (q : GeoQuery F) (db : r.Db)
      → k ≢ j
      → found (r.set k s ttl db).1 j q ≡ found db j q
  pub pipe_alive :
      (cs : List (Command F)) (j : String) (db : r.Db)
      → All (λ c. key_of c ≢ j) cs
      → alive (r.pipe_exec cs db).1 j ≡ alive db j
  pub pipe_found :
      (cs : List (Command F)) (j : String) (q : GeoQuery F) (db : r.Db)
      → All (λ c. key_of c ≢ j) cs
      → found (r.pipe_exec cs db).1 j q ≡ found db j q
