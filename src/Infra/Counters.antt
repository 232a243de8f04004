-- ===== src/Infra/Counters.antt =====
-- A Redis that answers, while no counter expires: what GET answers at a counter, and ZCARD at a set.
use taxi_app.Base.{ℕ, suc, String, List, [], ◌∷◌, ◌≡◌, ◌≢◌, ◌⊎◌, All, if◌then◌else◌, str_eq}
use taxi_app.Base.Int.{ℤ, pos}
use taxi_app.Infra.{Redis, Command, geo_add, h_set, expire, z_rem, del, incr, reply, missing}
use taxi_app.Infra.Laws.{key_of}

-- The number at the key after a command.
abbrev pub counted_after : {F : Type 0} → String → ℕ → Command F → ℕ
counted_after k n (incr key) = if str_eq key k then suc n else n
counted_after k n (del key) = if str_eq key k then 0 else n
counted_after k n (geo_add key name longitude latitude) = n
counted_after k n (h_set key region lat lng ts) = n
counted_after k n (expire key ttl) = n
counted_after k n (z_rem key name) = n

abbrev pub counted_all : {F : Type 0} → String → ℕ → List (Command F) → ℕ
counted_all k n [] = n
counted_all k n (c ∷ cs) = counted_all k (counted_after k n c) cs

-- `parse` is the reader of numbers of the client.
pub record IsCounting {F : Type 0} (r : Redis F) (parse : String → ℤ) : Type 0 where
  pub count : r.Db → String → ℕ
  pub size : r.Db → String → ℤ
  pub get_count :
      (k : String) (db : r.Db)
      → (((r.get k db).0 ≡ missing) × (count db k ≡ 0))
        ⊎ ((s : String) × ((r.get k db).0 ≡ reply s) × (parse s ≡ pos (count db k)))
  pub get_size : (k j : String) (db : r.Db) → size (r.get k db).1 j ≡ size db j
  pub zcard_size : (k : String) (db : r.Db) → (r.zcard k db).0 ≡ reply (size db k)
  pub pipe_count :
      (cs : List (Command F)) (k : String) (db : r.Db)
      → count (r.pipe_exec cs db).1 k ≡ counted_all k (count db k) cs
  pub pipe_size :
      (cs : List (Command F)) (k : String) (db : r.Db)
      → All (λ c. key_of c ≢ k) cs
      → size (r.pipe_exec cs db).1 k ≡ size db k
