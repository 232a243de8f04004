-- ===== src/LocationWorker/Life.antt =====
-- cmd/locationworker/main.go: `main` from its start to its end.
use taxi_app.Base.{ℕ, String, Bool, true, false, Option, none, some, List, [], ◌∷◌, ◌≡◌, refl}
use taxi_app.Float64.{Float64}
use taxi_app.Infra.{Env, Message}
use taxi_app.Boot.{Boot, fatal, panics, serving, boot_locationworker}
use taxi_app.LocationWorker.{handle, consume}

-- What `ReadMessage` returns: a message, an error, or an error once a signal has cancelled `ctx`.
pub data Read : Type 0 where
  message : Message → Read
  read_error : Read
  cancelled : Read

module _ {F : Type 0} ⦃fl : Float64 F⦄ (env : Env F) where
  open env use {redis}

  -- The process: whether the loop is still on, whether `reader` is open, and what Redis holds.
  pub record Process : Type 0 where
    pub running : Bool
    pub reader_open : Bool
    pub db : redis.Db

  -- The loop; its return runs `reader.Close`.
  unfoldable pub loop : List Read → redis.Db → Process
  loop [] db = record { running = true; reader_open = true; db = db }
  loop (message m ∷ rs) db = loop rs (handle env (some m) db)
  loop (read_error ∷ rs) db = loop rs (handle env none db)
  loop (cancelled ∷ rs) db = record { running = false; reader_open = false; db = db }

  -- `log.Fatalf` or a panic ends the process before there is a reader.
  run : Boot → List Read → redis.Db → Process
  unfolding loop
  run (fatal e) rs db = record { running = false; reader_open = false; db = db }
  run panics rs db = record { running = false; reader_open = false; db = db }
  run serving rs db = loop rs db

  -- `main`, over what Redis answers to the pings, the brokers, and what the reads return
  unfoldable pub live : (ℕ → Option String) → List String → List Read → redis.Db → Process
  unfolding run
  live answers brokers rs db = run (boot_locationworker answers brokers) rs db

  -- What is read before the first read that finds `ctx` cancelled.
  pub before_cancel : List Read → List (Option Message)
  before_cancel [] = []
  before_cancel (message m ∷ rs) = some m ∷ before_cancel rs
  before_cancel (read_error ∷ rs) = none ∷ before_cancel rs
  before_cancel (cancelled ∷ rs) = []

  -- The loop leaves what `consume` leaves of these.
  loop-consume :
      (rs : List Read) (db : redis.Db) → (loop rs db).db ≡ consume env (before_cancel rs) db
  unfolding loop before_cancel consume
  loop-consume [] db = refl
  loop-consume (message m ∷ rs) db = loop-consume rs (handle env (some m) db)
  loop-consume (read_error ∷ rs) db = loop-consume rs (handle env none db)
  loop-consume (cancelled ∷ rs) db = refl

  loop_closes : (rs : List Read) (db : redis.Db) → (loop rs db).reader_open ≡ (loop rs db).running
  unfolding loop
  loop_closes [] db = refl
  loop_closes (message m ∷ rs) db = loop_closes rs (handle env (some m) db)
  loop_closes (read_error ∷ rs) db = loop_closes rs (handle env none db)
  loop_closes (cancelled ∷ rs) db = refl

  run_closes :
      (b : Boot) (rs : List Read) (db : redis.Db)
      → (run b rs db).reader_open ≡ (run b rs db).running
  unfolding run
  run_closes (fatal e) rs db = refl
  run_closes panics rs db = refl
  run_closes serving rs db = loop_closes rs db

  -- The reader is open exactly as long as the loop is on.
  live_closes :
      (answers : ℕ → Option String) (brokers : List String) (rs : List Read) (db : redis.Db)
      → (live answers brokers rs db).reader_open ≡ (live answers brokers rs db).running
  unfolding live
  live_closes answers brokers rs db = run_closes _ rs db
