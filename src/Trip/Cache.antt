-- ===== src/Trip/Cache.antt =====
-- internal/trip/trip.go, `Cache`: the active trips in Redis.
use Prim.Native.String
use taxi_app.Base.{ℕ, String, Option, none, some}
use taxi_app.Models.{Trip}
use taxi_app.Infra.{Env, Reply, reply, missing, failed}

unfoldable pub cache_key : String → String
cache_key id = String.◌++◌ "trip:" id

abbrev pub hour : ℕ
hour = 3600

-- What `Get` returns: a trip, `ErrNotFound`, or another error.
pub data Lookup (F : Type 0) : Type 0 where
  found : Trip F → Lookup F
  not_found : Lookup F
  broken : Lookup F

module _ {F : Type 0} (env : Env F) where
  open env use {redis, trip_json}

  -- `Put`; the result is the error.
  unfoldable pub put : Trip F → redis.Db → Option String × redis.Db
  put t db = elim (trip_json.marshal t) [
    | none ↦ (some "json", db)
    | some b ↦ redis.set (cache_key t.id) b hour db
  ]

  -- `json.Unmarshal(b, &t)` is taken to run before `t` is read, as the compiler orders it.
  read_trip : Reply String → Lookup F
  read_trip missing = not_found
  read_trip (failed e) = broken
  read_trip (reply b) = elim (trip_json.unmarshal b) [ none ↦ broken | some t ↦ found t ]

  -- `Get`
  unfoldable pub get : String → redis.Db → Lookup F × redis.Db
  unfolding read_trip
  get id db = let (r, db') = redis.get (cache_key id) db in (read_trip r, db')
