-- ===== src/Surge.antt =====
-- internal/surge/surge.go: the curve of the price multiplier, and the engine that reads its inputs
-- from Redis.
pub mod Curve
pub mod Demand
use Prim.Native.String
use taxi_app.Base.{ℕ, String, Bool, true, false, if◌then◌else◌, none, some, List, [], ◌∷◌}
use taxi_app.Infra.{Env, Reply, reply, missing, failed, Command, incr, expire}
use taxi_app.Region
use taxi_app.Geo
use taxi_app.Base.Int.{ℤ, pos, leb_ℤ}
use taxi_app.Float64.{Float64, whole}

module _ {F : Type 0} ⦃fl : Float64 F⦄ where
  abbrev pub max_surge : F
  max_surge = whole 3

  abbrev pub min_surge : F
  min_surge = whole 1

  -- `factor`; the arguments are `int64`
  unfoldable pub factor : ℤ → ℤ → F
  factor demand supply =
      if leb_ℤ supply (pos 0)
      then (if leb_ℤ demand (pos 0) then min_surge else max_surge)
      else let ratio = fl.div (fl.of_int demand) (fl.of_int supply) in
        let m = fl.add min_surge (fl.sub ratio (whole 1)) in
        if fl.le ratio (whole 1) then min_surge else if fl.lt max_surge m then max_surge else m

unfoldable pub demand_key : String → String
demand_key reg = String.◌++◌ "demand:" reg

-- `demandWindow`, in seconds
abbrev demand_window : ℕ
demand_window = 60

module _ {F : Type 0} ⦃fl : Float64 F⦄ (env : Env F) where
  open env use {redis}

  -- `RecordDemand`; the error is dropped.
  unfoldable pub record_demand : F → F → redis.Db → redis.Db
  record_demand lat lng db =
      let k = demand_key (Region.key lat lng) in
      (redis.pipe_exec (incr k ∷ expire k demand_window ∷ []) db).1

  -- `Get(…).Int64()` without its error: 0 where the call fails.
  unfoldable pub count_of : Reply String → ℤ
  count_of (reply s) = env.parse_int s
  count_of _ = pos 0

  -- `Multiplier`
  unfoldable pub multiplier : F → F → redis.Db → F × redis.Db
  unfolding count_of
  multiplier lat lng db =
      let (r, db') = redis.get (demand_key (Region.key lat lng)) db in
      let (n, db'') = Geo.supply env lat lng db' in (factor (count_of r) n, db'')
