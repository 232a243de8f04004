-- ===== src/Api/Drivers.antt =====
-- cmd/api/main.go: which calls leave the drivers in Redis as they are.
use text.Mathlib.TextLemmas.{cons-append}
use taxi_app.Base.{String, ◌≢◌, sym, ◌∙◌, ap, inl, inr, Option-cases, arith, first_differs}
use taxi_app.Float64.{Float64}
use taxi_app.Models.{Trip}
use taxi_app.Region
use taxi_app.Infra.{Env}
use taxi_app.Infra.Answers.{IsAnswering}
use taxi_app.Geo.{geo_key, driver_key}
use taxi_app.Geo.Steady.{SameDrivers, supply-SameDrivers}
use taxi_app.Surge.{demand_key, record_demand, multiplier}
use taxi_app.Trip.Cache.{cache_key, put, hour}
use taxi_app.Api.Frame.{driver-ne-cache}

rest : String → String
rest String.[] = ""
rest (String.◌∷◌ c s) = s

driver-ne-demand : (d reg : String) → driver_key d ≢ demand_key reg
unfolding driver_key demand_key rest
driver-ne-demand d reg e =
    first_differs "r" "e" "iver:" "mand:" d reg (omega arith)
      (ap rest (sym (cons-append "d" "river:" d) ∙ e ∙ cons-append "d" "emand:" reg))

geo-ne-demand : (g reg : String) → geo_key g ≢ demand_key reg
unfolding geo_key demand_key
geo-ne-demand g reg = first_differs "g" "d" "eo:drivers:" "emand:" g reg (omega arith)

geo-ne-cache : (g id : String) → geo_key g ≢ cache_key id
unfolding geo_key cache_key
geo-ne-cache g id = first_differs "g" "t" "eo:drivers:" "rip:" g id (omega arith)

module _ {F : Type 0} ⦃fl : Float64 F⦄ (env : Env F) (laws : IsAnswering env.redis) where
  open env use {redis, trip_json}

  abbrev Drivers : redis.Db → redis.Db → Type 0
  Drivers = SameDrivers env laws

  pub record_demand-Drivers :
      (first : redis.Db) (lat lng : F) (db : redis.Db)
      → Drivers first db
      → Drivers first (record_demand env lat lng db)
  unfolding record_demand
  record_demand-Drivers first lat lng db h =
      let reg = Region.key lat lng in
      record {
        same_alive = λ d.
            let apart : demand_key reg ≢ driver_key d = λ e. driver-ne-demand d reg (sym e) in
            laws.pipe_alive _ (driver_key d) db (apart, (apart, tt)) ∙ h.same_alive d;
        same_found = λ g q.
            let apart : demand_key reg ≢ geo_key g = λ e. geo-ne-demand g reg (sym e) in
            laws.pipe_found _ (geo_key g) q db (apart, (apart, tt)) ∙ h.same_found g q;
      }

  pub get-Drivers :
      (first : redis.Db) (k : String) (db : redis.Db)
      → Drivers first db
      → Drivers first (redis.get k db).1
  get-Drivers first k db h = record {
    same_alive = λ d. laws.get_alive k _ db ∙ h.same_alive d;
    same_found = λ g q. laws.get_found k _ q db ∙ h.same_found g q;
  }

  pub multiplier-Drivers :
      (first : redis.Db) (lat lng : F) (db : redis.Db)
      → Drivers first db
      → Drivers first (multiplier env lat lng db).1
  unfolding multiplier
  multiplier-Drivers first lat lng db h =
      supply-SameDrivers env laws first lat lng _ (get-Drivers first _ db h)

  pub put-Drivers :
      (first : redis.Db) (t : Trip F) (db : redis.Db)
      → Drivers first db
      → Drivers first (put env t db).1
  unfolding put
  put-Drivers first t db h = elim (Option-cases (trip_json.marshal t)) [
    | inl bad ↦ rw (bad, put) h
    | inr (s, good) ↦
        rw (good, put)
          (record {
            same_alive = λ d.
                laws.set_alive (cache_key t.id) s (driver_key d) hour db
                  (λ e. driver-ne-cache d t.id (sym e))
                ∙ h.same_alive d;
            same_found = λ g q.
                laws.set_found (cache_key t.id) s (geo_key g) hour q db
                  (λ e. geo-ne-cache g t.id (sym e))
                ∙ h.same_found g q;
          })
  ]
