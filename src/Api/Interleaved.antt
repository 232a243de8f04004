-- ===== src/Api/Interleaved.antt =====
-- cmd/api/main.go: requests that are served at the same time, as steps in any order. A location
-- request holds a place in the semaphore between two steps, and a transition reads the cache in one
-- step and writes it in another; the other requests are one step each.
pub mod Semaphore
pub mod Safety
use taxi_app.Base.{
  ℕ, zero, suc, ◌+◌, String, Bool, true, false, List, [], ◌∷◌, ◌++◌, ◌≡◌, Option, ltb, ◌⊎◌,
}
use taxi_app.Float64.{Float64}
use taxi_app.Models.{TripState, LocationUpdate, RideRequest, in_progress, completed, cancelled}
use taxi_app.Infra.{Env}
use taxi_app.Trip.Cache.{Lookup, get}
use taxi_app.Api.{
  Topics, World, ingest_limit, ingest, release, handle_ride, move, handle_get_trip, handle_surge,
}

-- A request that has begun and has not answered.
pub data Job (F : Type 0) : Type 0 where
  ingesting : (id : String) → Option (LocationUpdate F) → Job F
  moving : (dst : TripState) → Lookup F → Job F

-- The targets that `main` gives to `transition`.
abbrev pub IsTarget : TripState → Type 0
IsTarget dst = (dst ≡ in_progress) ⊎ ((dst ≡ completed) ⊎ (dst ≡ cancelled))

pub record System {F : Type 0} (env : Env F) : Type 0 where
  pub world : World env
  pub jobs : List (Job F)

module _ {F : Type 0} ⦃fl : Float64 F⦄ (env : Env F) (topics : Topics) where
  pub data Step (s t : System env) : Type 0 where
    -- `s.ingestSem <- struct{}{}`
    enter :
        (id : String) (body : Option (LocationUpdate F))
        → ltb s.world.in_flight ingest_limit ≡ true
        → t ≡ record {
          world = record s.world { in_flight = suc s.world.in_flight };
          jobs = ingesting id body ∷ s.jobs;
        }
        → Step s t
    -- the `default` of the select
    shed : ltb s.world.in_flight ingest_limit ≡ false → t ≡ s → Step s t
    -- the rest of `handleLocation`, with the receive that it defers
    leave :
        (before after : List (Job F)) (id : String) (body : Option (LocationUpdate F))
        → s.jobs ≡ before ++ (ingesting id body ∷ after)
        → t ≡ record {
          world = (release env topics (ingest env topics id body s.world)).1;
          jobs = before ++ after;
        }
        → Step s t
    -- the lookup of a transition
    look :
        (dst : TripState) (id : String)
        → IsTarget dst
        → t ≡ record {
          world = record s.world { db = (get env id s.world.db).1 };
          jobs = moving dst (get env id s.world.db).0 ∷ s.jobs;
        }
        → Step s t
    -- the rest of a transition
    finish :
        (before after : List (Job F)) (dst : TripState) (l : Lookup F)
        → s.jobs ≡ before ++ (moving dst l ∷ after)
        → t ≡ record { world = (move env topics dst l s.world).1; jobs = before ++ after }
        → Step s t
    ride :
        (body : Option (RideRequest F))
        → t ≡ record s { world = (handle_ride env topics body s.world).1 }
        → Step s t
    show_trip :
        (id : String)
        → t ≡ record s { world = (handle_get_trip env topics id s.world).1 }
        → Step s t
    show_surge :
        (at : Option (F × F))
        → t ≡ record s { world = (handle_surge env topics at s.world).1 }
        → Step s t

  pub data Reach (w : World env) : System env → Type 0 where
    start : Reach w (record { world = w; jobs = [] })
    later : {s t : System env} → Reach w s → Step s t → Reach w t

-- The requests that hold a place in the semaphore.
pub ingests : {F : Type 0} → List (Job F) → ℕ
ingests [] = 0
ingests (ingesting id body ∷ js) = suc (ingests js)
ingests (moving dst l ∷ js) = ingests js
