-- ===== src/Api/Interleaved/Safety.antt =====
-- cmd/api/main.go: what holds in every interleaving of requests.
use taxi_app.Base.{String, List, [], ◌∷◌, ◌++◌, sym, ◌∙◌, subst, inr, All, All-append}
use taxi_app.Float64.{Float64}
use taxi_app.Models.{Trip, TripState}
use taxi_app.Infra.{Env, IsCodec}
use taxi_app.Infra.Laws.{IsStringStore}
use taxi_app.Api.{Topics, World, ingest, handle_get_trip}
use taxi_app.Api.Stored.{
  IsAssigned, IsTracked, Cached, Stored, Same-Stored, get-Same, ride-Stored, move-Stored,
  surge-Stored,
}
use taxi_app.Api.Interleaved.{
  Job, ingesting, moving, IsTarget, System, Step, enter, shed, leave, look, finish, show_trip,
  show_surge, Reach, start, later, ingests,
}
use taxi_app.Api.Interleaved
use taxi_app.Api.Interleaved.Semaphore.{ingest_lem, release_lem}

target-IsAssigned : (dst : TripState) → IsTarget dst → IsAssigned dst
target-IsAssigned dst h = inr h

-- The moves that are under way go to targets of the routes.
abbrev IsRouted : {F : Type 0} → Job F → Type 0
IsRouted (ingesting id body) = Unit
IsRouted (moving dst l) = IsTarget dst

module _ {ℓ} {A : Type ℓ} (P : A → Type 0) where
  All-left : (xs : List A) (ys : List A) → All P (xs ++ ys) → All P xs
  All-left [] ys h = tt
  All-left (x ∷ xs) ys h = (h.0, All-left xs ys h.1)

  All-right : (xs : List A) (ys : List A) → All P (xs ++ ys) → All P ys
  All-right [] ys h = h
  All-right (x ∷ xs) ys h = All-right xs ys h.1

  -- What holds of all holds of one in the middle, and of the rest.
  All-middle : (xs : List A) (x : A) (ys : List A) → All P (xs ++ (x ∷ ys)) → P x × All P (xs ++ ys)
  All-middle xs x ys h =
      let right = All-right xs (x ∷ ys) h in
      (right.0, All-append P xs ys (All-left xs (x ∷ ys) h) right.1)

module _ {F : Type 0} ⦃fl : Float64 F⦄ (env : Env F) (topics : Topics) where
  module _ (laws : IsStringStore env.redis) (codec : IsCodec env.trip_json) where
    abbrev IsStored : World env → Type 0
    IsStored w = Stored env laws codec topics w.db

    record Inv (s : System env) : Type 0 where
      routed : All IsRouted s.jobs
      stored : IsStored s.world

    Step-Inv : {s t : System env} → Step env topics s t → Inv s → Inv t
    Step-Inv {s} (enter id body free e) inv =
        subst Inv (sym e) (record { routed = (tt, inv.routed); stored = inv.stored })
    Step-Inv (shed full e) inv = subst Inv (sym e) inv
    Step-Inv {s} (leave before after id body q e) inv =
        let (kept, same) = ingest_lem env topics id body s.world in
        let (freed, same') = release_lem env topics (ingest env topics id body s.world) in
        subst Inv (sym e) (record {
          routed =
              (All-middle IsRouted before (ingesting id body) after
                (subst (All IsRouted) q inv.routed)).1;
          stored = subst (Stored env laws codec topics) (sym (same' ∙ same)) inv.stored;
        })
    Step-Inv {s} (look dst id target e) inv = subst Inv (sym e) (record {
      routed = (target, inv.routed);
      stored =
          Same-Stored env laws codec topics _ _ (get-Same env laws codec topics id s.world.db)
            inv.stored;
    })
    Step-Inv {s} (finish before after dst l q e) inv =
        let (target, rest) =
          All-middle IsRouted before (moving dst l) after (subst (All IsRouted) q inv.routed) in
        subst Inv (sym e) (record {
          routed = rest;
          stored =
              move-Stored env laws codec topics dst l s.world (target-IsAssigned dst target)
                inv.stored;
        })
    Step-Inv {s} (Interleaved.ride body e) inv = subst Inv (sym e) (record {
      routed = inv.routed;
      stored = ride-Stored env laws codec topics body s.world inv.stored;
    })
    Step-Inv {s} (show_trip id e) inv = subst Inv (sym e) (record {
      routed = inv.routed;
      stored =
          unfold handle_get_trip in
          Same-Stored env laws codec topics _ _ (get-Same env laws codec topics id s.world.db)
            inv.stored;
    })
    Step-Inv {s} (show_surge at e) inv = subst Inv (sym e) (record {
      routed = inv.routed;
      stored = surge-Stored env laws codec topics at s.world inv.stored;
    })

    Reach-Inv : {w : World env} {s : System env} → IsStored w → Reach env topics w s → Inv s
    Reach-Inv stored start = record { routed = tt; stored = stored }
    Reach-Inv stored (later r st) = Step-Inv st (Reach-Inv stored r)

    -- In every interleaving of requests, from a front door whose cached trips are tracked, a trip in the
    -- cache is under its own id and is assigned, in progress, completed or cancelled.
    pub interleaved-IsTracked :
        {w : World env} {s : System env}
        → Stored env laws codec topics w.db
        → Reach env topics w s
        → (id : String) (t : Trip F) → Cached env laws codec topics s.world.db id t
        → IsTracked id t
    interleaved-IsTracked stored r id t = (Reach-Inv stored r).stored id t
