-- ===== src/Api/Race.antt =====
-- cmd/api/main.go, `transition`: two calls that both read the cached trip before either writes it.
use taxi_app.Base.{String, true, false, none, ◌≡◌, refl, ap}
use taxi_app.Float64.{Float64}
use taxi_app.Models.{Trip, TripState}
use taxi_app.Infra.{Env, IsCodec}
use taxi_app.Infra.Laws.{IsStringStore}
use taxi_app.Trip
use taxi_app.Trip.Cache.{found, put}
use taxi_app.Api.{Body, Response, Topics, World, store_and_emit, move, transition}
use taxi_app.Api.Stored.{Cached}
use taxi_app.Api.Transitions.{moved, put-Has, store_and_emit-db}
use taxi_app.Api.Refusals.{Answered, IsReply, illegal_rejected}

module _ {F : Type 0} ⦃fl : Float64 F⦄ (env : Env F) (laws : IsStringStore env.redis)
    (codec : IsCodec env.trip_json) (topics : Topics) where
  abbrev Has : env.redis.Db → String → Trip F → Type 0
  Has = Cached env laws codec topics

  abbrev moved_to : TripState → World env → Trip F → Trip F
  moved_to = moved env laws codec topics

  answered :
      (t : Trip F) (r : Response F) (w : World env)
      → (put env t w.db).0 ≡ none
      → (store_and_emit env topics t r w).0 ≡ r
  unfolding store_and_emit
  answered t r w h = rw (h, store_and_emit) refl

  -- A legal move whose write succeeds answers 200, and its trip is cached.
  move_ok :
      (dst : TripState) (t : Trip F) (w : World env)
      → Trip.can_transition t.state dst ≡ true
      → (put env (moved_to dst w t) w.db).0 ≡ none
      → ((move env topics dst (found t) w).0.status ≡ 200)
        × Has (move env topics dst (found t) w).1.db t.id (moved_to dst w t)
  unfolding move
  move_ok dst t w legal wrote =
      let t' = moved_to dst w t in
      let answer : Response F = record { status = 200; body = Body.trip t' } in
      let w' : World env = record w { clock = (env.now w.clock).1 } in
      rw legal (
        ap (λ r. r.status) (answered t' answer w' wrote),
        rw (store_and_emit-db env laws codec topics t' answer w')
            (put-Has env laws codec topics t' w.db wrote).0,
      )

  -- Two moves of a trip that have both read it before either has written: if both are legal from the
  -- state that they read and both writes succeed, both are answered with 200 and the second replaces
  -- the first, although the second is illegal from the state that the first has cached, where the
  -- same call of the handler is answered with 409 where GET answers, and with 500 where GET fails.
  pub lost_update :
      (first second : TripState) (t : Trip F) (w : World env)
      → Trip.can_transition t.state first ≡ true
      → Trip.can_transition t.state second ≡ true
      → Trip.can_transition first second ≡ false
      → (put env (moved_to first w t) w.db).0 ≡ none
      → let w' = (move env topics first (found t) w).1 in
        (put env (moved_to second w' t) w'.db).0 ≡ none
        → ((move env topics first (found t) w).0.status ≡ 200)
          × ((move env topics second (found t) w').0.status ≡ 200)
          × Has (move env topics second (found t) w').1.db t.id (moved_to second w' t)
          × Answered env laws codec topics 409
              (IsReply env laws codec topics)
              t.id
              w'
              (transition env topics second t.id w').0
  lost_update first second t w p q r wrote wrote' =
      let w' = (move env topics first (found t) w).1 in
      let (code, has) = move_ok first t w p wrote in
      let (code', has') = move_ok second t w' q wrote' in
      (
        code,
        code',
        has',
        (illegal_rejected env laws codec topics second t.id w' (moved_to first w t) has r).0,
      )
