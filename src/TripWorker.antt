-- ===== src/TripWorker.antt =====
-- cmd/tripworker/main.go: persist each trip event, then notify the rider and the driver; and
-- internal/pubsub/pubsub.go, over which it notifies.
pub mod Durable
pub mod Notices
pub mod Restarts
use Prim.Native.String
use taxi_app.Base.{ℕ, String, Option, none, some, List, [], ◌∷◌, if◌then◌else◌, str_eq, ◌&&◌, not}
use taxi_app.Base.Int.{ℤ}
use taxi_app.Models.{
  TripState, TripEvent, Notification, requested, assigned, in_progress, completed, cancelled,
  unix_milli,
}
use taxi_app.Infra.{Env, Message}
use taxi_app.Trip.Store.{Answers, Tables}
use taxi_app.Trip.Store

-- `Channel`
unfoldable pub channel : String → String
channel user = String.◌++◌ "notify:" user

-- `messages`: for the rider, and for the driver.
unfoldable pub messages : TripState → String × String
messages state =
    if str_eq state requested
    then ("Looking for a nearby driver…", "")
    else if str_eq state assigned
    then ("Driver assigned and on the way", "New trip assigned to you")
    else if str_eq state in_progress
    then ("Your trip has started", "Trip started")
    else if str_eq state completed
    then ("Trip complete — thanks for riding!", "Trip completed")
    else if str_eq state cancelled
    then ("Your trip was cancelled", "Trip cancelled")
    else ("", "")

module _ {F : Type 0} (env : Env F) where
  open env use {redis, notification_json, event_json}

  -- `Publish`; the result is the error.
  unfoldable pub publish : Notification → redis.Db → Option String × redis.Db
  publish n db = elim (notification_json.marshal n) [
    | none ↦ (some "json", db)
    | some b ↦ redis.publish (channel n.user_id) b db
  ]

  -- One of the two branches of `notify`; the error is dropped.
  tell : String → String → TripEvent F → ℤ → redis.Db → redis.Db
  tell user message ev now db =
      let n : Notification = record {
        user_id = user;
        kind = String.◌++◌ "trip:" ev.state;
        trip_id = ev.trip_id;
        message = message;
        at = now;
      } in
      if not (str_eq message "") && not (str_eq user "") then (publish n db).1 else db

  -- `notify`
  unfoldable pub notify : TripEvent F → ℤ → redis.Db → redis.Db
  unfolding tell
  notify ev now db =
      let (rider, driver) = messages ev.state in
      tell ev.driver_id driver ev now (tell ev.rider_id rider ev now db)

  -- What the worker acts on.
  pub record Worker : Type 0 where
    pub tables : Tables F
    pub db : redis.Db
    pub clock : env.Clock

  -- What `ReadMessage` returns, with the answers of Postgres to the transaction that follows, and
  -- the server's `now()` in it.
  pub record Delivery : Type 0 where
    pub message : Option Message
    pub answers : Answers
    pub time : ℕ

  persist : TripEvent F → Answers → ℕ → Worker → Worker
  persist ev answers time w =
      let (e, tables) = Store.apply answers ev time w.tables in
      let (now, clock) = env.now w.clock in
      let told : Worker = record {
        tables = tables;
        db = notify ev (unix_milli now) w.db;
        clock = clock;
      } in
      elim e [ some _ ↦ record w { tables = tables } | none ↦ told ]

  -- One round of the loop: a read error and a message that is no event are skipped.
  unfoldable pub handle : Delivery → Worker → Worker
  unfolding persist
  handle d w = elim d.message [
    | none ↦ w
    | some m ↦ elim (event_json.unmarshal m.value) [
      | none ↦ w
      | some ev ↦ persist ev d.answers d.time w
    ]
  ]

  unfoldable pub consume : List Delivery → Worker → Worker
  consume [] w = w
  consume (d ∷ ds) w = consume ds (handle d w)
