-- ===== src/Checks/PipelineRuns.antt =====
-- The front door, Kafka and the trip worker together: a rider is matched, the driver starts, and
-- the worker reads the topic after a read that fails.
use taxi_app.Base.{
  ℕ, suc, zero, ◌<◌, String, true, none, some, List, [], ◌∷◌, ◌++◌, ◌≡◌, refl, ap, arith,
  if◌then◌else◌, str_eq,
}
use taxi_app.Base.Int.{ℤ, pos, add_ℤ}
use taxi_app.Float64.{whole}
use taxi_app.Float64.Fixed.{fixed}
use taxi_app.Models.{Trip, in_progress}
use taxi_app.Infra.{Env, Message}
use taxi_app.Infra.Laws.{IsStringStore, IsLog, IsFresh, IsUp, IsEventCodec}
use taxi_app.Api.{World, Request, rides, start, serve, serve_all, transition, handle_ride, emit}
use taxi_app.Region
use taxi_app.Geo
use taxi_app.Trip
use taxi_app.Trip.Cache.{cache_key, get, put}
use taxi_app.Match.{best}
use taxi_app.Geo.{nearest}
use taxi_app.Surge.{multiplier, record_demand, factor, demand_key}
use taxi_app.Api.Stored.{Cached}
use taxi_app.TripWorker.{Worker, Delivery, consume}
use taxi_app.Trip.Store.{fine, find}
use taxi_app.Trip.Store.Projection.{no_rows}
use taxi_app.Pipeline.{timeless}
use taxi_app.Pipeline.Moved.{Ready, said}
use taxi_app.Infra.Keys.{of_key}
use taxi_app.Pipeline.Delivered.{delivered, AllCommitted, persisted}
use taxi_app.Checks.Memory.{memory, memory-IsStringStore}
use taxi_app.Checks.Board.{board}
use taxi_app.Checks.Codecs.{trip_codec, event_codec, trip_codec-IsCodec, event_codec-IsCodec}
use taxi_app.Checks.ApiRuns.{topics, empty_memory}

-- A uuid is a text that is longer than those before it.
abbrev pub ones : ℕ → String
ones zero = ""
ones (suc n) = String.◌∷◌ "1" (ones n)

size : String → ℕ
size String.[] = 0
size (String.◌∷◌ c s) = suc (size s)

size-ones : (n : ℕ) → size (ones n) ≡ n
unfolding size
size-ones zero = refl
size-ones (suc n) = ap suc (size-ones n)

-- A server in memory whose SETs all succeed.
abbrev pub running : Env ℤ
running = record board {
  redis = record memory {
    set = λ k s ttl m. (none, (memory.set k s ttl (record m { up = true })).1);
  };
  trip_json = trip_codec;
  event_json = event_codec;
  new_string = λ n. (ones n, suc n);
}

unfoldable running-IsStringStore : IsStringStore running.redis
unfolding memory-IsStringStore
running-IsStringStore = record {
  text = λ m k. m.strings k;
  get_reply = memory-IsStringStore.get_reply;
  get_missing = memory-IsStringStore.get_missing;
  get_text = memory-IsStringStore.get_text;
  set_ok = λ k s j ttl m h. memory-IsStringStore.set_ok k s j ttl (record m { up = true }) refl;
  set_or_not = λ k s j ttl m. memory-IsStringStore.set_or_not k s j ttl (record m { up = true });
  tx_text = memory-IsStringStore.tx_text;
  pipe_text = memory-IsStringStore.pipe_text;
  search_text = memory-IsStringStore.search_text;
  zrem_text = memory-IsStringStore.zrem_text;
  zcard_text = memory-IsStringStore.zcard_text;
  exists_text = memory-IsStringStore.exists_text;
  publish_text = memory-IsStringStore.publish_text;
}

-- The messages of a topic among those of all.
unfoldable pub of_topic : List (String × Message) → String → List Message
of_topic [] topic = []
of_topic ((t, m) ∷ ms) topic =
    let rest = of_topic ms topic in if str_eq t topic then m ∷ rest else rest

of_topic-append :
    (ms : List (String × Message)) (t : String) (m : Message) (topic : String)
    → of_topic (ms ++ ((t, m) ∷ [])) topic
      ≡ (if str_eq t topic then of_topic ms topic ++ (m ∷ []) else of_topic ms topic)
unfolding of_topic
of_topic-append [] t m topic = refl
of_topic-append ((u, n) ∷ ms) t m topic = ground (arith, of_topic-append ms t m topic)

unfoldable pub running-IsLog : IsLog running.kafka
unfolding of_topic-append
running-IsLog = record {
  log = of_topic;
  appended = λ topic other m b h. of_topic-append b topic m other;
}

running-IsUp : IsUp running
running-IsUp = record { sets = λ k s ttl db. refl; writes = λ topic m b. refl }

unfoldable running-IsFresh : IsFresh running
running-IsFresh = record {
  Used = λ n s. size s < n;
  unused = λ n h. omega (arith, size-ones n);
  given = λ n. omega (arith, size-ones n);
  kept = λ n s h. omega arith;
}

running-IsEventCodec : IsEventCodec running
unfolding event_codec
running-IsEventCodec = record {
  codec = event_codec-IsCodec;
  nothing = refl;
  marshals = λ t e s h k. (_, refl);
}

-- A driver waits at the rider's place.
abbrev pub waiting : World running
waiting = record {
  db = record empty_memory {
    sets = λ k. record { name = "d1"; longitude = pos 0; latitude = pos 0; dist = whole 1 } ∷ [];
    hashes = λ k. true;
  };
  broker = [];
  clock = 7;
  ids = 1;
  in_flight = 0;
}

waiting-Ready :
    Ready running running-IsStringStore trip_codec-IsCodec running-IsEventCodec running-IsLog
      running-IsUp running-IsFresh topics waiting
unfolding running-IsStringStore running-IsLog of_topic
waiting-Ready = record { traced = λ id t (b, p, q). absurd (cc p); ahead = λ id n. tt }

abbrev requests : List (Request ℤ)
requests = rides (some (record { rider_id = "r1"; lat = pos 0; lng = pos 0 })) ∷ start "1" ∷ []

abbrev started : Trip ℤ
started = record {
  id = "1";
  rider_id = "r1";
  driver_id = "d1";
  region = "s000";
  state = in_progress;
  surge = whole 1;
  created_at = 8;
  updated_at = 10;
}

abbrev failed_read : Delivery running
failed_read = record { message = none; answers = fine; time = 20 }

abbrev one_by_one : List Message → List (Delivery running)
one_by_one [] = failed_read ∷ []
one_by_one (m ∷ ms) = record { message = some m; answers = fine; time = 21 } ∷ one_by_one ms

delivered-one_by_one : (ms : List Message) → delivered running (one_by_one ms) ≡ ms
unfolding delivered
delivered-one_by_one [] = refl
delivered-one_by_one (m ∷ ms) = ap (λ l. m ∷ l) (delivered-one_by_one ms)

one_by_one-AllCommitted : (ms : List Message) → AllCommitted running (one_by_one ms)
one_by_one-AllCommitted [] = (refl, tt)
one_by_one-AllCommitted (m ∷ ms) = (refl, one_by_one-AllCommitted ms)

abbrev idle : Worker running
idle = record { tables = no_rows; db = empty_memory; clock = 7 }

abbrev topic : List Message
topic =
    said running running-IsStringStore trip_codec-IsCodec running-IsEventCodec running-IsLog
      running-IsUp running-IsFresh topics (serve_all running topics requests waiting)

started-Cached :
    Cached running running-IsStringStore trip_codec-IsCodec topics
      (serve_all running topics requests waiting).db
      "1"
      started
unfolding running-IsStringStore memory-IsStringStore serve_all serve transition get put handle_ride
    best nearest Region.neighbors add_ℤ multiplier Geo.supply record_demand factor emit demand_key
    cache_key Trip.can_transition Geo.geo_key Geo.driver_key trip_codec event_codec
started-Cached = (_, refl, refl)

persisted_example :
    (row : Trip ℤ) × (find "1" (consume running (one_by_one topic) idle).tables.trips ≡ some row)
    × (timeless row ≡ timeless started)
persisted_example =
    persisted running running-IsStringStore trip_codec-IsCodec running-IsEventCodec running-IsLog
      running-IsUp running-IsFresh topics requests waiting (one_by_one topic) idle "1" started refl
      waiting-Ready refl (one_by_one-AllCommitted topic)
      (λ k. ap (of_key k) (delivered-one_by_one topic)) started-Cached
