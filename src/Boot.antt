-- ===== src/Boot.antt =====
-- The `main` functions up to where they serve: cmd/api/main.go, cmd/tripworker/main.go,
-- cmd/locationworker/main.go and cmd/gateway/main.go, over what each server answers.
pub mod Brokers
use Prim.Native.String
use taxi_app.Base.{ℕ, String, Option, none, some, List, [], ◌∷◌}
use taxi_app.Config.{Config}
use taxi_app.Startup.{ping, connect, TopicAnswers, ensure_topic}

-- `log.Fatalf`, a panic, or the loop that serves.
pub data Boot : Type 0 where
  fatal : String → Boot
  panics : Boot
  serving : Boot

-- The error of a call, and what follows if there is none.
abbrev or_fatal : String → Option String → Boot → Boot
or_fatal what none rest = rest
or_fatal what (some e) rest = fatal (String.◌++◌ what (String.◌++◌ ": " e))

-- The loop over the topics; `cfg.KafkaBrokers[0]` is read in each round.
ensure_all : List String → List String → (String → String → TopicAnswers) → Boot
ensure_all brokers [] answers = serving
ensure_all [] (t ∷ ts) answers = panics
ensure_all (b ∷ bs) (t ∷ ts) answers =
    or_fatal (String.◌++◌ "ensure topic " t) (ensure_topic (answers b t)).0
      (ensure_all (b ∷ bs) ts answers)

-- cmd/api: what Redis answers to each ping, and Kafka to each broker and topic.
unfoldable pub boot_api : Config → (ℕ → Option String) → (String → String → TopicAnswers) → Boot
unfolding ensure_all
boot_api cfg redis topics =
    or_fatal "redis" (ping redis).0
      (ensure_all cfg.kafka_brokers (cfg.location_topic ∷ cfg.trip_topic ∷ []) topics)

-- `kafkax.NewReader`, since `kafka.NewReader` panics on an empty list of brokers.
read_from : List String → Boot
read_from [] = panics
read_from (b ∷ bs) = serving

-- cmd/tripworker: what `pgxpool.New`, the ping of the pool, `Migrate` and Redis answer, and the brokers.
unfoldable pub boot_tripworker :
    (create answer : ℕ → Option String) → Option String → (ℕ → Option String) → List String → Boot
unfolding read_from
boot_tripworker create answer migrate redis brokers =
    or_fatal "postgres" (connect create answer).error
      (or_fatal "migrate" migrate (or_fatal "redis" (ping redis).0 (read_from brokers)))

-- cmd/locationworker: what Redis answers, and the brokers.
unfoldable pub boot_locationworker : (ℕ → Option String) → List String → Boot
unfolding read_from
boot_locationworker redis brokers = or_fatal "redis" (ping redis).0 (read_from brokers)

-- cmd/gateway, with the error of `ListenAndServe`, `none` while it serves
unfoldable pub boot_gateway : (ℕ → Option String) → Option String → Boot
boot_gateway redis served = or_fatal "redis" (ping redis).0 (or_fatal "gateway" served serving)
