-- ===== src/Checks/ConfigRuns.antt =====
-- Lists of brokers as an operator may write them, and a front door without one.
use taxi_app.Base.{
  ℕ, String, true, Option, none, [], ◌∷◌, ◌≡◌, ◌↔◌, ◌<◌, refl, if◌then◌else◌, str_eq,
}
use taxi_app.Config.{split_comma, split, trim_space, env, load}
use taxi_app.Config.Split.{kept, split-kept}
use taxi_app.Config.Brokers.{all_separators}
use taxi_app.Startup.{attempts, ping, ping_loop, TopicAnswers, exists, ensure_topic}
use taxi_app.Startup.Topics.{IsReady, ensure_topic_iff}
use taxi_app.Boot.{panics, serving, boot_api}
use taxi_app.Boot.Brokers.{boot_panics_iff}

spaced_list : split " kafka1:9092 , ,\tkafka2:9092," ≡ "kafka1:9092" ∷ "kafka2:9092" ∷ []
unfolding split trim_space
spaced_list = refl

split-kept_example : split " a , ,b," ≡ kept (split_comma " a , ,b,")
split-kept_example = split-kept " a , ,b,"

abbrev no_broker : String → String
no_broker key = if str_eq key "KAFKA_BROKERS" then " ," else ""

abbrev ready : TopicAnswers
ready = record { dial = λ i. none; controller = none; dial_controller = none; create = exists }

front_door_panics : boot_api (load no_broker) (λ i. none) (λ b t. ready) ≡ panics
unfolding boot_api load trim_space ping ping_loop
front_door_panics = refl

default_serves : boot_api (load (λ key. "")) (λ i. none) (λ b t. ready) ≡ serving
unfolding boot_api load trim_space ensure_topic ping ping_loop
default_serves = refl

boot_panics_iff_example : (boot_api (load no_broker) (λ i. none) (λ b t. ready) ≡ panics) ↔ (
    ((j : ℕ) × (j < attempts) × (◌≡◌ {A = Option String} none none))
    × (all_separators (env no_broker "KAFKA_BROKERS" "localhost:9092") ≡ true))
boot_panics_iff_example = boot_panics_iff no_broker (λ i. none) (λ b t. ready)

ensure_topic_iff_example :
    (((ensure_topic ready).0 ≡ none) ↔ IsReady ready) × ((ensure_topic ready).1 ≡ 0)
ensure_topic_iff_example = ensure_topic_iff ready
