-- ===== src/Boot/Brokers.antt =====
-- cmd/api/main.go and internal/config/config.go: the start of the front door and its list of brokers.
use taxi_app.Base.{
  ℕ, ◌<◌, ◌≡◌, ◌≢◌, ◌↔◌, refl, sym, ◌∙◌, inl, inr, Option, none, Option-cases, true, List, [], ◌∷◌,
  String,
}
use taxi_app.Config.{env, split, load}
use taxi_app.Config.Brokers.{all_separators, split-nil_iff}
use taxi_app.Startup.{attempts, ping, TopicAnswers, ensure_topic}
use taxi_app.Startup.Retries.{ping_iff}
use taxi_app.Boot.{panics, ensure_all, boot_api}

ensure_all-ne-panics :
    (b : String) (bs ts : List String) (answers : String → String → TopicAnswers)
    → ensure_all (b ∷ bs) ts answers ≢ panics
unfolding ensure_all
ensure_all-ne-panics b bs [] answers h = cc h
ensure_all-ne-panics b bs (t ∷ ts) answers h = elim (Option-cases (ensure_topic (answers b t)).0) [
  | inl ready ↦ ensure_all-ne-panics b bs ts answers (rw ready at h)
  | inr (e, bad) ↦ cc (rw bad at h)
]

ensure_all_iff :
    (brokers : List String) (t : String) (ts : List String)
    (answers : String → String → TopicAnswers)
    → (ensure_all brokers (t ∷ ts) answers ≡ panics) ↔ (brokers ≡ [])
ensure_all_iff [] t ts answers = (λ h. refl, λ h. unfold ensure_all in refl)
ensure_all_iff (b ∷ bs) t ts answers =
    (λ h. absurd (ensure_all-ne-panics b bs (t ∷ ts) answers h), λ h. absurd (cc h))

-- Whatever Kafka answers, the front door panics at its start exactly if Redis answers one of the
-- thirty pings and the list of brokers has only commas and white space.
pub boot_panics_iff :
    (getenv : String → String) (redis : ℕ → Option String) (topics : String → String → TopicAnswers)
    → (boot_api (load getenv) redis topics ≡ panics) ↔ (
        ((j : ℕ) × (j < attempts) × (redis j ≡ none))
        × (all_separators (env getenv "KAFKA_BROKERS" "localhost:9092") ≡ true))
unfolding boot_api load
boot_panics_iff getenv redis topics =
    let names = env getenv "KAFKA_BROKERS" "localhost:9092" in
    let ensured =
      ensure_all_iff (split names) (env getenv "LOCATION_TOPIC" "driver-locations")
        (env getenv "TRIP_TOPIC" "trip-events" ∷ []) topics in
    elim (Option-cases (ping redis).0) [
      | inl up ↦ rw up (
        λ h. ((ping_iff redis).0 up, (split-nil_iff names).0 (ensured.0 h)),
        λ (alive, blank). ensured.1 ((split-nil_iff names).1 blank),
      )
      | inr (e, down) ↦
          rw down (λ h. absurd (cc h), λ (alive, blank). cc (sym down ∙ (ping_iff redis).1 alive))
    ]
