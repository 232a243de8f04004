-- ===== src/Startup/Topics.antt =====
-- internal/kafkax/kafkax.go, `EnsureTopic`: when a topic is ensured, and what is left open.
use taxi_app.Base.{
  ℕ, ◌<◌, ◌≡◌, ◌↔◌, refl, sym, ◌∙◌, ◌⊎◌, inl, inr, Option, none, Option-cases, arith, String,
}
use taxi_app.Startup.{
  attempts, ping, TopicAnswers, Creation, created, exists, refused, creation_error, dial_broker,
  create_topic, ensure_topic,
}
use taxi_app.Startup.Retries.{ping_iff}

-- A broker and its controller were reached, and the topic was there or was made.
pub record IsReady (a : TopicAnswers) : Type 0 where
  pub dialled : (j : ℕ) × (j < attempts) × (a.dial j ≡ none)
  pub told : a.controller ≡ none
  pub reached : a.dial_controller ≡ none
  pub there : (a.create ≡ created) ⊎ (a.create ≡ exists)

dial_broker_iff :
    (answer : ℕ → Option String)
    → (dial_broker answer ≡ none) ↔ ((j : ℕ) × (j < attempts) × (answer j ≡ none))
unfolding dial_broker ping
dial_broker_iff answer = ping_iff answer

creation_error_iff : (c : Creation) → (creation_error c ≡ none) ↔ ((c ≡ created) ⊎ (c ≡ exists))
unfolding creation_error
creation_error_iff created = (λ h. inl refl, λ h. refl)
creation_error_iff exists = (λ h. inr refl, λ h. refl)
creation_error_iff (refused e) = (λ h. absurd (cc h), λ h. ground (arith, h))

-- `EnsureTopic` returns no error exactly if one of its thirty dials succeeds, the controller is named
-- and reached, and the topic is created or exists; on every path it closes the connections it opened.
pub ensure_topic_iff :
    (a : TopicAnswers) → (((ensure_topic a).0 ≡ none) ↔ IsReady a) × ((ensure_topic a).1 ≡ 0)
unfolding ensure_topic
ensure_topic_iff a = elim (Option-cases (dial_broker a.dial)) [
  | inr (e, bad) ↦
      rw (bad, ensure_topic)
        (
          (λ h. absurd (cc h), λ ready. cc (sym bad ∙ (dial_broker_iff a.dial).1 ready.dialled)),
          refl,
        )
  | inl dialled ↦ elim (Option-cases a.controller) [
    | inr (e, bad) ↦
        rw (dialled, ensure_topic)
          (rw (bad, create_topic) ((λ h. absurd (cc h), λ ready. cc ready.told), refl))
    | inl told ↦ elim (Option-cases a.dial_controller) [
      | inr (e, bad) ↦
          rw (dialled, ensure_topic)
            (rw (told, create_topic)
              (rw (bad, create_topic) ((λ h. absurd (cc h), λ ready. cc ready.reached), refl)))
      | inl reached ↦
          rw (dialled, ensure_topic)
            (rw (told, create_topic)
              (rw (reached, create_topic)
                (
                  (
                    λ h. record {
                      dialled = (dial_broker_iff a.dial).0 dialled;
                      told = refl;
                      reached = refl;
                      there = (creation_error_iff a.create).0 h;
                    },
                    λ ready. (creation_error_iff a.create).1 ready.there,
                  ),
                  refl,
                )))
    ]
  ]
]
