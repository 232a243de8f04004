-- ===== src/Kafkax/Order.antt =====
-- internal/kafkax/kafkax.go: what the balancer that `NewWriter` chooses keeps in order.
use taxi_app.Base.{
  ℕ, suc, String, true, List, [], ◌∷◌, ◌≡◌, refl, sym, ◌∙◌, ap, subst, inl, inr, Bool-cases, arith,
  if◌then◌else◌, str_eq, eq_iff, All, ◌==◌,
}
use taxi_app.Infra.{Message}
use taxi_app.Infra.Keys.{of_key}
use taxi_app.Kafkax.{Balancer, hash, Writer, new_writer}

-- The messages of one partition, where each stands with its own.
unfoldable pub of_partition : ℕ → List (ℕ × Message) → List Message
of_partition p [] = []
of_partition p ((q, m) ∷ ms) = if q == p then m ∷ of_partition p ms else of_partition p ms

-- The partition that a balancer chooses for the message of a number under a key.
abbrev pub Placing : Type 0
Placing = Balancer → ℕ → String → ℕ

-- `kafka.Hash` looks at the key only.
pub record IsHashing (place : Placing) : Type 0 where
  pub hash_by_key : (i : ℕ) (k : String) → place hash i k ≡ place hash 0 k

-- What a writer puts where, from the message of a number on.
unfoldable pub written : Placing → Writer → ℕ → List Message → List (ℕ × Message)
written place w i [] = []
written place w i (m ∷ ms) = (place w.balancer i m.key, m) ∷ written place w (suc i) ms

unfoldable pub messages : List (ℕ × Message) → List Message
messages [] = []
messages ((p, m) ∷ ms) = m ∷ messages ms

-- Each message is in the partition of its key.
IsPlaced : (String → ℕ) → List (ℕ × Message) → Type 0
IsPlaced at ms = (p : ℕ) → All (λ m. at m.key ≡ p) (of_partition p ms)

IsPlaced-tail :
    (at : String → ℕ) (q : ℕ) (m : Message) (ms : List (ℕ × Message))
    → IsPlaced at ((q, m) ∷ ms)
    → (at m.key ≡ q) × IsPlaced at ms
unfolding IsPlaced of_partition
IsPlaced-tail at q m ms h =
    let same : (q == q) ≡ true = ground arith in
    (
      (rw same at (h q)).0,
      λ p. elim (Bool-cases (q == p)) [
        | inl here ↦ (rw here at (h p)).1
        | inr away ↦ rw away at (h p)
      ],
    )

of_key-messages :
    (at : String → ℕ) (k : String) (ms : List (ℕ × Message))
    → IsPlaced at ms
    → of_key k (messages ms) ≡ of_key k (of_partition (at k) ms)
unfolding of_key messages of_partition
of_key-messages at k [] h = refl
of_key-messages at k ((q, m) ∷ ms) h =
    let (own, rest) = IsPlaced-tail at q m ms h in
    let later = of_key-messages at k ms rest in
    elim (Bool-cases (str_eq m.key k)) [
      | inl same ↦
          let here : (q == at k) ≡ true = ground (arith, own, ap at ((eq_iff m.key k).0 same)) in
          rw (same, here, same) (ap (λ l. m ∷ l) later)
      | inr other ↦ elim (Bool-cases (q == at k)) [
        | inl here ↦ rw (other, here, other) later
        | inr away ↦ rw (other, away) later
      ]
    ]

messages-written :
    (place : Placing) (w : Writer) (i : ℕ) (ms : List Message)
    → messages (written place w i ms) ≡ ms
unfolding messages written
messages-written place w i [] = refl
messages-written place w i (m ∷ ms) = ap (λ l. m ∷ l) (messages-written place w (suc i) ms)

written-IsPlaced :
    (place : Placing)
    → IsHashing place
    → (brokers : List String) (topic : String) (i : ℕ) (ms : List Message)
    → IsPlaced (place hash 0) (written place (new_writer brokers topic) i ms)
unfolding IsPlaced written new_writer of_partition
written-IsPlaced place laws brokers topic i [] p = tt
written-IsPlaced place laws brokers topic i (m ∷ ms) p =
    let later = written-IsPlaced place laws brokers topic (suc i) ms p in
    elim (Bool-cases (place hash i m.key == p)) [
      | inl here ↦ rw here (ground (arith, laws.hash_by_key i m.key), later)
      | inr away ↦ rw away later
    ]

-- Where a consumer receives the messages of each partition in the order in which they were written,
-- it receives those of each key in the order in which a writer made by `NewWriter` was given them.
pub keys_in_order :
    (place : Placing)
    → IsHashing place
    → (brokers : List String) (topic : String) (received : List (ℕ × Message))
      (given : List Message)
    → ((p : ℕ)
        → of_partition p received
          ≡ of_partition p (written place (new_writer brokers topic) 0 given))
    → (k : String) → of_key k (messages received) ≡ of_key k given
unfolding IsPlaced
keys_in_order place laws brokers topic received given order k =
    let at = place hash 0 in
    let wr = written place (new_writer brokers topic) 0 given in
    let placed = written-IsPlaced place laws brokers topic 0 given in
    let arrived : IsPlaced at received =
      λ p. subst (λ l. All (λ m. at m.key ≡ p) l) (sym (order p)) (placed p) in
    of_key-messages at k received arrived
    ∙ ap (of_key k) (order (at k))
    ∙ sym (of_key-messages at k wr placed)
    ∙ ap (of_key k) (messages-written place (new_writer brokers topic) 0 given)
