-- ===== src/Infra/Keys.antt =====
-- Messages by their key.
use taxi_app.Base.{String, List, [], ◌∷◌, inl, inr, Bool-cases, if◌then◌else◌, str_eq, eq_refl, All}
use taxi_app.Infra.{Message}

-- The messages under one key.
unfoldable pub of_key : String → List Message → List Message
of_key k [] = []
of_key k (m ∷ ms) = if str_eq m.key k then m ∷ of_key k ms else of_key k ms

-- Every message stands under its own key.
pub All-of_key :
    (P : Message → Type 0) (ms : List Message) → ((k : String) → All P (of_key k ms)) → All P ms
unfolding of_key
All-of_key P [] h = tt
All-of_key P (m ∷ ms) h = (
  (rw eq_refl at (h m.key)).0,
  All-of_key P ms λ k. elim (Bool-cases (str_eq m.key k)) [
    | inl same ↦ (rw same at (h k)).1
    | inr other ↦ rw other at (h k)
  ],
)

pub of_key-All :
    (P : Message → Type 0) (k : String) (ms : List Message) → All P ms → All P (of_key k ms)
unfolding of_key
of_key-All P k [] h = tt
of_key-All P k (m ∷ ms) h = elim (Bool-cases (str_eq m.key k)) [
  | inl same ↦ rw same (h.0, of_key-All P k ms h.1)
  | inr other ↦ rw other (of_key-All P k ms h.1)
]
