-- ===== src/Infra/Sorting.antt =====
-- What Go documents of `sort.Slice`.
use mathlib.Core.List.{Perm}
use taxi_app.Base.{List, [], ◌∷◌, Bool, true, false, ◌≡◌, length, All}

-- No item is less than one before it.
abbrev pub Ordered {ℓ} : {A : Type ℓ} → (A → A → Bool) → List A → Type 0
Ordered less [] = Unit
Ordered less (x ∷ xs) = All (λ y. less y x ≡ false) xs × Ordered less xs

-- On the values of `P`, `less` is a strict weak ordering, as `sort.Slice` demands.
pub record IsStrictWeak {A : Type 0} (P : A → Type 0) (less : A → A → Bool) : Type 0 where
  pub irreflexive : (a : A) → P a → less a a ≡ false
  pub asymmetric : (a b : A) → P a → P b → less a b ≡ true → less b a ≡ false
  pub transitive :
      (a b c : A) → P a → P b → P c → less a b ≡ false → less b c ≡ false → less a c ≡ false

-- `sort.Slice` moves the items around, and puts them in order by a strict weak ordering.
pub record IsSort {A : Type 0} (sort : (A → A → Bool) → List A → List A) : Type 1 where
  pub same_length : (less : A → A → Bool) (l : List A) → length (sort less l) ≡ length l
  pub covers : (P : A → Type 0) (less : A → A → Bool) (l : List A) → All P (sort less l) → All P l
  pub keeps : (P : A → Type 0) (less : A → A → Bool) (l : List A) → All P l → All P (sort less l)
  pub ordered :
      (P : A → Type 0) (less : A → A → Bool) (l : List A)
      → IsStrictWeak P less
      → All P l
      → Ordered less (sort less l)

-- The sorted list has the same items, each as often.
pub record IsPermuting {A : Type 0} (sort : (A → A → Bool) → List A → List A) : Type 0 where
  pub permutes : (less : A → A → Bool) (l : List A) → Perm (sort less l) l
