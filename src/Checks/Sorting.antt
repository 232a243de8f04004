-- ===== src/Checks/Sorting.antt =====
-- A sort that keeps the promises of `sort.Slice`, by insertion.
use mathlib.Core.List.{Perm}
use mathlib.Core.List.Perm
use taxi_app.Base.{
  suc, List, [], ◌∷◌, Bool, false, ◌≡◌, refl, arith, if◌then◌else◌, length, All, inl, inr,
  Bool-cases,
}
use taxi_app.Infra.Sorting.{Ordered, IsStrictWeak, IsSort, IsPermuting}

module _ {A : Type 0} where
  abbrev pub insert : (A → A → Bool) → A → List A → List A
  insert less x [] = x ∷ []
  insert less x (y ∷ ys) = if less y x then y ∷ insert less x ys else x ∷ y ∷ ys

  abbrev pub insertion_sort : (A → A → Bool) → List A → List A
  insertion_sort less [] = []
  insertion_sort less (x ∷ xs) = insert less x (insertion_sort less xs)

  length-insert :
      (less : A → A → Bool) (x : A) (l : List A) → length (insert less x l) ≡ suc (length l)
  length-insert less x [] = refl
  length-insert less x (y ∷ ys) = ground (arith, length-insert less x ys)

  length-sort : (less : A → A → Bool) (l : List A) → length (insertion_sort less l) ≡ length l
  length-sort less [] = refl
  length-sort less (x ∷ l) =
      omega (arith, length-insert less x (insertion_sort less l), length-sort less l)

  insert-All :
      (P : A → Type 0) (less : A → A → Bool) (x : A) (l : List A)
      → P x
      → All P l
      → All P (insert less x l)
  insert-All P less x [] h k = (h, tt)
  insert-All P less x (y ∷ ys) h k = elim (Bool-cases (less y x)) [
    | inl after ↦ rw after (k.0, insert-All P less x ys h k.1)
    | inr before ↦ rw before (h, k)
  ]

  All-insert :
      (P : A → Type 0) (less : A → A → Bool) (x : A) (l : List A)
      → All P (insert less x l)
      → P x × All P l
  All-insert P less x [] h = (h.0, tt)
  All-insert P less x (y ∷ ys) h = elim (Bool-cases (less y x)) [
    | inl after ↦
        let k = rw after at h in let rest = All-insert P less x ys k.1 in (rest.0, (k.0, rest.1))
    | inr before ↦ (let k = rw before at h in (k.0, (k.1.0, k.1.1)))
  ]

  sort-All :
      (P : A → Type 0) (less : A → A → Bool) (l : List A) → All P l → All P (insertion_sort less l)
  sort-All P less [] h = tt
  sort-All P less (x ∷ l) h = insert-All P less x _ h.0 (sort-All P less l h.1)

  All-sort :
      (P : A → Type 0) (less : A → A → Bool) (l : List A) → All P (insertion_sort less l) → All P l
  All-sort P less [] h = tt
  All-sort P less (x ∷ l) h =
      let k = All-insert P less x (insertion_sort less l) h in (k.0, All-sort P less l k.1)

  module _ (P : A → Type 0) (less : A → A → Bool) (weak : IsStrictWeak P less) where
    open weak use {asymmetric, transitive}

    not_less-All :
        (x y : A) (l : List A)
        → P x
        → P y
        → All P l
        → less y x ≡ false
        → All (λ z. less z y ≡ false) l
        → All (λ z. less z x ≡ false) l
    not_less-All x y [] p q r h k = tt
    not_less-All x y (z ∷ l) p q r h k =
        (transitive z y x r.0 q p k.0 h, not_less-All x y l p q r.1 h k.1)

    insert-Ordered :
        (x : A) (l : List A) → P x → All P l → Ordered less l → Ordered less (insert less x l)
    insert-Ordered x [] p q h = (tt, tt)
    insert-Ordered x (y ∷ ys) p q h = elim (Bool-cases (less y x)) [
      | inl after ↦
          rw after
            (insert-All _ less x ys (asymmetric y x q.0 p after) h.0, insert-Ordered x ys p q.1 h.1)
      | inr before ↦ rw before ((before, not_less-All x y ys p q.0 q.1 before h.0), h)
    ]

    sort-Ordered : (l : List A) → All P l → Ordered less (insertion_sort less l)
    sort-Ordered [] h = tt
    sort-Ordered (x ∷ l) h =
        insert-Ordered x (insertion_sort less l) h.0 (sort-All P less l h.1) (sort-Ordered l h.1)

  insert-perm : (less : A → A → Bool) (x : A) (l : List A) → Perm (insert less x l) (x ∷ l)
  insert-perm less x [] = Perm.refl (x ∷ [])
  insert-perm less x (y ∷ ys) = elim (Bool-cases (less y x)) [
    | inl after ↦ rw after (Perm.trans (Perm.cons y (insert-perm less x ys)) (Perm.swap x y ys))
    | inr before ↦ rw before (Perm.refl (x ∷ y ∷ ys))
  ]

  sort-perm : (less : A → A → Bool) (l : List A) → Perm (insertion_sort less l) l
  sort-perm less [] = Perm.refl []
  sort-perm less (x ∷ l) =
      Perm.trans (insert-perm less x (insertion_sort less l)) (Perm.cons x (sort-perm less l))

  pub insertion_sort-IsPermuting : IsPermuting insertion_sort
  insertion_sort-IsPermuting = record { permutes = sort-perm }

  pub insertion_sort-IsSort : IsSort insertion_sort
  insertion_sort-IsSort = record {
    same_length = length-sort;
    covers = All-sort;
    keeps = sort-All;
    ordered = λ P less l weak h. sort-Ordered P less weak l h;
  }
