-- ===== src/Config/Brokers.antt =====
-- internal/config/config.go, `split`: which lists of brokers there are, and when there is none.
use Prim.Native.String
use text.Mathlib.TextLemmas
use taxi_app.Base.{
  String, Char, Bool, true, false, ◌&&◌, ◌||◌, str_eq, eq_iff, List, [], ◌∷◌, if◌then◌else◌, ◌≡◌,
  ◌↔◌, refl, sym, ◌∙◌, ap, inl, inr, Bool-cases, arith, All,
}
use taxi_app.Config.{
  is_space, trim_left, trim_right, trim_space, is_comma, push, split_comma, split,
}
use taxi_app.Config.Split.{kept, split-kept}

abbrev pub has_no_comma : String → Bool
has_no_comma String.[] = true
has_no_comma (String.◌∷◌ c s) = if is_comma c then false else has_no_comma s

-- A name that a comma-separated list can hold.
pub record IsBroker (p : String) : Type 0 where
  pub trimmed : trim_space p ≡ p
  pub not_empty : str_eq p "" ≡ false
  pub one : has_no_comma p ≡ true

pub join_comma : List String → String
join_comma [] = ""
join_comma (p ∷ []) = p
join_comma (p ∷ q ∷ ps) = String.◌++◌ p (String.◌∷◌ "," (join_comma (q ∷ ps)))

split-one : (p : String) → has_no_comma p ≡ true → split_comma p ≡ p ∷ []
unfolding split_comma
split-one String.[] h = refl
split-one (String.◌∷◌ c p) h = ground (arith, split-one p)

split-first :
    (p s : String)
    → has_no_comma p ≡ true
    → split_comma (String.◌++◌ p (String.◌∷◌ "," s)) ≡ p ∷ split_comma s
unfolding split_comma
split-first String.[] s h = rw (TextLemmas.nil-append (String.◌∷◌ "," s)) refl
split-first (String.◌∷◌ c p) s h =
    rw (TextLemmas.cons-append c p (String.◌∷◌ "," s)) (ground (arith, split-first p s))

kept-IsBroker : (ps : List String) → All IsBroker ps → kept ps ≡ ps
unfolding kept
kept-IsBroker [] h = refl
kept-IsBroker (p ∷ ps) h =
    rw h.0.trimmed (rw h.0.not_empty (ap (λ l. p ∷ l) (kept-IsBroker ps h.1)))

all_space : String → Bool
all_space String.[] = true
all_space (String.◌∷◌ c s) = is_space c && all_space s

cons-ne-nil : (c : Char) (s : String) → str_eq (String.◌∷◌ c s) "" ≡ false
cons-ne-nil c s = elim (Bool-cases (str_eq (String.◌∷◌ c s) "")) [
  | inl same ↦ absurd (TextLemmas.cons-ne-nil c s ((eq_iff (String.◌∷◌ c s) "").0 same))
  | inr other ↦ other
]

trim_right-all_space : (s : String) → str_eq (trim_right s) "" ≡ all_space s
unfolding trim_right all_space
trim_right-all_space String.[] = refl
trim_right-all_space (String.◌∷◌ c s) = elim (Bool-cases (is_space c)) [
  | inl space ↦ elim (Bool-cases (str_eq (trim_right s) "")) [
    | inl gone ↦ rw (space, gone) (sym gone ∙ trim_right-all_space s)
    | inr left ↦ rw (space, left) (cons-ne-nil c (trim_right s) ∙ sym left ∙ trim_right-all_space s)
  ]
  | inr other ↦ rw other (cons-ne-nil c (trim_right s))
]

trim_left-all_space : (s : String) → all_space (trim_left s) ≡ all_space s
unfolding trim_left all_space
trim_left-all_space String.[] = refl
trim_left-all_space (String.◌∷◌ c s) = ground (arith, trim_left-all_space s)

all_blank : List String → Bool
all_blank [] = true
all_blank (p ∷ ps) = all_space p && all_blank ps

kept-nil_iff : (ps : List String) → (kept ps ≡ []) ↔ (all_blank ps ≡ true)
unfolding kept all_blank trim_space
kept-nil_iff [] = (λ h. refl, λ h. refl)
kept-nil_iff (p ∷ ps) =
    let same : str_eq (trim_space p) "" ≡ all_space p =
      trim_right-all_space (trim_left p) ∙ trim_left-all_space p in
    elim (Bool-cases (all_space p)) [
      | inl blank ↦ rw (same, blank) (kept-nil_iff ps)
      | inr full ↦ rw (same, full) (λ h. absurd (cc h), λ h. absurd (cc h))
    ]

-- Every character is a comma or white space.
pub all_separators : String → Bool
all_separators String.[] = true
all_separators (String.◌∷◌ c s) = (is_comma c || is_space c) && all_separators s

push-all_blank : (c : Char) (ps : List String) → all_blank (push c ps) ≡ is_space c && all_blank ps
unfolding push all_blank all_space
push-all_blank c [] = ground arith
push-all_blank c (p ∷ ps) = ground arith

split-all_blank : (s : String) → all_blank (split_comma s) ≡ all_separators s
unfolding split_comma all_blank all_space all_separators
split-all_blank String.[] = refl
split-all_blank (String.◌∷◌ c s) =
    ground (arith, push-all_blank c (split_comma s), split-all_blank s)

-- `split` returns no broker at all exactly if every character is a comma or white space.
pub split-nil_iff : (s : String) → (split s ≡ []) ↔ (all_separators s ≡ true)
split-nil_iff s = rw (split-kept s, ← split-all_blank s) (kept-nil_iff (split_comma s))

split-join :
    (p : String) (ps : List String)
    → All IsBroker (p ∷ ps)
    → split_comma (join_comma (p ∷ ps)) ≡ p ∷ ps
unfolding join_comma
split-join p [] h = split-one p h.0.one
split-join p (q ∷ ps) h =
    split-first p (join_comma (q ∷ ps)) h.0.one ∙ ap (λ l. p ∷ l) (split-join q ps h.1)

-- A list of non-empty trimmed names without commas, written with commas between them, is read back.
split-join_comma : (ps : List String) → All IsBroker ps → split (join_comma ps) ≡ ps
unfolding join_comma trim_space
split-join_comma [] h = unfold split in refl
split-join_comma (p ∷ ps) h = split-kept _ ∙ ap kept (split-join p ps h) ∙ kept-IsBroker (p ∷ ps) h
