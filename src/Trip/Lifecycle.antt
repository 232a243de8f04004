-- ===== src/Trip/Lifecycle.antt =====
-- internal/trip/trip.go: `CanTransition` against the diagram that docs/architecture/load-patterns.md draws.
use text.Mathlib.TextEquality.{eq_iff}
use taxi_app.Base.{
  ap₂, ◌∙◌, ℕ, ◌≡◌, ◌↔◌, ◌⊎◌, inl, inr, refl, String, true, false, List, [], ◌∷◌, arith, str_eq,
  if◌then◌else◌,
}
use taxi_app.Models.{TripState, requested, assigned, in_progress, completed, cancelled}
use taxi_app.Trip.{can_transition}

-- The arrows of the lifecycle.
pub data Arrow (s t : TripState) : Type 0 where
  assign : s ≡ requested → t ≡ assigned → Arrow s t
  drop_request : s ≡ requested → t ≡ cancelled → Arrow s t
  start : s ≡ assigned → t ≡ in_progress → Arrow s t
  drop_assigned : s ≡ assigned → t ≡ cancelled → Arrow s t
  finish : s ≡ in_progress → t ≡ completed → Arrow s t
  stop : s ≡ in_progress → t ≡ cancelled → Arrow s t

ruleset arrows = (assign, drop_request, start, drop_assigned, finish, stop)

can_transition-Arrow : (s t : TripState) → can_transition s t ≡ true → Arrow s t
unfolding can_transition
can_transition-Arrow s t h = grind (
  arith,
  arrows,
  eq_iff requested s,
  eq_iff assigned s,
  eq_iff in_progress s,
  eq_iff assigned t,
  eq_iff in_progress t,
  eq_iff completed t,
  eq_iff cancelled t,
)

Arrow-can_transition : (s t : TripState) → Arrow s t → can_transition s t ≡ true
unfolding can_transition
Arrow-can_transition s t (assign p q) = rw (p, q)
Arrow-can_transition s t (drop_request p q) = rw (p, q)
Arrow-can_transition s t (start p q) = rw (p, q)
Arrow-can_transition s t (drop_assigned p q) = rw (p, q)
Arrow-can_transition s t (finish p q) = rw (p, q)
Arrow-can_transition s t (stop p q) = rw (p, q)

-- Over all strings, `CanTransition` accepts exactly the arrows of the lifecycle.
pub can_transition_iff : (s t : TripState) → (can_transition s t ≡ true) ↔ Arrow s t
can_transition_iff s t = (can_transition-Arrow s t, Arrow-can_transition s t)

abbrev pub IsTerminal : TripState → Type 0
IsTerminal s = (s ≡ completed) ⊎ (s ≡ cancelled)

-- How many moves a state can be from its end.
abbrev moves_left : TripState → ℕ
moves_left s =
    if str_eq requested s
    then 3
    else if str_eq assigned s
    then 2
    else if str_eq in_progress s
    then 1
    else 0

-- A sequence of accepted moves, with the states that it visits after the first.
pub data Walk : TripState → List TripState → TripState → Type 0 where
  stay : {s : TripState} → Walk s [] s
  move :
      {s t u : TripState} {ts : List TripState}
      → can_transition s t ≡ true
      → Walk t ts u
      → Walk s (t ∷ ts) u

-- Out of a completed or cancelled trip nothing is accepted.
terminal_stuck : (s t : TripState) → IsTerminal s → can_transition s t ≡ false
unfolding can_transition
terminal_stuck s t (inl e) = rw e
terminal_stuck s t (inr e) = rw e

-- One string is not two.
clash : {s a b : String} → s ≡ a → s ≡ b → str_eq a b ≡ false → ⊥
clash {s} {a} {b} e f h = ground (arith, eq_iff a b)

Walk_terminal :
    {s t : TripState} {ts : List TripState} → Walk s ts t → IsTerminal s → (ts ≡ []) × (s ≡ t)
Walk_terminal stay e = (refl, refl)
Walk_terminal (move {s} {t} h w) e = ground (arith, terminal_stuck s t e)

route_started :
    {s t : TripState} {ts : List TripState}
    → Walk s ts t
    → s ≡ in_progress
    → t ≡ completed
    → ts ≡ completed ∷ []
route_started stay e f = absurd (clash e f refl)
route_started (move {s} {t} h w) e f = elim (can_transition-Arrow s t h) [
  | finish p q ↦ ap₂ ◌∷◌ q (Walk_terminal w (inl q)).0
  | stop p q ↦ absurd (clash q ((Walk_terminal w (inr q)).1 ∙ f) refl)
  | assign p q ↦ absurd (clash e p refl)
  | drop_request p q ↦ absurd (clash e p refl)
  | start p q ↦ absurd (clash e p refl)
  | drop_assigned p q ↦ absurd (clash e p refl)
]

route_assigned :
    {s t : TripState} {ts : List TripState}
    → Walk s ts t
    → s ≡ assigned
    → t ≡ completed
    → ts ≡ in_progress ∷ completed ∷ []
route_assigned stay e f = absurd (clash e f refl)
route_assigned (move {s} {t} h w) e f = elim (can_transition-Arrow s t h) [
  | start p q ↦ ap₂ ◌∷◌ q (route_started w q f)
  | drop_assigned p q ↦ absurd (clash q ((Walk_terminal w (inr q)).1 ∙ f) refl)
  | assign p q ↦ absurd (clash e p refl)
  | drop_request p q ↦ absurd (clash e p refl)
  | finish p q ↦ absurd (clash e p refl)
  | stop p q ↦ absurd (clash e p refl)
]

route_requested :
    {s t : TripState} {ts : List TripState}
    → Walk s ts t
    → s ≡ requested
    → t ≡ completed
    → ts ≡ assigned ∷ in_progress ∷ completed ∷ []
route_requested stay e f = absurd (clash e f refl)
route_requested (move {s} {t} h w) e f = elim (can_transition-Arrow s t h) [
  | assign p q ↦ ap₂ ◌∷◌ q (route_assigned w q f)
  | drop_request p q ↦ absurd (clash q ((Walk_terminal w (inr q)).1 ∙ f) refl)
  | start p q ↦ absurd (clash e p refl)
  | drop_assigned p q ↦ absurd (clash e p refl)
  | finish p q ↦ absurd (clash e p refl)
  | stop p q ↦ absurd (clash e p refl)
]

-- A walk of accepted moves from REQUESTED to COMPLETED visits ASSIGNED, IN_PROGRESS and COMPLETED, in
-- this order, and nothing else.
pub completed_route :
    {ts : List TripState}
    → Walk requested ts completed
    → ts ≡ assigned ∷ in_progress ∷ completed ∷ []
completed_route w = route_requested w refl refl
