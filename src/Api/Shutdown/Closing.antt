-- ===== src/Api/Shutdown/Closing.antt =====
-- cmd/api/main.go: when the writers are closed.
use taxi_app.Base.{
  ℕ, suc, Bool, true, false, ◌||◌, ◌==◌, some, some-injective, ◌≡◌, refl, sym, ◌∙◌, subst, ◌⊎◌, inl,
  inr, Bool-cases, arith,
}
use taxi_app.Api.Shutdown.{
  Phase, waiting, draining, drained, closing_trip, closing_loc, ended, failed, Server, main_next,
  Returns, trip_returns, loc_returns, Step, main, signal, expire, accept, answer, write_trip,
  write_loc, returns, fail, Reach, start, later,
}

-- No request is under way, or the time is over.
unfoldable pub IsQuiet : Server → Type 0
IsQuiet s = (s.active ≡ 0) ⊎ (s.expired ≡ true)

unfoldable pub AreOpen : Bool → Bool → Server → Type 0
AreOpen trip loc s = (s.trip_open ≡ trip) × (s.loc_open ≡ loc)

-- What holds at each place of `main`.
unfoldable pub Fits : Phase → Server → Type 0
Fits waiting s = AreOpen true true s
Fits failed s = AreOpen true true s
Fits draining s = (s.listening ≡ false) × AreOpen true true s
Fits drained s = (s.listening ≡ false) × IsQuiet s × AreOpen true true s
Fits closing_trip s = (s.listening ≡ false) × IsQuiet s × AreOpen false true s
Fits closing_loc s = (s.listening ≡ false) × IsQuiet s × AreOpen false false s × (s.trip_writes ≡ 0)
Fits ended s =
    (s.listening ≡ false)
    × IsQuiet s
    × AreOpen false false s
    × (s.trip_writes ≡ 0)
    × (s.loc_writes ≡ 0)

unfoldable pub Inv : Server → Type 0
Inv s = Fits s.phase s

quiet_after : (a b : Bool) (n : ℕ) → ((n == 0) || b) ≡ true → (n ≡ 0) ⊎ (b ≡ true)
quiet_after a b n h = elim (Bool-cases b) [ inl over ↦ inr over | inr not_yet ↦ inl (ground arith) ]

main-Inv : (p : Phase) (s t : Server) → main_next p s ≡ some t → Fits p s → Inv t
unfolding main_next Fits Inv IsQuiet AreOpen
main-Inv waiting s t e h = elim (Bool-cases s.signalled) [
  | inl go ↦ subst Inv (some-injective _ _ (rw go at e)) (refl, h)
  | inr stay ↦ absurd (cc (rw stay at e))
]
main-Inv draining s t e h = elim (Bool-cases (s.active == 0 || s.expired)) [
  | inl go ↦
      subst Inv (some-injective _ _ (rw go at e)) (h.0, quiet_after true s.expired s.active go, h.1)
  | inr stay ↦ absurd (cc (rw stay at e))
]
main-Inv drained s t e h = subst Inv (some-injective _ _ e) (h.0, h.1, (refl, h.2.1))
main-Inv closing_trip s t e h = elim (Bool-cases (s.trip_writes == 0)) [
  | inl go ↦
      subst Inv (some-injective _ _ (rw go at e)) (h.0, h.1, (h.2.0, refl), ground (arith, go))
  | inr stay ↦ absurd (cc (rw stay at e))
]
main-Inv closing_loc s t e h = elim (Bool-cases (s.loc_writes == 0)) [
  | inl go ↦ subst Inv (some-injective _ _ (rw go at e)) (h.0, h.1, h.2, h.3, ground (arith, go))
  | inr stay ↦ absurd (cc (rw stay at e))
]
main-Inv ended s t e h = absurd (cc e)
main-Inv failed s t e h = absurd (cc e)

signal-Fits : (p : Phase) (s : Server) → Fits p s → Fits p (record s { signalled = true })
unfolding Fits IsQuiet AreOpen
signal-Fits waiting s h = h
signal-Fits failed s h = h
signal-Fits draining s h = h
signal-Fits drained s h = h
signal-Fits closing_trip s h = h
signal-Fits closing_loc s h = h
signal-Fits ended s h = h

accept-Fits :
    (p : Phase) (s : Server)
    → s.listening ≡ true
    → Fits p s
    → Fits p (record s { active = suc s.active }) × AreOpen true true s
unfolding Fits IsQuiet AreOpen
accept-Fits waiting s on h = (h, h)
accept-Fits failed s on h = (h, h)
accept-Fits draining s on h = (h, h.1)
accept-Fits drained s on h = absurd (cc (sym on ∙ h.0))
accept-Fits closing_trip s on h = absurd (cc (sym on ∙ h.0))
accept-Fits closing_loc s on h = absurd (cc (sym on ∙ h.0))
accept-Fits ended s on h = absurd (cc (sym on ∙ h.0))

answer-IsQuiet :
    (s : Server) (n : ℕ) → s.active ≡ suc n → IsQuiet s → IsQuiet (record s { active = n })
unfolding IsQuiet
answer-IsQuiet s n e (inl none_left) = absurd (omega arith)
answer-IsQuiet s n e (inr over) = inr over

answer-Fits :
    (p : Phase) (s : Server) (n : ℕ)
    → s.active ≡ suc n
    → Fits p s
    → Fits p (record s { active = n })
unfolding Fits AreOpen
answer-Fits waiting s n e h = h
answer-Fits failed s n e h = h
answer-Fits draining s n e h = h
answer-Fits drained s n e h = (h.0, answer-IsQuiet s n e h.1, h.2)
answer-Fits closing_trip s n e h = (h.0, answer-IsQuiet s n e h.1, h.2)
answer-Fits closing_loc s n e h = (h.0, answer-IsQuiet s n e h.1, h.2, h.3)
answer-Fits ended s n e h = (h.0, answer-IsQuiet s n e h.1, h.2, h.3, h.4)

write_trip-Fits :
    (p : Phase) (s : Server)
    → s.trip_open ≡ true
    → Fits p s
    → Fits p (record s { trip_writes = suc s.trip_writes })
unfolding Fits IsQuiet AreOpen
write_trip-Fits waiting s on h = h
write_trip-Fits failed s on h = h
write_trip-Fits draining s on h = h
write_trip-Fits drained s on h = h
write_trip-Fits closing_trip s on h = absurd (cc (sym on ∙ h.2.0))
write_trip-Fits closing_loc s on h = absurd (cc (sym on ∙ h.2.0))
write_trip-Fits ended s on h = absurd (cc (sym on ∙ h.2.0))

write_loc-Fits :
    (p : Phase) (s : Server)
    → s.loc_open ≡ true
    → Fits p s
    → Fits p (record s { loc_writes = suc s.loc_writes })
unfolding Fits IsQuiet AreOpen
write_loc-Fits waiting s on h = h
write_loc-Fits failed s on h = h
write_loc-Fits draining s on h = h
write_loc-Fits drained s on h = h
write_loc-Fits closing_trip s on h = h
write_loc-Fits closing_loc s on h = absurd (cc (sym on ∙ h.2.1))
write_loc-Fits ended s on h = absurd (cc (sym on ∙ h.2.1))

trip_returns-Fits :
    (p : Phase) (s : Server) (n : ℕ)
    → s.trip_writes ≡ suc n
    → Fits p s
    → Fits p (record s { trip_writes = n })
unfolding Fits IsQuiet AreOpen
trip_returns-Fits waiting s n e h = h
trip_returns-Fits failed s n e h = h
trip_returns-Fits draining s n e h = h
trip_returns-Fits drained s n e h = h
trip_returns-Fits closing_trip s n e h = h
trip_returns-Fits closing_loc s n e h = absurd (omega (arith, h.3))
trip_returns-Fits ended s n e h = absurd (omega (arith, h.3))

loc_returns-Fits :
    (p : Phase) (s : Server) (n : ℕ)
    → s.loc_writes ≡ suc n
    → Fits p s
    → Fits p (record s { loc_writes = n })
unfolding Fits IsQuiet AreOpen
loc_returns-Fits waiting s n e h = h
loc_returns-Fits failed s n e h = h
loc_returns-Fits draining s n e h = h
loc_returns-Fits drained s n e h = h
loc_returns-Fits closing_trip s n e h = h
loc_returns-Fits closing_loc s n e h = h
loc_returns-Fits ended s n e h = absurd (omega (arith, h.4))

pub Returns-Inv : {s t : Server} → Returns s t → Inv s → Inv t
unfolding Inv
Returns-Inv {s} (trip_returns n some_left e) h =
    subst Inv (sym e) (trip_returns-Fits s.phase s n some_left h)
Returns-Inv {s} (loc_returns n some_left e) h =
    subst Inv (sym e) (loc_returns-Fits s.phase s n some_left h)

Step-Inv : {s t : Server} → Step s t → Inv s → Inv t
unfolding Inv Fits AreOpen
Step-Inv {s} {t} (main e) h = main-Inv s.phase s t e h
Step-Inv {s} (signal e) h = subst Inv (sym e) (signal-Fits s.phase s h)
Step-Inv {s} (expire at e) h =
    subst Inv (sym e)
      (subst (λ p. Fits p (record s { expired = true })) (sym at) (subst (λ p. Fits p s) at h))
Step-Inv {s} (accept on e) h = subst Inv (sym e) (accept-Fits s.phase s on h).0
Step-Inv {s} (write_trip on below e) h = subst Inv (sym e) (write_trip-Fits s.phase s on h)
Step-Inv {s} (write_loc on below e) h = subst Inv (sym e) (write_loc-Fits s.phase s on h)
Step-Inv (returns r) h = Returns-Inv r h
Step-Inv {s} (answer n some_left idle e) h = subst Inv (sym e) (answer-Fits s.phase s n some_left h)
Step-Inv {s} (fail on e) h = subst Inv (sym e) (accept-Fits s.phase s on h).1

pub Reach-Inv : {s : Server} → Reach s → Inv s
unfolding Inv Fits AreOpen
Reach-Inv start = (refl, refl)
Reach-Inv (later r e) = Step-Inv e (Reach-Inv r)

open_or_over :
    (p : Phase) (s : Server)
    → Fits p s
    → ((s.trip_open ≡ true) × (s.loc_open ≡ true)) ⊎ ((s.listening ≡ false) × IsQuiet s)
unfolding Fits AreOpen
open_or_over waiting s h = inl h
open_or_over failed s h = inl h
open_or_over draining s h = inl h.1
open_or_over drained s h = inl h.2
open_or_over closing_trip s h = inr (h.0, h.1)
open_or_over closing_loc s h = inr (h.0, h.1)
open_or_over ended s h = inr (h.0, h.1)

-- In every state of the process both writers are open, or no request comes any more, and none is
-- under way unless the five seconds are over.
pub writers_open :
    {s : Server}
    → Reach s
    → ((s.trip_open ≡ true) × (s.loc_open ≡ true))
      ⊎ ((s.listening ≡ false) × ((s.active ≡ 0) ⊎ (s.expired ≡ true)))
unfolding Inv IsQuiet
writers_open {s} r = open_or_over s.phase s (Reach-Inv r)
