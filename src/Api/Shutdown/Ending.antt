-- ===== src/Api/Shutdown/Ending.antt =====
-- cmd/api/main.go: that `main` comes to its end, and no write is cut off then.
use taxi_app.Base.{ℕ, zero, suc, true, false, some, ◌≡◌, refl, ◌∙◌, ap, ◌⊎◌, inl, inr, arith}
use taxi_app.Api.Shutdown.{
  Phase, waiting, draining, drained, closing_trip, closing_loc, ended, failed, Server, main_next,
  Returns, trip_returns, loc_returns, Reach, Runs, here, next, wait,
}
use taxi_app.Api.Shutdown.Closing.{IsQuiet, AreOpen, Fits, Inv, Reach-Inv}

-- At the end both writers are closed, and nothing is written to them, unless the server had failed.
IsOver : Server → Type 0
IsOver t =
    (t.phase ≡ failed)
    ⊎ ((t.phase ≡ ended)
        × (t.listening ≡ false)
        × (t.trip_open ≡ false)
        × (t.loc_open ≡ false)
        × (t.trip_writes ≡ 0)
        × (t.loc_writes ≡ 0))

Ends : Server → Type 0
Ends s = (t : Server) × Runs s t × (t.active ≡ s.active) × IsOver t

Runs-first : {s t u : Server} → main_next s.phase s ≡ some t → Runs t u → Runs s u
Runs-first e here = next here e
Runs-first e (next r q) = next (Runs-first e r) q
Runs-first e (wait r q) = wait (Runs-first e r) q

Runs-wait : {s t u : Server} → Returns s t → Runs t u → Runs s u
Runs-wait e here = wait here e
Runs-wait e (next r q) = next (Runs-wait e r) q
Runs-wait e (wait r q) = wait (Runs-wait e r) q

first : (s t : Server) → main_next s.phase s ≡ some t → t.active ≡ s.active → Ends t → Ends s
unfolding Ends
first s t e same (u, r, kept, over) = (u, Runs-first e r, kept ∙ same, over)

first_wait : (s t : Server) → Returns s t → t.active ≡ s.active → Ends t → Ends s
unfolding Ends
first_wait s t e same (u, r, kept, over) = (u, Runs-wait e r, kept ∙ same, over)

-- What `main` does at a place that is named.
next_at : (p : Phase) (s : Server) → s.phase ≡ p → main_next s.phase s ≡ main_next p s
next_at p s e = ap (λ q. main_next q s) e

ends_closing_loc :
    (n : ℕ) (s : Server) → s.loc_writes ≡ n → s.phase ≡ closing_loc → Fits closing_loc s → Ends s
unfolding Ends IsOver Fits IsQuiet AreOpen main_next
ends_closing_loc zero s none_left e h =
    let t = record s { phase = ended } in
    let goes : main_next closing_loc s ≡ some t = ground arith in
    first s t (next_at closing_loc s e ∙ goes) refl
      (t, here, refl, inr (refl, h.0, h.2.0, h.2.1, h.3, none_left))
ends_closing_loc (suc n) s some_left e h =
    let t = record s { loc_writes = n } in
    first_wait s t (loc_returns n some_left refl) refl (ends_closing_loc n t refl e h)

ends_closing_trip :
    (n : ℕ) (s : Server) → s.trip_writes ≡ n → s.phase ≡ closing_trip → Fits closing_trip s → Ends s
unfolding Fits IsQuiet AreOpen main_next
ends_closing_trip zero s none_left e h =
    let t = record s { phase = closing_loc; loc_open = false } in
    let goes : main_next closing_trip s ≡ some t = ground arith in
    first s t (next_at closing_trip s e ∙ goes) refl
      (ends_closing_loc t.loc_writes t refl refl (h.0, h.1, (h.2.0, refl), none_left))
ends_closing_trip (suc n) s some_left e h =
    let t = record s { trip_writes = n } in
    first_wait s t (trip_returns n some_left refl) refl (ends_closing_trip n t refl e h)

ends_drained : (s : Server) → s.phase ≡ drained → Fits drained s → Ends s
unfolding Fits IsQuiet AreOpen main_next
ends_drained s e h =
    let t = record s { phase = closing_trip; trip_open = false } in
    first s t (next_at drained s e) refl
      (ends_closing_trip t.trip_writes t refl refl (h.0, h.1, (refl, h.2.1)))

ends_draining : (s : Server) → s.phase ≡ draining → s.expired ≡ true → Fits draining s → Ends s
unfolding Fits IsQuiet AreOpen main_next
ends_draining s e over h =
    let t = record s { phase = drained } in
    let returns : main_next draining s ≡ some t = rw over (ground arith) in
    first s t (next_at draining s e ∙ returns) refl (ends_drained t refl (h.0, inr over, h.1))

ends_waiting :
    (s : Server)
    → s.phase ≡ waiting
    → s.signalled ≡ true
    → s.expired ≡ true
    → Fits waiting s
    → Ends s
unfolding Fits AreOpen main_next
ends_waiting s e told over h =
    let t = record s { phase = draining; listening = false } in
    let goes : main_next waiting s ≡ some t = rw told refl in
    first s t (next_at waiting s e ∙ goes) refl (ends_draining t refl over (refl, h))

ends :
    (p : Phase) (s : Server)
    → s.phase ≡ p
    → s.signalled ≡ true
    → s.expired ≡ true
    → Fits p s
    → Ends s
unfolding Ends IsOver Fits AreOpen
ends waiting s e told over h = ends_waiting s e told over h
ends draining s e told over h = ends_draining s e over h
ends drained s e told over h = ends_drained s e h
ends closing_trip s e told over h = ends_closing_trip s.trip_writes s refl e h
ends closing_loc s e told over h = ends_closing_loc s.loc_writes s refl e h
ends ended s e told over h = (s, here, refl, inr (e, h.0, h.2.0, h.2.1, h.3, h.4))
ends failed s e told over h = (s, here, refl, inl e)

-- Once the signal has come and the five seconds are over, `main` and the writes under way can go on
-- alone, without the answer of a request, to the end of `main`, unless `ListenAndServe` had failed:
-- both writers are closed then, and no write is under way.
pub main_ends :
    {s : Server}
    → Reach s
    → s.signalled ≡ true
    → s.expired ≡ true
    → (t : Server) × Runs s t
      × (t.active ≡ s.active)
      × ((t.phase ≡ failed)
          ⊎ ((t.phase ≡ ended)
              × (t.listening ≡ false)
              × (t.trip_open ≡ false)
              × (t.loc_open ≡ false)
              × (t.trip_writes ≡ 0)
              × (t.loc_writes ≡ 0)))
unfolding Inv Ends IsOver
main_ends {s} r told over = ends s.phase s refl told over (Reach-Inv r)
