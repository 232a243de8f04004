-- ===== src/Startup/Retries.antt =====
-- internal/redisx/redisx.go and internal/db/db.go: when a service starts, and what it leaves open.
use taxi_app.Base.{
  ℕ, zero, suc, ◌+◌, ◌≤◌, ◌<◌, ◌≡◌, ◌≢◌, ◌↔◌, refl, ap, ◌⊎◌, inl, inr, Option, none, some,
  Option-cases, true, false, arith, String,
}
use taxi_app.Startup.{attempts, ping_loop, ping, Connected, connect_loop, connect}

-- A loop with this many rounds left ends with a cause for its error.
abbrev Explained : ℕ → Option String → Type 0
Explained n last = (0 < n) ⊎ (last ≢ none)

explained : (n : ℕ) (e : String) → Explained n (some e)
explained n e = inr (λ p. absurd (cc p))

ping_loop-none :
    (answer : ℕ → Option String) (n i : ℕ) (last : Option String)
    → Explained n last
    → (ping_loop answer n i last).0 ≡ none
    → (j : ℕ) × (j < i + n) × (answer j ≡ none)
unfolding ping_loop
ping_loop-none answer zero i last (inl p) h = absurd (omega arith)
ping_loop-none answer zero i last (inr p) h = absurd (p h)
ping_loop-none answer (suc n) i last p h = elim (Option-cases (answer i)) [
  | inl good ↦ (i, omega arith, good)
  | inr (e, bad) ↦
      let (j, below, good) =
        ping_loop-none answer n (suc i) (some e) (explained n e) (rw (bad, ping_loop) at h) in
      (j, omega arith, good)
]

ping_loop-ok :
    (answer : ℕ → Option String) (n i j : ℕ) (last : Option String)
    → i ≤ j
    → j < i + n
    → answer j ≡ none
    → ((ping_loop answer n i last).0 ≡ none) × ((ping_loop answer n i last).1 ≤ j)
unfolding ping_loop
ping_loop-ok answer zero i j last h k good = absurd (omega arith)
ping_loop-ok answer (suc n) i j last h k good = elim (Option-cases (answer i)) [
  | inl now ↦ rw (now, ping_loop) (refl, h)
  | inr (e, bad) ↦
      rw (bad, ping_loop)
        (ping_loop-ok answer n (suc i) j (some e) (ground (arith, ap answer)) (omega arith) good)
]

-- `Ping` returns no error exactly if one of the first thirty attempts is answered.
pub ping_iff :
    (answer : ℕ → Option String)
    → ((ping answer).0 ≡ none) ↔ ((j : ℕ) × (j < attempts) × (answer j ≡ none))
unfolding ping
ping_iff answer = (
  ping_loop-none answer attempts 0 none (inl (omega arith)),
  λ (j, below, good). (ping_loop-ok answer attempts 0 j none (omega arith) below good).0,
)

-- With a pool one pool is open; with an error none is.
abbrev pub Tidy : Connected → Type 0
Tidy c =
    ((c.pool ≡ true) × (c.error ≡ none) × (c.open_pools ≡ 1))
    ⊎ ((c.pool ≡ false) × (c.error ≢ none) × (c.open_pools ≡ 0))

connect_loop-Tidy :
    (create answer : ℕ → Option String) (n i : ℕ) (last : Option String)
    → Explained n last
    → Tidy (connect_loop create answer n i last 0)
unfolding connect_loop
connect_loop-Tidy create answer zero i last (inl p) = absurd (omega arith)
connect_loop-Tidy create answer zero i last (inr p) = inr (refl, p, refl)
connect_loop-Tidy create answer (suc n) i last p = elim (Option-cases (create i)) [
  | inr (f, bad) ↦
      rw (bad, connect_loop) (connect_loop-Tidy create answer n (suc i) (some f) (explained n f))
  | inl made ↦ elim (Option-cases (answer i)) [
    | inl good ↦ rw (made, connect_loop) (rw good (inl (refl, refl, refl)))
    | inr (f, bad) ↦
        rw (made, connect_loop)
          (rw bad (connect_loop-Tidy create answer n (suc i) (some f) (explained n f)))
  ]
]

-- `Connect` returns either a pool, no error and that one pool open, or no pool, an error, and every
-- pool that it made closed.
pub connect-Tidy : (create answer : ℕ → Option String) → Tidy (connect create answer)
unfolding connect
connect-Tidy create answer = connect_loop-Tidy create answer attempts 0 none (inl (omega arith))
