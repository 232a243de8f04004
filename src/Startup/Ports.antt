-- ===== src/Startup/Ports.antt =====
-- internal/kafkax/kafkax.go, `itoa`: the text of a port against a reader of decimal numbers.
use taxi_app.Base.{
  ℕ, zero, suc, ◌+◌, ◌-◌, ◌*◌, ◌/◌, ◌%◌, ◌^◌, ◌<◌, ◌==◌, ==_iff, ◌≡◌, refl, sym, ◌∙◌, ap, inl, inr,
  some, Bool-cases, List, [], ◌∷◌, arith,
}
use taxi_app.Base.Int.{pos}
use taxi_app.Startup.{fill, itoa}

-- The value of decimal digits behind a value.
pub value : ℕ → List ℕ → ℕ
value v [] = v
value v (b ∷ bs) = value (v * 10 + (b - 48)) bs

fill-value :
    (room n : ℕ) (b : List ℕ)
    → n < 10 ^ room
    → (s : List ℕ) × (fill room n b ≡ some s) × (value 0 s ≡ value n b)
unfolding fill value
fill-value zero n b h = (b, ground arith, ap (λ v. value v b) (omega arith))
fill-value (suc room) n b h = elim (Bool-cases (n == 0)) [
  | inl stop ↦ (b, rw stop refl, ap (λ v. value v b) (sym ((==_iff n 0).0 stop)))
  | inr go ↦
      let (s, done, same) = fill-value room (n / 10) ((48 + n % 10) % 256 ∷ b) (omega arith) in
      (s, rw go done, same ∙ ap (λ v. value v b) (omega arith))
]

-- A port below 2^63 is written without an index out of range, and its text reads back as
-- the number.
pub value-itoa : (n : ℕ) → n < 2 ^ 63 → (s : List ℕ) × (itoa (pos n) ≡ some s) × (value 0 s ≡ n)
unfolding itoa value
value-itoa n h = elim (Bool-cases (n == 0)) [
  | inl stop ↦ (48 ∷ [], rw stop refl, sym ((==_iff n 0).0 stop))
  | inr go ↦ let (s, done, same) = fill-value 20 n [] (omega arith) in (s, rw go done, same)
]
