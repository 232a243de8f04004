-- ===== src/Checks/StartupRuns.antt =====
-- A server that comes up at the fourth attempt, and the port of a broker.
use taxi_app.Base.{
  ℕ, String, ◌≡◌, refl, Option, none, some, List, [], ◌∷◌, if◌then◌else◌, ltb, arith,
}
use taxi_app.Base.Int.{pos, negsuc}
use taxi_app.Startup.{ping, ping_loop, connect, itoa, net, fill}
use taxi_app.Startup.Retries.{Tidy, connect-Tidy}
use taxi_app.Startup.Ports.{value, value-itoa}

abbrev late : ℕ → Option String
late i = if ltb i 3 then some "connection refused" else none

slept_three : ping late ≡ (none, 3)
unfolding ping ping_loop
slept_three = refl

kafka_port : net (107 ∷ []) (pos 9092) ≡ some (107 ∷ 58 ∷ 57 ∷ 48 ∷ 57 ∷ 50 ∷ [])
unfolding net itoa fill
kafka_port = refl

negative_is_empty : itoa (negsuc 6) ≡ some []
unfolding itoa
negative_is_empty = refl

connect-Tidy_example : Tidy (connect (λ i. none) late)
connect-Tidy_example = connect-Tidy (λ i. none) late

value-itoa_example : (s : List ℕ) × (itoa (pos 9092) ≡ some s) × (value 0 s ≡ 9092)
value-itoa_example = value-itoa 9092 (omega arith)
