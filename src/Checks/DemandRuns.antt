-- ===== src/Checks/DemandRuns.antt =====
-- Requests in two regions, and the multiplier in one of them.
use Prim.Native.String.len
use taxi_app.Base.{
  ℕ, suc, ◌+◌, String, len, Option, none, some, List, [], ◌∷◌, ◌≡◌, refl, ◌∙◌, ap, ◌⊎◌, inl, inr,
  Bool-cases, arith, str_eq, eq_iff, length,
}
use taxi_app.Base.Int.{ℤ, pos, add_ℤ}
use taxi_app.Float64.{◌≼◌}
use taxi_app.Float64.Fixed.{fixed, Fixed-IsMonotone}
use taxi_app.Infra.{Env, Command, geo_add, h_set, expire, z_rem, del, incr, reply, missing}
use taxi_app.Infra.Counters.{IsCounting, counted_after, counted_all}
use taxi_app.Region
use taxi_app.Surge.{multiplier, factor}
use taxi_app.Surge.Demand.{multiplier-record_all, record_all, inside}
use taxi_app.Checks.Memory.{Memory, run, run_all, counted, or_missing}
use taxi_app.Checks.Board.{board}
use taxi_app.Checks.AgainRuns.{run_all-other}
use taxi_app.Checks.ApiRuns.{empty_memory}

-- A server in memory that always answers.
abbrev counting : Env ℤ
counting = record board {
  redis = record board.redis {
    pipe_exec = λ cs m. (none, run_all cs m);
    zcard = λ k m. (reply (pos (length (m.sets k))), m);
    get = λ k m. (or_missing (m.strings k), m);
  };
}

abbrev counted_in : Option String → ℕ
counted_in none = 0
counted_in (some s) = len s

counted_in-counted : (o : Option String) → counted_in (some (counted o)) ≡ suc (counted_in o)
counted_in-counted none = refl
counted_in-counted (some s) = len.cons "1" s ∙ succ (len s)
  where
    succ : (n : ℕ) → 1 + n ≡ suc n
    succ n = omega arith

run-count :
    (c : Command ℤ) (k : String) (m : Memory)
    → counted_in ((run c m).strings k) ≡ counted_after k (counted_in (m.strings k)) c
run-count (geo_add key name lng lat) k m = refl
run-count (h_set key region lat lng ts) k m = refl
run-count (expire key ttl) k m = refl
run-count (z_rem key name) k m = refl
run-count (del key) k m = ground arith
run-count (incr key) k m = elim (Bool-cases (str_eq key k)) [
  | inl hit ↦ rw (hit, (eq_iff key k).0 hit) (counted_in-counted (m.strings k))
  | inr miss ↦ rw miss refl
]

run_all-count :
    (cs : List (Command ℤ)) (k : String) (m : Memory)
    → counted_in ((run_all cs m).strings k) ≡ counted_all k (counted_in (m.strings k)) cs
run_all-count [] k m = refl
run_all-count (c ∷ cs) k m =
    run_all-count cs k (run c m) ∙ ap (λ n. counted_all k n cs) (run-count c k m)

get-count :
    (k : String) (m : Memory)
    → ((or_missing (m.strings k) ≡ missing) × (counted_in (m.strings k) ≡ 0))
      ⊎ ((s : String) × (or_missing (m.strings k) ≡ reply s)
          × (pos (len s) ≡ pos (counted_in (m.strings k))))
get-count k m = answered (m.strings k)
  where
    answered :
        (o : Option String)
        → ((or_missing o ≡ missing) × (counted_in o ≡ 0))
          ⊎ ((s : String) × (or_missing o ≡ reply s) × (pos (len s) ≡ pos (counted_in o)))
    answered none = inl (refl, refl)
    answered (some s) = inr (s, refl, refl)

unfoldable counting-IsCounting : IsCounting counting.redis counting.parse_int
counting-IsCounting = record {
  count = λ m k. counted_in (m.strings k);
  size = λ m k. pos (length (m.sets k));
  get_count = get-count;
  get_size = λ k j m. refl;
  zcard_size = λ k m. refl;
  pipe_count = run_all-count;
  pipe_size = λ cs k m h. ap (λ l. pos (length l)) (run_all-other cs k m h).1;
}

-- Three requests, two of them in the region that is asked for.
abbrev places : List (ℤ × ℤ)
places =
    (pos 6_524_400_000, pos 3_379_200_000)
    ∷ (pos 0, pos 0)
    ∷ (pos 6_524_400_000, pos 3_379_200_000)
    ∷ []

multiplier-record_all_example :
    ((multiplier counting
        (pos 6_524_400_000)
        (pos 3_379_200_000)
        (record_all counting counting-IsCounting places empty_memory)).0
      ≡ factor (pos 2) (pos 0))
    × ((multiplier counting (pos 6_524_400_000) (pos 3_379_200_000) empty_memory).0
        ≼ (multiplier counting
            (pos 6_524_400_000)
            (pos 3_379_200_000)
            (record_all counting counting-IsCounting places empty_memory)).0)
unfolding counting-IsCounting inside Region.key add_ℤ
multiplier-record_all_example =
    multiplier-record_all counting counting-IsCounting Fixed-IsMonotone places (pos 6_524_400_000)
      (pos 3_379_200_000) empty_memory
