-- ===== src/Checks/Memory.antt =====
-- A Redis, a Kafka and the rest in memory, over fixed-point numbers: values of the parameters, with
-- the laws of the parameters for them. A switch takes the server down.
use taxi_app.Base.{
  ℕ, String, Bool, true, false, Option, none, some, List, [], ◌∷◌, ◌≡◌, ◌≢◌, refl, ◌∙◌, ap, ◌⊎◌,
  inl, inr, arith, if◌then◌else◌, str_eq, eq_iff, length, All, Bool-cases,
}
use taxi_app.Base.Int.{ℤ, pos}
use taxi_app.Infra.{
  Command, geo_add, h_set, expire, z_rem, del, incr, Reply, reply, missing, failed, GeoLocation,
  GeoQuery, Redis,
}
use taxi_app.Infra.Laws.{IsStringStore, IsGeoStore, key_of, AddsTo}

pub record Memory : Type 0 where
  pub up : Bool
  pub strings : String → Option String
  pub sets : String → List (GeoLocation ℤ)
  pub hashes : String → Bool

abbrev update {ℓ} : {A : Type ℓ} → (String → A) → String → A → String → A
update f k a j = if str_eq k j then a else f j

abbrev pub without : String → List (GeoLocation ℤ) → List (GeoLocation ℤ)
without name [] = []
without name (l ∷ ls) = if str_eq l.name name then without name ls else l ∷ without name ls

abbrev point : String → ℤ → ℤ → GeoLocation ℤ
point name lng lat = record { name = name; longitude = lng; latitude = lat; dist = lat }

-- A counter is a text of as many characters.
abbrev pub counted : Option String → String
counted none = "1"
counted (some s) = String.◌∷◌ "1" s

abbrev pub run : Command ℤ → Memory → Memory
run (geo_add key name lng lat) m = record m {
  sets = update m.sets key (point name lng lat ∷ without name (m.sets key));
}
run (h_set key region lat lng ts) m = record m { hashes = update m.hashes key true }
run (expire key ttl) m = m
run (z_rem key name) m = record m { sets = update m.sets key (without name (m.sets key)) }
run (del key) m = record m {
  strings = update m.strings key none;
  sets = update m.sets key [];
  hashes = update m.hashes key false;
}
run (incr key) m = record m { strings = update m.strings key (some (counted (m.strings key))) }

abbrev pub run_all : List (Command ℤ) → Memory → Memory
run_all [] m = m
run_all (c ∷ cs) m = run_all cs (run c m)

abbrev down : Option String
down = some "connection refused"

abbrev exec : List (Command ℤ) → Memory → Option String × Memory
exec cs m = if m.up then (none, run_all cs m) else (down, m)

abbrev if_up {ℓ} : {A : Type ℓ} → Memory → Reply A → Reply A × Memory
if_up m r = (if m.up then r else failed "connection refused", m)

abbrev pub or_missing {ℓ} : {A : Type ℓ} → Option A → Reply A
or_missing none = missing
or_missing (some a) = reply a

abbrev flag : Bool → ℤ
flag b = if b then pos 1 else pos 0

abbrev pub memory : Redis ℤ
memory = record {
  Db = Memory;
  tx_exec = exec;
  pipe_exec = exec;
  geo_search = λ k q m. if_up m (reply (m.sets k));
  zrem = λ k name m. (exec (z_rem k name ∷ []) m).1;
  zcard = λ k m. if_up m (reply (pos (length (m.sets k))));
  exists = λ k m. if_up m (reply (flag (m.hashes k)));
  get = λ k m. if_up m (or_missing (m.strings k));
  set = λ k s ttl m.
      if m.up then (none, record m { strings = update m.strings k (some s) }) else (down, m);
  publish = λ k s m. (if m.up then none else down, m);
}

run-strings :
    (c : Command ℤ) (j : String) (m : Memory) → key_of c ≢ j → (run c m).strings j ≡ m.strings j
run-strings (geo_add key name lng lat) j m h = refl
run-strings (h_set key region lat lng ts) j m h = refl
run-strings (expire key ttl) j m h = refl
run-strings (z_rem key name) j m h = refl
run-strings (del key) j m h = ground (arith, eq_iff key j)
run-strings (incr key) j m h = ground (arith, eq_iff key j)

run_all-strings :
    (cs : List (Command ℤ)) (j : String) (m : Memory)
    → All (λ c. key_of c ≢ j) cs
    → (run_all cs m).strings j ≡ m.strings j
run_all-strings [] j m h = refl
run_all-strings (c ∷ cs) j m h = run_all-strings cs j (run c m) h.1 ∙ run-strings c j m h.0

if_keeps {ℓ} :
    {A : Type ℓ} (view : Memory → A) (b : Bool) (x y : Option String × Memory) (a : A)
    → view x.1 ≡ a
    → view y.1 ≡ a
    → view (if b then x else y).1 ≡ a
if_keeps view true x y a h k = h
if_keeps view false x y a h k = k

exec-strings :
    (cs : List (Command ℤ)) (j : String) (m : Memory)
    → All (λ c. key_of c ≢ j) cs
    → (exec cs m).1.strings j ≡ m.strings j
exec-strings cs j m h =
    if_keeps (λ n. n.strings j) m.up (none, run_all cs m) (down, m) (m.strings j)
      (run_all-strings cs j m h) refl

set_or_not :
    (k s j : String) (ttl : ℕ) (m : Memory)
    → ((memory.set k s ttl m).1.strings j ≡ m.strings j)
      ⊎ ((k ≡ j) × ((memory.set k s ttl m).1.strings j ≡ some s))
set_or_not k s j ttl m = elim (Bool-cases m.up) [
  | inl on ↦ elim (Bool-cases (str_eq k j)) [
    | inl e ↦ inr ((eq_iff k j).0 e, ground arith)
    | inr e ↦ inl (ground arith)
  ]
  | inr off ↦ inl (ground arith)
]

get_reply : (k s : String) (m : Memory) → (memory.get k m).0 ≡ reply s → m.strings k ≡ some s
get_reply k s m h = ground arith

get_missing : (k : String) (m : Memory) → (memory.get k m).0 ≡ missing → m.strings k ≡ none
get_missing k m h = ground arith

set_ok :
    (k s j : String) (ttl : ℕ) (m : Memory)
    → (memory.set k s ttl m).0 ≡ none
    → (memory.set k s ttl m).1.strings j ≡ (if str_eq k j then some s else m.strings j)
set_ok k s j ttl m h = ground arith

zrem_text : (k name j : String) (m : Memory) → (memory.zrem k name m).strings j ≡ m.strings j
zrem_text k name j m = ground arith

unfoldable pub memory-IsStringStore : IsStringStore memory
unfolding get_reply get_missing set_ok set_or_not exec-strings zrem_text if_keeps run_all-strings
    run-strings
memory-IsStringStore = record {
  text = λ m k. m.strings k;
  get_reply = get_reply;
  get_missing = get_missing;
  get_text = λ k j m. refl;
  set_ok = set_ok;
  set_or_not = set_or_not;
  tx_text = exec-strings;
  pipe_text = exec-strings;
  search_text = λ k j q m. refl;
  zrem_text = zrem_text;
  zcard_text = λ k j m. refl;
  exists_text = λ k j m. refl;
  publish_text = λ k s j m. refl;
}

nil_of_length : (l : List (GeoLocation ℤ)) → length l ≡ 0 → l ≡ []
nil_of_length [] h = refl
nil_of_length (x ∷ l) h = absurd (omega arith)

run-size :
    (c : Command ℤ) (k : String) (m : Memory)
    → ¬ AddsTo k c
    → length (m.sets k) ≡ 0
    → length ((run c m).sets k) ≡ 0
run-size (geo_add key name lng lat) k m h e = ground (arith, eq_iff key k)
run-size (h_set key region lat lng ts) k m h e = e
run-size (expire key ttl) k m h e = e
run-size (z_rem key name) k m h e = elim (Bool-cases (str_eq key k)) [
  | inl hit ↦
      rw hit
        (ap (λ l. length (without name l)) (ap m.sets ((eq_iff key k).0 hit) ∙ nil_of_length _ e))
  | inr miss ↦ rw miss e
]
run-size (del key) k m h e = ground (arith, eq_iff key k)
run-size (incr key) k m h e = e

run_all-size :
    (cs : List (Command ℤ)) (k : String) (m : Memory)
    → All (λ c. ¬ AddsTo k c) cs
    → length (m.sets k) ≡ 0
    → length ((run_all cs m).sets k) ≡ 0
run_all-size [] k m h e = e
run_all-size (c ∷ cs) k m h e = run_all-size cs k (run c m) h.1 (run-size c k m h.0 e)

exec-size :
    (cs : List (Command ℤ)) (k : String) (m : Memory)
    → All (λ c. ¬ AddsTo k c) cs
    → length (m.sets k) ≡ 0
    → length ((exec cs m).1.sets k) ≡ 0
exec-size cs k m h e =
    if_keeps (λ n. length (n.sets k)) m.up (none, run_all cs m) (down, m) 0
      (run_all-size cs k m h e) e

search_empty :
    (k : String) (q : GeoQuery ℤ) (m : Memory) (locs : List (GeoLocation ℤ))
    → length (m.sets k) ≡ 0
    → (memory.geo_search k q m).0 ≡ reply locs
    → locs ≡ []
search_empty k q m locs e h = ground (arith, nil_of_length (m.sets k) e)

set_empty :
    (k s j : String) (ttl : ℕ) (m : Memory)
    → length (m.sets j) ≡ 0
    → length ((memory.set k s ttl m).1.sets j) ≡ 0
set_empty k s j ttl m e = ground arith

unfoldable pub memory-IsGeoStore : IsGeoStore memory
unfolding search_empty exec-size set_empty nil_of_length if_keeps run_all-size run-size
memory-IsGeoStore = record {
  size = λ m k. length (m.sets k);
  search_empty = search_empty;
  tx_empty = exec-size;
  pipe_empty = exec-size;
  search_keeps_empty = λ k j q m e. e;
  zrem_empty = λ k name j m e. exec-size (z_rem k name ∷ []) j m ((λ x. x), tt) e;
  zcard_empty = λ k j m e. e;
  exists_empty = λ k j m e. e;
  get_empty = λ k j m e. e;
  set_empty = set_empty;
  publish_empty = λ k s j m e. e;
}
