-- ===== src/Api/Shutdown.antt =====
-- cmd/api/main.go, the end of `main`: the signal, `srv.Shutdown` with its five seconds, and the deferred
-- calls, as the steps that `main`, the requests and the clock take in any order.
pub mod Closing
pub mod Ending
use taxi_app.Base.{
  ℕ, suc, ◌+◌, ◌≤◌, ◌<◌, Bool, true, false, ◌||◌, ◌==◌, Option, none, some, ◌≡◌, if◌then◌else◌,
}

-- Where `main` is: at `<-stop`, in `Shutdown`, after it, in `tripWr.Close`, in `locWr.Close`, and
-- after them; or the process has ended by `log.Fatalf`, since `ListenAndServe` failed.
pub data Phase : Type 0 where
  waiting : Phase
  draining : Phase
  drained : Phase
  closing_trip : Phase
  closing_loc : Phase
  ended : Phase
  failed : Phase

-- `active` counts the requests under way, `trip_writes` and `loc_writes` the calls of `WriteMessages`
-- under way among them, and `expired` says that the context `shutdown` has.
pub record Server : Type 0 where
  pub phase : Phase
  pub listening : Bool
  pub signalled : Bool
  pub expired : Bool
  pub active : ℕ
  pub trip_open : Bool
  pub loc_open : Bool
  pub trip_writes : ℕ
  pub loc_writes : ℕ

abbrev pub started : Server
started = record {
  phase = waiting;
  listening = true;
  signalled = false;
  expired = false;
  active = 0;
  trip_open = true;
  loc_open = true;
  trip_writes = 0;
  loc_writes = 0;
}

-- What `main` does next, `none` where it waits or has ended. `Shutdown` closes the listener first, and
-- returns once no request is under way or its context expires. The `Close` of a writer first makes
-- later calls of `WriteMessages` fail, and returns once those under way have; `tripWr` comes first.
unfoldable pub main_next : Phase → Server → Option Server
main_next waiting s =
    if s.signalled then some (record s { phase = draining; listening = false }) else none
main_next draining s =
    if s.active == 0 || s.expired then some (record s { phase = drained }) else none
main_next drained s = some (record s { phase = closing_trip; trip_open = false })
main_next closing_trip s =
    if s.trip_writes == 0 then some (record s { phase = closing_loc; loc_open = false }) else none
main_next closing_loc s = if s.loc_writes == 0 then some (record s { phase = ended }) else none
main_next ended s = none
main_next failed s = none

-- A call of `WriteMessages` returns, with an error or without.
pub data Returns (s t : Server) : Type 0 where
  trip_returns : (n : ℕ) → s.trip_writes ≡ suc n → t ≡ record s { trip_writes = n } → Returns s t
  loc_returns : (n : ℕ) → s.loc_writes ≡ suc n → t ≡ record s { loc_writes = n } → Returns s t

pub data Step (s t : Server) : Type 0 where
  main : main_next s.phase s ≡ some t → Step s t
  signal : t ≡ record s { signalled = true } → Step s t
  -- The five seconds, which start with the call.
  expire : s.phase ≡ draining → t ≡ record s { expired = true } → Step s t
  -- A request comes, and one that does not write is answered.
  accept : s.listening ≡ true → t ≡ record s { active = suc s.active } → Step s t
  answer :
      (n : ℕ)
      → s.active ≡ suc n
      → s.trip_writes + s.loc_writes ≤ n
      → t ≡ record s { active = n }
      → Step s t
  -- A request writes to one of the writers, which is not closed.
  write_trip :
      s.trip_open ≡ true
      → s.trip_writes + s.loc_writes < s.active
      → t ≡ record s { trip_writes = suc s.trip_writes }
      → Step s t
  write_loc :
      s.loc_open ≡ true
      → s.trip_writes + s.loc_writes < s.active
      → t ≡ record s { loc_writes = suc s.loc_writes }
      → Step s t
  returns : Returns s t → Step s t
  -- `ListenAndServe` returns another error than `ErrServerClosed`; deferred calls do not run.
  fail :
      s.listening ≡ true
      → t ≡ record s {
        phase = failed;
        listening = false;
        active = 0;
        trip_writes = 0;
        loc_writes = 0;
      }
      → Step s t

pub data Reach : Server → Type 0 where
  start : Reach started
  later : {s t : Server} → Reach s → Step s t → Reach t

-- Steps of `main`, and returns of the writes under way.
pub data Runs (s : Server) : Server → Type 0 where
  here : Runs s s
  next : {t u : Server} → Runs s t → main_next t.phase t ≡ some u → Runs s u
  wait : {t u : Server} → Runs s t → Returns t u → Runs s u
