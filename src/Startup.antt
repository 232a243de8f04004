-- ===== src/Startup.antt =====
-- What the services do before they serve: internal/redisx/redisx.go, internal/db/db.go, and the
-- port of a broker in internal/kafkax/kafkax.go. What a server answers to each attempt is an input,
-- a function of the attempt's number.
pub mod Retries
pub mod Ports
pub mod Topics
use taxi_app.Base.{
  ℕ, zero, suc, ◌+◌, ◌-◌, ◌/◌, ◌%◌, ◌==◌, String, Bool, true, false, Option, none, some, List, [],
  ◌∷◌, ◌++◌, if◌then◌else◌,
}
use taxi_app.Base.Int.{ℤ, pos, negsuc}

-- The options of a client of go-redis, durations in seconds.
pub record Options : Type 0 where
  pub addr : String
  pub pool_size : ℕ
  pub min_idle_conns : ℕ
  pub read_timeout : ℕ
  pub write_timeout : ℕ

-- `New` of redisx
unfoldable pub new_client : String → Options
new_client addr = record {
  addr = addr;
  pool_size = 50;
  min_idle_conns = 5;
  read_timeout = 2;
  write_timeout = 2;
}

abbrev pub attempts : ℕ
attempts = 30

-- The loop of `Ping` with the rounds that are left, the round's number and the last error. The
-- result is the error, and the seconds slept.
unfoldable pub ping_loop : (ℕ → Option String) → ℕ → ℕ → Option String → Option String × ℕ
ping_loop answer zero i last = (last, i)
ping_loop answer (suc n) i last = elim (answer i) [
  | none ↦ (none, i)
  | some e ↦ ping_loop answer n (suc i) (some e)
]

-- `Ping` of redisx
unfoldable pub ping : (ℕ → Option String) → Option String × ℕ
ping answer = ping_loop answer attempts 0 none

-- What `Connect` returns, with the number of pools that it has left open.
pub record Connected : Type 0 where
  pub pool : Bool
  pub error : Option String
  pub open_pools : ℕ

-- `pool.Close()` on a pool that does not answer.
abbrev close : ℕ → ℕ
close n = n - 1

-- The loop of `Connect`: `create` is the error of `pgxpool.New`, `answer` that of `pool.Ping`.
unfoldable pub connect_loop :
    (create answer : ℕ → Option String) → ℕ → ℕ → Option String → ℕ → Connected
connect_loop create answer zero i last n = record { pool = false; error = last; open_pools = n }
connect_loop create answer (suc rounds) i last n = elim (create i) [
  | some e ↦ connect_loop create answer rounds (suc i) (some e) n
  | none ↦ elim (answer i) [
    | none ↦ record { pool = true; error = none; open_pools = suc n }
    | some e ↦ connect_loop create answer rounds (suc i) (some e) (close (suc n))
  ]
]

-- `Connect`
unfoldable pub connect : (create answer : ℕ → Option String) → Connected
connect create answer = connect_loop create answer attempts 0 none 0

-- The buffer of `itoa` is its bytes from `pos` on, and `pos` is the room that is left before them;
-- `none` is the panic of an index below 0. Each round takes one place, so the room bounds the loop.
unfoldable pub fill : (room : ℕ) → ℕ → List ℕ → Option (List ℕ)
fill zero i b = if i == 0 then some b else none
fill (suc room) i b =
    let rest = fill room (i / 10) ((48 + i % 10) % 256 ∷ b) in if i == 0 then some b else rest

-- `itoa`, as bytes: a negative number never enters the loop.
unfoldable pub itoa : ℤ → Option (List ℕ)
itoa (negsuc n) = some []
itoa (pos n) = if n == 0 then some (48 ∷ []) else fill 20 n []

-- `net`
unfoldable pub net : List ℕ → ℤ → Option (List ℕ)
net host port = elim (itoa port) [ none ↦ none | some s ↦ some (host ++ (58 ∷ s)) ]

-- What `CreateTopics` answers.
pub data Creation : Type 0 where
  created : Creation
  exists : Creation
  refused : String → Creation

-- What Kafka answers to the calls of one `EnsureTopic`, `none` where there is no error.
pub record TopicAnswers : Type 0 where
  pub dial : ℕ → Option String
  pub controller : Option String
  pub dial_controller : Option String
  pub create : Creation

-- The loop of `EnsureTopic` breaks where that of `Ping` returns.
dial_broker : (ℕ → Option String) → Option String
dial_broker answer = (ping_loop answer attempts 0 none).0

creation_error : Creation → Option String
creation_error created = none
creation_error exists = none
creation_error (refused e) = some e

-- A deferred `Close`, with the number of connections that are open.
close_after : Option String × ℕ → Option String × ℕ
close_after (e, n) = (e, close n)

create_topic : TopicAnswers → ℕ → Option String × ℕ
unfolding creation_error close_after
create_topic a n = elim a.controller [
  | some e ↦ (some e, n)
  | none ↦ elim a.dial_controller [
    | some e ↦ (some e, n)
    | none ↦ close_after (creation_error a.create, suc n)
  ]
]

-- `EnsureTopic`: its error, and the connections that it leaves open.
unfoldable pub ensure_topic : TopicAnswers → Option String × ℕ
unfolding dial_broker create_topic
ensure_topic a = elim (dial_broker a.dial) [
  | some e ↦ (some e, 0)
  | none ↦ close_after (create_topic a 1)
]
