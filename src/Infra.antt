-- ===== src/Infra.antt =====
-- What the services use and do not implement, as parameters: a Redis server behind go-redis, a
-- Kafka cluster behind kafka-go, the clock, uuid, the JSON codecs and `sort.Slice`. Each operation
-- takes the state of the other side and returns it. What the theorems rely on are the records of
-- laws in the children.
pub mod Laws
pub mod Sorting
pub mod Keys
pub mod Members
pub mod Answers
pub mod Evictions
pub mod Counters
use taxi_app.Base.{ℕ, String, Bool, Option, some, List, ◌≡◌, ◌⊎◌, inl, inr, refl}
use taxi_app.Base.Int.{ℤ}
use taxi_app.Models.{Trip, TripEvent, Candidate, LocationUpdate, Notification}

-- The commands that the services queue in a pipeline. A duration is in seconds.
pub data Command (F : Type 0) : Type 0 where
  geo_add : (key name : String) (longitude latitude : F) → Command F
  h_set : (key region : String) (lat lng : F) (ts : ℤ) → Command F
  expire : (key : String) (ttl : ℕ) → Command F
  z_rem : (key name : String) → Command F
  del : (key : String) → Command F
  incr : (key : String) → Command F

-- An answer, the `redis.Nil` of a missing key, or another error.
pub data Reply {ℓ} (A : Type ℓ) : Type ℓ where
  reply : A → Reply A
  missing : Reply A
  failed : String → Reply A

pub Reply-cases {ℓ} :
    {A : Type ℓ} (r : Reply A)
    → ((a : A) × (r ≡ reply a)) ⊎ ((r ≡ missing) ⊎ ((e : String) × (r ≡ failed e)))
Reply-cases (reply a) = inl (a, refl)
Reply-cases missing = inr (inl refl)
Reply-cases (failed e) = inr (inr (e, refl))

pub record GeoLocation (F : Type 0) : Type 0 where
  pub name : String
  pub longitude : F
  pub latitude : F
  pub dist : F

-- Sorted ascending, with coordinates and distances, the radius in kilometres.
pub record GeoQuery (F : Type 0) : Type 0 where
  pub longitude : F
  pub latitude : F
  pub radius : F
  pub count : ℕ

pub record Redis (F : Type 0) : Type 1 where
  pub Db : Type 0
  pub tx_exec : List (Command F) → Db → Option String × Db
  pub pipe_exec : List (Command F) → Db → Option String × Db
  pub geo_search : String → GeoQuery F → Db → Reply (List (GeoLocation F)) × Db
  pub zrem : String → String → Db → Db
  pub zcard : String → Db → Reply ℤ × Db
  pub exists : String → Db → Reply ℤ × Db
  pub get : String → Db → Reply String × Db
  pub set : String → String → ℕ → Db → Option String × Db
  pub publish : String → String → Db → Option String × Db

pub record Message : Type 0 where
  pub key : String
  pub value : String

pub record Kafka : Type 1 where
  pub Broker : Type 0
  pub write_messages : String → Message → Broker → Option String × Broker

-- `json.Marshal` and `json.Unmarshal` at one type; `none` is an error.
pub record Codec (A : Type 0) : Type 0 where
  pub marshal : A → Option String
  pub unmarshal : String → Option A

-- What is read back is what was written.
pub record IsCodec {A : Type 0} (c : Codec A) : Type 0 where
  pub unmarshal-marshal : (a : A) (s : String) → c.marshal a ≡ some s → c.unmarshal s ≡ some a

-- What a process has around it.
pub record Env (F : Type 0) : Type 1 where
  pub redis : Redis F
  pub kafka : Kafka
  pub Clock : Type 0
  pub now : Clock → ℕ × Clock
  pub Ids : Type 0
  pub new_string : Ids → String × Ids
  pub trip_json : Codec (Trip F)
  pub event_json : Codec (TripEvent F)
  pub location_json : Codec (LocationUpdate F)
  pub notification_json : Codec Notification
  pub sort_slice : (Candidate F → Candidate F → Bool) → List (Candidate F) → List (Candidate F)
  -- The number that `strconv.ParseInt` returns, beside its error.
  pub parse_int : String → ℤ
