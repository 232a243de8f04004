-- ===== src/Infra/Laws.antt =====
-- What Redis documents of the commands that the services use, as laws about two views of the
-- database: the string at a key, and the members of the geo set at a key. A call that fails may
-- or may not have reached the server.
use taxi_app.Base.{
  ℕ, String, Option, none, some, List, [], ◌∷◌, ◌++◌, ◌≡◌, ◌≢◌, ◌⊎◌, All, if◌then◌else◌, str_eq,
  true,
}
use taxi_app.Base.Int.{ℤ, pos, ltb_ℤ}
use taxi_app.Models.{Trip, TripEvent}
use taxi_app.Infra.{
  Env, Kafka, Message, IsCodec, Redis, Command, geo_add, h_set, expire, z_rem, del, incr, reply,
  missing, GeoLocation, GeoQuery,
}

-- The key that a command is about.
abbrev pub key_of : {F : Type 0} → Command F → String
key_of (geo_add key name longitude latitude) = key
key_of (h_set key region lat lng ts) = key
key_of (expire key ttl) = key
key_of (z_rem key name) = key
key_of (del key) = key
key_of (incr key) = key

-- The command can put a member into a geo set.
abbrev pub AddsTo : {F : Type 0} → String → Command F → Type 0
AddsTo k (geo_add key name longitude latitude) = key ≡ k
AddsTo k _ = ⊥

-- The string at a key: GET, SET and the commands about other keys.
pub record IsStringStore {F : Type 0} (r : Redis F) : Type 0 where
  pub text : r.Db → String → Option String
  pub get_reply : (k s : String) (db : r.Db) → (r.get k db).0 ≡ reply s → text db k ≡ some s
  pub get_missing : (k : String) (db : r.Db) → (r.get k db).0 ≡ missing → text db k ≡ none
  pub get_text : (k j : String) (db : r.Db) → text (r.get k db).1 j ≡ text db j
  pub set_ok :
      (k s j : String) (ttl : ℕ) (db : r.Db)
      → (r.set k s ttl db).0 ≡ none
      → text (r.set k s ttl db).1 j ≡ (if str_eq k j then some s else text db j)
  pub set_or_not :
      (k s j : String) (ttl : ℕ) (db : r.Db)
      → (text (r.set k s ttl db).1 j ≡ text db j)
        ⊎ ((k ≡ j) × (text (r.set k s ttl db).1 j ≡ some s))
  pub tx_text :
      (cs : List (Command F)) (j : String) (db : r.Db)
      → All (λ c. key_of c ≢ j) cs
      → text (r.tx_exec cs db).1 j ≡ text db j
  pub pipe_text :
      (cs : List (Command F)) (j : String) (db : r.Db)
      → All (λ c. key_of c ≢ j) cs
      → text (r.pipe_exec cs db).1 j ≡ text db j
  pub search_text :
      (k j : String) (q : GeoQuery F) (db : r.Db) → text (r.geo_search k q db).1 j ≡ text db j
  pub zrem_text : (k name j : String) (db : r.Db) → text (r.zrem k name db) j ≡ text db j
  pub zcard_text : (k j : String) (db : r.Db) → text (r.zcard k db).1 j ≡ text db j
  pub exists_text : (k j : String) (db : r.Db) → text (r.exists k db).1 j ≡ text db j
  pub publish_text : (k s j : String) (db : r.Db) → text (r.publish k s db).1 j ≡ text db j

-- The members of the geo set at a key: a set that is empty stays so unless a GEOADD names it, and a
-- search returns members only.
pub record IsGeoStore {F : Type 0} (r : Redis F) : Type 0 where
  pub size : r.Db → String → ℕ
  pub search_empty :
      (k : String) (q : GeoQuery F) (db : r.Db) (locs : List (GeoLocation F))
      → size db k ≡ 0
      → (r.geo_search k q db).0 ≡ reply locs
      → locs ≡ []
  pub tx_empty :
      (cs : List (Command F)) (k : String) (db : r.Db)
      → All (λ c. ¬ AddsTo k c) cs
      → size db k ≡ 0
      → size (r.tx_exec cs db).1 k ≡ 0
  pub pipe_empty :
      (cs : List (Command F)) (k : String) (db : r.Db)
      → All (λ c. ¬ AddsTo k c) cs
      → size db k ≡ 0
      → size (r.pipe_exec cs db).1 k ≡ 0
  pub search_keeps_empty :
      (k j : String) (q : GeoQuery F) (db : r.Db)
      → size db j ≡ 0
      → size (r.geo_search k q db).1 j ≡ 0
  pub zrem_empty : (k name j : String) (db : r.Db) → size db j ≡ 0 → size (r.zrem k name db) j ≡ 0
  pub zcard_empty : (k j : String) (db : r.Db) → size db j ≡ 0 → size (r.zcard k db).1 j ≡ 0
  pub exists_empty : (k j : String) (db : r.Db) → size db j ≡ 0 → size (r.exists k db).1 j ≡ 0
  pub get_empty : (k j : String) (db : r.Db) → size db j ≡ 0 → size (r.get k db).1 j ≡ 0
  pub set_empty :
      (k s j : String) (ttl : ℕ) (db : r.Db) → size db j ≡ 0 → size (r.set k s ttl db).1 j ≡ 0
  pub publish_empty : (k s j : String) (db : r.Db) → size db j ≡ 0 → size (r.publish k s db).1 j ≡ 0

-- The messages of a topic, in the order in which they were acknowledged; a write that succeeds
-- appends one.
pub record IsLog (k : Kafka) : Type 0 where
  pub log : k.Broker → String → List Message
  pub appended :
      (topic other : String) (m : Message) (b : k.Broker)
      → (k.write_messages topic m b).0 ≡ none
      → log (k.write_messages topic m b).1 other
        ≡ (if str_eq topic other then log b other ++ (m ∷ []) else log b other)

-- A new uuid was not given out before.
pub record IsFresh {F : Type 0} (env : Env F) : Type 1 where
  pub Used : env.Ids → String → Type 0
  pub unused : (ids : env.Ids) → ¬ Used ids (env.new_string ids).0
  pub given : (ids : env.Ids) → Used (env.new_string ids).1 (env.new_string ids).0
  pub kept : (ids : env.Ids) (s : String) → Used ids s → Used (env.new_string ids).1 s

-- No SET and no write to Kafka fails.
pub record IsUp {F : Type 0} (env : Env F) : Type 0 where
  pub sets : (k s : String) (ttl : ℕ) (db : env.redis.Db) → (env.redis.set k s ttl db).0 ≡ none
  pub writes :
      (topic : String) (m : Message) (b : env.kafka.Broker)
      → (env.kafka.write_messages topic m b).0 ≡ none

-- The JSON of events: the empty text is none, and only the number in a record can stop it from being
-- written, so that an event is written where a trip with its surge is.
pub record IsEventCodec {F : Type 0} (env : Env F) : Type 0 where
  pub codec : IsCodec env.event_json
  pub nothing : env.event_json.unmarshal "" ≡ none
  pub marshals :
      (t : Trip F) (e : TripEvent F) (s : String)
      → env.trip_json.marshal t ≡ some s
      → e.surge ≡ t.surge
      → (b : String) × (env.event_json.marshal e ≡ some b)

-- Which keys exist, and which members the geo sets have. EXISTS counts keys that do, a search returns
-- members, and reads and ZREM bring nothing back; keys may expire at any time.
pub record IsPresence {F : Type 0} (r : Redis F) : Type 1 where
  pub Alive : r.Db → String → Type 0
  pub Member : r.Db → String → String → Type 0
  pub exists_alive :
      (k : String) (n : ℤ) (db : r.Db)
      → (r.exists k db).0 ≡ reply n
      → ltb_ℤ (pos 0) n ≡ true
      → Alive db k
  pub search_member :
      (k : String) (q : GeoQuery F) (db : r.Db) (locs : List (GeoLocation F))
      → (r.geo_search k q db).0 ≡ reply locs
      → All (λ l. Member db k l.name) locs
  pub search_alive :
      (k j : String) (q : GeoQuery F) (db : r.Db) → Alive (r.geo_search k q db).1 j → Alive db j
  pub search_keeps :
      (k j name : String) (q : GeoQuery F) (db : r.Db)
      → Member (r.geo_search k q db).1 j name
      → Member db j name
  pub exists_keeps :
      (k j name : String) (db : r.Db) → Member (r.exists k db).1 j name → Member db j name
  pub exists_revives_none : (k j : String) (db : r.Db) → Alive (r.exists k db).1 j → Alive db j
  pub zrem_keeps :
      (k n j name : String) (db : r.Db) → Member (r.zrem k n db) j name → Member db j name
  pub zrem_revives_none : (k n j : String) (db : r.Db) → Alive (r.zrem k n db) j → Alive db j
