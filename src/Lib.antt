-- ===== src/Lib.antt =====
-- A model of the ride-hailing services of this repository, and what is proved of it.
--
-- The program. Drivers ping their position to the HTTP front door (cmd/api), which puts it on a
-- Kafka topic under the geohash of its region. The location worker (cmd/locationworker) consumes the
-- topic and indexes each driver in a Redis geo set per region. A ride request counts demand, prices
-- the ride (internal/surge), picks the nearest driver from the geo sets (internal/geo,
-- internal/match), caches the trip in Redis (internal/trip) and sends each change of its state to a
-- second topic. The trip worker (cmd/tripworker) consumes that one, projects the events into Postgres
-- and tells rider and driver over Redis channels (internal/pubsub).
--
-- The files.
-- - Models: the types of internal/models/models.go, field by field. A trip's state is a string.
-- - Float64: Go's float64 is a parameter `F` with its operations; IEEE facts are hypotheses of the
--   theorems that use them. Float64/Fixed is a fixed-point instance with nine decimals.
-- - Infra: Redis, Kafka, clock, uuid, JSON and sort.Slice as parameters, a record each. Infra/Laws
--   and the modules beside it state the documented behaviour that theorems rely on.
-- - Region: internal/region/region.go. `Geohash` is `geohash`, its loop `loop` on an `Encoder` of the
--   local variables, with `enough` rounds of fuel: five halvings for a character, after which the
--   text has its length. `Key` is `key`, `Neighbors` is `neighbors`. Region/Encode describes the loop
--   letter by letter, Region/Cell decodes, Region/Shards is about lengths and prefixes.
-- - Geo: internal/geo/geo.go (`Upsert`, `Remove`, `Nearest`, `Supply`, `fresh`). Geo/Shards is about
--   the geo sets that are written, Geo/Members about their members, Geo/Presence about the drivers that
--   are returned, Geo/Steady about searches while the index stays as it is, Geo/Present about
--   what the searches find, Geo/Reference about what `Nearest` answers.
-- - Match: internal/match/match.go (`Best`); Match/Closest is about the choice.
-- - Surge: internal/surge/surge.go (`factor`, `RecordDemand`, `Multiplier`); Surge/Curve, and
--   Surge/Demand about recorded requests.
-- - Trip: internal/trip/trip.go. `CanTransition` is in Trip, with Trip/Lifecycle about it; the cache is
--   Trip/Cache; the Postgres store is Trip/Store, whose two SQL statements are functions on tables,
--   with Trip/Store/Projection about sequences of `Apply`.
-- - Api: cmd/api/main.go, the handlers as functions from a `World` (Redis, Kafka, clock, ids and the
--   items in the ingest semaphore) to a response and a world. Api/Frame, Api/Stored, Api/Transitions
--   and Api/Refusals are about them, Api/Drivers and Api/Unreserved about rides and the index.
-- - TripWorker: cmd/tripworker/main.go and internal/pubsub/pubsub.go, with TripWorker/Durable and
--   TripWorker/Notices; TripWorker/Restarts has `main` from its start to its end, as often as it runs.
-- - LocationWorker: cmd/locationworker/main.go, with LocationWorker/Index; LocationWorker/Life has its
--   `main`. A consumer's loop is a fold over what its reads return, up to the one that its context ends.
-- - Http: internal/httpx/httpx.go. Api/Server: the routes of cmd/api/main.go behind it, with
--   Api/Server/Browsers about every request. Api/Interleaved: requests at the same time as a step
--   relation, with Api/Interleaved/Semaphore and Api/Interleaved/Safety; Api/Race is about two moves of
--   one trip. Api/Shutdown: the end of `main` as a step relation, with Api/Shutdown/Closing and
--   Api/Shutdown/Ending.
-- - Pipeline: front door, Kafka and trip worker together. `InStep` of Pipeline/Logged says that the
--   trip topic tells of each cached trip what the cache holds; Pipeline/Moved and Pipeline/Served
--   are about requests, and Pipeline/Delivered about the worker that reads the topic. The other topic:
--   Pipeline/Positions is about the location worker, Pipeline/Unpinged and Pipeline/Pinged about
--   requests, and Pipeline/Indexed puts them together; Pipeline/Matched adds the search of a rider.
-- - Gateway: cmd/gateway/main.go, a socket as a step relation, with Gateway/Delivery;
--   Gateway/Routes has its routes.
-- - Kafkax: `NewWriter` and `NewReader` of internal/kafkax/kafkax.go, with Kafkax/Order about the order
--   of messages. Apps: apps/rider/main.go and apps/driver/main.go.
-- - Config: internal/config/config.go, with Config/Split and Config/Brokers. Boot: each service's `main`
--   up to where it serves, with Boot/Brokers.
-- - Startup: `Ping` and `New` of internal/redisx/redisx.go, `Connect` of internal/db/db.go, and
--   `EnsureTopic` and `itoa` of internal/kafkax/kafkax.go, the 20 bytes of the buffer being the fuel of
--   `itoa`; Startup/Retries, Startup/Topics and Startup/Ports.
-- - Base: shared helpers. Checks: tests, the repository's own among them, and the theorems applied to
--   an in-memory Redis and Kafka.
--
-- Every call of a server may fail, and a call that fails may have taken place. In the step relation of
-- Api/Interleaved a location request and a transition are two steps each, and a ride, which makes
-- several calls, is one. Keys expire only in the parameters. An `int64` is unbounded: counters stay far
-- below 2^63. A path comes to the routes cleaned and split, with an empty last segment after a slash
-- at its end. What kafka-go documents of closing a writer and of a reader without brokers is part of
-- Api/Shutdown and Boot.
--
-- Not modelled: what the services log apart from `Logging`, the pages under apps and the clients under
-- mobile, which are in other languages, and the scripts that simulate load.
pub mod Base
pub mod Float64
pub mod Config
pub mod Models
pub mod Infra
pub mod Region
pub mod Geo
pub mod Match
pub mod Surge
pub mod Trip
pub mod Http
pub mod Kafkax
pub mod Api
pub mod TripWorker
pub mod LocationWorker
pub mod Gateway
pub mod Apps
pub mod Startup
pub mod Boot
pub mod Pipeline
mod Checks
