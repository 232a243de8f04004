-- ===== src/Kafkax.antt =====
-- internal/kafkax/kafkax.go, `NewWriter` and `NewReader`, as the configurations that they hand to
-- kafka-go, and the readers and writers that the services make. Durations are in milliseconds.
pub mod Order
use taxi_app.Base.{ℕ, ◌*◌, ◌^◌, String, Bool, false, List}
use taxi_app.Config.{Config}

-- `kafka.Hash`, and the balancer of a writer that is given none.
pub data Balancer : Type 0 where
  hash : Balancer
  round_robin : Balancer

pub data RequiredAcks : Type 0 where
  require_none : RequiredAcks
  require_one : RequiredAcks
  require_all : RequiredAcks

pub record Writer : Type 0 where
  pub addr : List String
  pub topic : String
  pub balancer : Balancer
  pub batch_timeout : ℕ
  pub async : Bool
  pub required_acks : RequiredAcks

-- `NewWriter`
unfoldable pub new_writer : List String → String → Writer
new_writer brokers topic = record {
  addr = brokers;
  topic = topic;
  balancer = hash;
  batch_timeout = 10;
  async = false;
  required_acks = require_one;
}

pub record Reader : Type 0 where
  pub brokers : List String
  pub topic : String
  pub group_id : String
  pub min_bytes : ℕ
  pub max_bytes : ℕ
  pub commit_interval : ℕ

-- `NewReader`
unfoldable pub new_reader : List String → String → String → Reader
new_reader brokers topic group = record {
  brokers = brokers;
  topic = topic;
  group_id = group;
  min_bytes = 1;
  max_bytes = 10 * 2 ^ 20;
  commit_interval = 1_000;
}

-- `locWr` and `tripWr` of cmd/api
unfoldable pub loc_wr : Config → Writer
unfolding new_writer
loc_wr cfg = new_writer cfg.kafka_brokers cfg.location_topic

unfoldable pub trip_wr : Config → Writer
unfolding new_writer
trip_wr cfg = new_writer cfg.kafka_brokers cfg.trip_topic

-- `reader` of cmd/locationworker, and of cmd/tripworker
unfoldable pub location_reader : Config → Reader
unfolding new_reader
location_reader cfg = new_reader cfg.kafka_brokers cfg.location_topic "location-indexer"

unfoldable pub trip_reader : Config → Reader
unfolding new_reader
trip_reader cfg = new_reader cfg.kafka_brokers cfg.trip_topic "trip-persister"
