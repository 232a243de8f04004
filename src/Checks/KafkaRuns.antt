-- ===== src/Checks/KafkaRuns.antt =====
-- Three messages under two keys, which a consumer receives in another order; and the configurations.
use taxi_app.Base.{ℕ, ◌%◌, String, len, List, [], ◌∷◌, ◌≡◌, refl, arith}
use taxi_app.Config.{Config}
use taxi_app.Infra.{Message}
use taxi_app.Infra.Keys.{of_key}
use taxi_app.Kafkax.{hash, round_robin, new_writer, loc_wr, trip_wr, location_reader, trip_reader}
use taxi_app.Kafkax.Order.{Placing, IsHashing, of_partition, written, messages, keys_in_order}

abbrev placing : Placing
placing hash i k = len k % 3
placing round_robin i k = i % 3

placing-IsHashing : IsHashing placing
placing-IsHashing = record { hash_by_key = λ i k. refl }

abbrev message : String → String → Message
message k v = record { key = k; value = v }

abbrev given : List Message
given = message "s14m" "1" ∷ message "s14mk" "2" ∷ message "s14m" "3" ∷ []

abbrev received : List (ℕ × Message)
received = (2, message "s14mk" "2") ∷ (1, message "s14m" "1") ∷ (1, message "s14m" "3") ∷ []

each_partition :
    (p : ℕ)
    → of_partition p received
      ≡ of_partition p
          (written placing (new_writer ("localhost:9092" ∷ []) "driver-locations") 0 given)
unfolding of_partition written new_writer
each_partition p = ground arith

keys_in_order_example : of_key "s14m" (messages received) ≡ of_key "s14m" given
keys_in_order_example =
    keys_in_order placing placing-IsHashing ("localhost:9092" ∷ []) "driver-locations" received
      given each_partition "s14m"

-- A balancer that goes round would not keep them together.
goes_round :
    of_partition 1 (
      written placing
        (record (new_writer [] "driver-locations") { balancer = round_robin })
        0
        given)
    ≡ message "s14mk" "2" ∷ []
unfolding of_partition written new_writer
goes_round = refl

-- Each worker reads what the front door writes, in a group of its own.
same_topics :
    (cfg : Config)
    → ((loc_wr cfg).topic ≡ (location_reader cfg).topic)
      × ((trip_wr cfg).topic ≡ (trip_reader cfg).topic)
unfolding loc_wr trip_wr location_reader trip_reader
same_topics cfg = (refl, refl)
