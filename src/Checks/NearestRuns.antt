-- ===== src/Checks/NearestRuns.antt =====
-- Three drivers near a rider in Lagos; the closest has not reported for a while.
use taxi_app.Base.{
  String, true, not, none, List, All, take, [], ◌∷◌, ◌≡◌, ◌≢◌, refl, arith, if◌then◌else◌, str_eq,
  eq_iff,
}
use taxi_app.Base.Int.{ℤ, pos, add_ℤ}
use taxi_app.Float64.Fixed.{fixed, Fixed-IsComparable}
use taxi_app.Models.{Candidate}
use taxi_app.Region
use taxi_app.Infra.{GeoLocation}
use taxi_app.Infra.Evictions.{IsEvicting}
use taxi_app.Geo.{ok, nearest, query, geo_key, driver_key, candidate, search_all, keep_fresh, fresh}
use mathlib.Core.List.{Perm}
use taxi_app.Geo.Present.{present, live_only}
use taxi_app.Geo.Reference.{in_both, Ascending, nearest-reference}
use taxi_app.Match.Closest.{Measured}
use taxi_app.Checks.Sorting.{insertion_sort-IsSort, insertion_sort-IsPermuting}
use taxi_app.Checks.Memory.{Memory}
use taxi_app.Checks.AgainRuns.{answering, answering-IsAnswering}

zrem-sets :
    (k name j : String) (m : Memory) → k ≢ j → (answering.redis.zrem k name m).sets j ≡ m.sets j
zrem-sets k name j m h = ground (arith, eq_iff k j)

zrem-hashes :
    (k name j : String) (m : Memory) → (answering.redis.zrem k name m).hashes j ≡ m.hashes j
zrem-hashes k name j m = ground arith

answering-IsEvicting : IsEvicting answering.redis answering-IsAnswering
unfolding answering-IsAnswering
answering-IsEvicting = record {
  zrem_alive = zrem-hashes;
  zrem_found = λ k name j q m h. zrem-sets k name j m h;
}

abbrev placed : String → ℤ → GeoLocation ℤ
placed name dist = record {
  name = name;
  longitude = pos 3_379_200_000;
  latitude = pos 6_524_400_000;
  dist = dist;
}

abbrev seen_at : String → ℤ → Candidate ℤ
seen_at name dist = record {
  driver_id = name;
  lat = pos 6_524_400_000;
  lng = pos 3_379_200_000;
  distance_km = dist;
}

abbrev streets : Memory
streets = record {
  up = true;
  strings = λ k. none;
  sets = λ k.
      if str_eq k "geo:drivers:s14m"
      then placed "d1" (pos 3_000_000_000)
        ∷ placed "d2" (pos 1_000_000_000)
        ∷ placed "d3" (pos 2_000_000_000)
        ∷ []
      else [];
  hashes = λ k. not (str_eq k "driver:d2");
}

present_there :
    present answering answering-IsAnswering answering-IsEvicting streets
      (query (pos 6_524_400_000) (pos 3_379_200_000) (pos 5_000_000_000) 10)
      "s14m"
    ≡ seen_at "d1" (pos 3_000_000_000) ∷ seen_at "d3" (pos 2_000_000_000) ∷ []
unfolding present live_only answering-IsAnswering geo_key driver_key candidate
present_there = refl

found-Measured : All (Measured answering Fixed-IsComparable insertion_sort-IsSort) (
    in_both answering answering-IsAnswering answering-IsEvicting Fixed-IsComparable
      insertion_sort-IsSort insertion_sort-IsPermuting
      (pos 6_524_400_000)
      (pos 3_379_200_000)
      (pos 5_000_000_000)
      1
      streets)
unfolding present live_only answering-IsAnswering geo_key driver_key Region.key Region.geohash add_ℤ
found-Measured = (refl, (refl, tt))

-- One of the two who are there is asked for.
nearest-reference_example :
    (sorted : List (Candidate ℤ)) × Perm sorted
      (seen_at "d1" (pos 3_000_000_000) ∷ seen_at "d3" (pos 2_000_000_000) ∷ [])
    × Ascending sorted
    × ((nearest answering (pos 6_524_400_000) (pos 3_379_200_000) (pos 5_000_000_000) 1 streets).0
        ≡ ok (take 1 sorted))
unfolding present live_only answering-IsAnswering geo_key driver_key Region.key Region.geohash add_ℤ
nearest-reference_example =
    nearest-reference answering answering-IsAnswering answering-IsEvicting Fixed-IsComparable
      insertion_sort-IsSort insertion_sort-IsPermuting (pos 6_524_400_000) (pos 3_379_200_000)
      (pos 5_000_000_000) 1 streets found-Measured

closest_there :
    (nearest answering (pos 6_524_400_000) (pos 3_379_200_000) (pos 5_000_000_000) 1 streets).0
    ≡ ok (seen_at "d3" (pos 2_000_000_000) ∷ [])
unfolding nearest search_all keep_fresh fresh Region.neighbors geo_key driver_key add_ℤ candidate
closest_there = refl
