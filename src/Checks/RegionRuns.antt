-- ===== src/Checks/RegionRuns.antt =====
-- internal/region/region_test.go, and the theorems about the geohash at Lagos.
use Prim.Native.String
use taxi_app.Base.{String, len, ◌≡◌, refl, some, [], ◌∷◌}
use taxi_app.Base.Int.{ℤ, pos, negsuc, add_ℤ}
use taxi_app.Float64.Fixed.{fixed, Fixed-IsBisectable}
use taxi_app.Region.{geohash_run, geohash, key, neighbors}
use taxi_app.Region.Encode.{Cursor, letters, begin, geohash_run_total}
use taxi_app.Region.Shards.{neighbors_prefix}
use taxi_app.Region.Cell.{decode, InSpan, decode-geohash}

abbrev lagos_lat : ℤ
lagos_lat = pos 6_524_400_000

abbrev lagos_lng : ℤ
lagos_lng = pos 3_379_200_000

abbrev nairobi_lat : ℤ
nairobi_lat = negsuc 1_292_099_999

abbrev nairobi_lng : ℤ
nairobi_lng = pos 36_821_900_000

shards_by_city : (key lagos_lat lagos_lng ≡ "s14m") × (key nairobi_lat nairobi_lng ≡ "kzf0")
unfolding key add_ℤ
shards_by_city = (refl, refl)

same_city : key lagos_lat lagos_lng ≡ key (pos 6_525_000_000) (pos 3_380_000_000)
unfolding key add_ℤ
same_city = refl

known_value : geohash (pos 57_649_110_000) (pos 10_407_440_000) 11 ≡ "u4pruydqqvj"
unfolding geohash add_ℤ
known_value = refl

geohash_run_total_example :
    geohash_run lagos_lat lagos_lng 4 ≡ some (letters lagos_lat lagos_lng 4 begin)
geohash_run_total_example = geohash_run_total lagos_lat lagos_lng 4

decode-geohash_example :
    (cell : Cursor ℤ) × (decode (geohash lagos_lat lagos_lng 4) ≡ some cell)
    × InSpan lagos_lat cell.lat_range
    × InSpan lagos_lng cell.lng_range
decode-geohash_example =
    decode-geohash Fixed-IsBisectable lagos_lat lagos_lng 4 (refl, refl) (refl, refl)

neighbors_prefix_example :
    (coarse : String) × (last : String) × (neighbors lagos_lat lagos_lng
      ≡ key lagos_lat lagos_lng ∷ coarse ∷ [])
    × (len coarse ≡ 3)
    × (len last ≡ 1)
    × (key lagos_lat lagos_lng ≡ String.◌++◌ coarse last)
neighbors_prefix_example = neighbors_prefix lagos_lat lagos_lng
