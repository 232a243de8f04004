-- ===== src/Checks/MatchedRuns.antt =====
-- A driver reports his position, and a rider nearby is matched to him.
use taxi_app.Base.{
  String, true, false, none, List, [], ◌∷◌, ◌≡◌, refl, sym, ◌∙◌, ap, inl, inr, arith, eq_iff, All,
}
use taxi_app.Base.Int.{ℤ, pos, add_ℤ}
use taxi_app.Float64.Fixed.{fixed}
use taxi_app.Models.{RideRequest, Candidate}
use taxi_app.Region
use taxi_app.Infra.{GeoLocation}
use taxi_app.Infra.Laws.{IsPresence}
use taxi_app.Infra.Keys.{of_key}
use taxi_app.Geo
use taxi_app.Geo.{nearest, driver_key, upsert}
use taxi_app.LocationWorker.{handle, consume}
use taxi_app.Match.{best, chosen}
use taxi_app.Api.{serve_all, serve, handle_location, handle_ride}
use taxi_app.Pipeline.Positions.{indexed, received, AllUpserted}
use taxi_app.Pipeline.Unpinged.{pings_of, ping_in}
use taxi_app.Pipeline.Matched.{best-HasReported}
use taxi_app.Checks.Memory.{Memory}
use taxi_app.Checks.Codecs.{position_codec, position_codec-IsCodec}
use taxi_app.Checks.Sorting.{insertion_sort-IsSort}
use taxi_app.Checks.ApiRuns.{topics, empty_memory}
use taxi_app.Checks.PipelineRuns.{running-IsLog, of_topic}
use taxi_app.Checks.MatchRuns.{Holds, search-Holds, zrem-Holds, exists_hashes, zrem_hashes}
use taxi_app.Checks.PositionRuns.{
  tracking, tracking-IsMembership, requests, front_door, topic, each, named, received-each,
  each-AllUpserted, writable, here, there,
}

unfoldable tracking-IsPresence : IsPresence tracking.redis
tracking-IsPresence = record {
  Alive = λ m k. m.hashes k ≡ true;
  Member = λ m k name. Holds name (m.sets k);
  exists_alive = exists_hashes;
  search_member = search-Holds;
  search_alive = λ k j q m a. a;
  search_keeps = λ k j name q m a. a;
  exists_keeps = λ k j name m a. a;
  exists_revives_none = λ k j m a. a;
  zrem_keeps = zrem-Holds;
  zrem_revives_none = λ k n j m a. sym (zrem_hashes k n j m) ∙ a;
}

Holds-named : (name : String) (ls : List (GeoLocation ℤ)) → Holds name ls → named name ls ≡ true
Holds-named name [] h = absurd h
Holds-named name (l ∷ ls) (inl e) = ground (arith, eq_iff l.name name)
Holds-named name (l ∷ ls) (inr h) = ground (arith, Holds-named name ls h)

abbrev rider : RideRequest ℤ
rider = record { rider_id = "r1"; lat = pos 6_524_400_000; lng = pos 3_379_200_000 }

abbrev streets : Memory
streets = consume tracking (none ∷ each topic) empty_memory

abbrev driver : Candidate ℤ
driver = record {
  driver_id = "d1";
  lat = pos 6_524_400_000;
  lng = pos 3_379_200_000;
  distance_km = pos 6_524_400_000;
}

rider_matched : (best tracking rider streets).0 ≡ chosen driver (driver ∷ [])
unfolding best nearest Region.neighbors add_ℤ Geo.geo_key driver_key consume handle upsert of_topic
    running-IsLog serve_all serve handle_location handle_ride position_codec
rider_matched = refl

best-HasReported_example :
    All
      (λ c.
        (streets.hashes (driver_key c.driver_id) ≡ true)
        × (indexed (Region.key rider.lat rider.lng) c.driver_id false (pings_of requests) ≡ true))
      (driver ∷ [])
    × ((rest : List (Candidate ℤ)) × ((driver ∷ []) ≡ driver ∷ rest))
unfolding tracking-IsMembership tracking-IsPresence received AllUpserted pings_of ping_in of_topic
    running-IsLog handle driver_key
best-HasReported_example =
    best-HasReported tracking tracking-IsMembership position_codec-IsCodec running-IsLog
      (λ topic m b. refl) topics refl tracking-IsPresence insertion_sort-IsSort requests front_door
      (none ∷ each topic) empty_memory rider driver (driver ∷ []) refl
      (
        (λ at. writable (record here { driver_id = "d1"; timestamp = at })),
        ((λ at. writable (record there { driver_id = "d1"; timestamp = at })), tt),
      )
      refl (tt, each-AllUpserted topic empty_memory) (λ reg name. refl)
      (λ k. ap (of_key k) (received-each topic)) (λ m k name h. Holds-named name (m.sets k) h)
      rider_matched
