-- ===== src/Checks/PositionRuns.antt =====
-- A driver reports his position in one region, and then in another.
use taxi_app.Base.{
  String, Bool, true, false, Option, none, some, List, [], ◌∷◌, ◌≡◌, refl, ◌∙◌, ap, inl, inr,
  Bool-cases, arith, if◌then◌else◌, str_eq, eq_iff, ◌||◌,
}
use taxi_app.Base.Int.{ℤ, pos, add_ℤ}
use taxi_app.Float64.Fixed.{fixed}
use taxi_app.Models.{LocationUpdate}
use taxi_app.Infra.{Env, Message, Command, geo_add, h_set, expire, z_rem, del, incr, GeoLocation}
use taxi_app.Infra.Members.{IsMembership, after_command, after_commands}
use taxi_app.Infra.Keys.{of_key}
use taxi_app.Geo.{geo_key, upsert}
use taxi_app.LocationWorker.{handle, consume}
use taxi_app.Region
use taxi_app.Api.{World, Request, location, rides, serve_all}
use taxi_app.Pipeline.Positions.{indexed, received, AllUpserted}
use taxi_app.Pipeline.Unpinged.{pings_of, positions, ping_in}
use taxi_app.Pipeline.Indexed.{member-indexed}
use taxi_app.Checks.Memory.{Memory, memory, without, run, run_all}
use taxi_app.Checks.Codecs.{position_codec, position_codec-IsCodec}
use taxi_app.Checks.ApiRuns.{topics, empty_memory}
use taxi_app.Checks.PipelineRuns.{running, running-IsLog, waiting, of_topic}

-- Whether a name is among the members.
abbrev pub named : String → List (GeoLocation ℤ) → Bool
named n [] = false
named n (l ∷ ls) = str_eq l.name n || named n ls

named-without :
    (gone n : String) (ls : List (GeoLocation ℤ))
    → named n (without gone ls) ≡ (if str_eq gone n then false else named n ls)
named-without gone n [] = ground arith
named-without gone n (l ∷ ls) =
    ground (arith, eq_iff l.name gone, eq_iff l.name n, eq_iff gone n, named-without gone n ls)

named-run :
    (c : Command ℤ) (k n : String) (m : Memory)
    → named n ((run c m).sets k) ≡ after_command k n (named n (m.sets k)) c
named-run (geo_add key name lng lat) k n m = elim (Bool-cases (str_eq key k)) [
  | inl hit ↦
      rw (hit, (eq_iff key k).0 hit)
        (ground (arith, named-without name n (m.sets k), eq_iff name n))
  | inr miss ↦ rw miss refl
]
named-run (h_set key region lat lng ts) k n m = refl
named-run (expire key ttl) k n m = refl
named-run (z_rem key name) k n m = elim (Bool-cases (str_eq key k)) [
  | inl hit ↦ rw (hit, (eq_iff key k).0 hit) (named-without name n (m.sets k))
  | inr miss ↦ rw miss refl
]
named-run (del key) k n m = ground arith
named-run (incr key) k n m = refl

pub named-run_all :
    (cs : List (Command ℤ)) (k n : String) (m : Memory)
    → named n ((run_all cs m).sets k) ≡ after_commands k n (named n (m.sets k)) cs
named-run_all [] k n m = refl
named-run_all (c ∷ cs) k n m =
    named-run_all cs k n (run c m) ∙ ap (λ b. after_commands k n b cs) (named-run c k n m)

-- A server in memory whose transactions all succeed.
abbrev pub tracking : Env ℤ
tracking = record running {
  redis = record memory { tx_exec = λ cs m. (none, run_all cs m) };
  location_json = position_codec;
}

unfoldable pub tracking-IsMembership : IsMembership tracking.redis
tracking-IsMembership = record {
  member = λ m k n. named n (m.sets k);
  tx_member = λ cs k n m h. named-run_all cs k n m;
}

abbrev pub here : LocationUpdate ℤ
here = record {
  driver_id = "";
  lat = pos 6_524_400_000;
  lng = pos 3_379_200_000;
  available = true;
  timestamp = pos 0;
}

-- Far away.
abbrev pub there : LocationUpdate ℤ
there = record here { lat = pos 0; lng = pos 0 }

abbrev pub requests : List (Request ℤ)
requests = location "d1" (some here) ∷ rides none ∷ location "d1" (some there) ∷ []

abbrev pub front_door : World tracking
front_door = record { db = waiting.db; broker = []; clock = 7; ids = 1; in_flight = 0 }

abbrev pub topic : List Message
topic =
    positions tracking running-IsLog (λ topic m b. refl) topics refl
      (serve_all tracking topics requests front_door)

abbrev pub each : List Message → List (Option Message)
each [] = []
each (m ∷ ms) = some m ∷ each ms

pub received-each : (ms : List Message) → received tracking (each ms) ≡ ms
unfolding received
received-each [] = refl
received-each (m ∷ ms) = ap (λ l. m ∷ l) (received-each ms)

pub each-AllUpserted : (ms : List Message) (db : Memory) → AllUpserted tracking (each ms) db
unfolding AllUpserted upsert
each-AllUpserted [] db = tt
each-AllUpserted (m ∷ ms) db =
    ((λ u e. ground arith), each-AllUpserted ms (handle tracking (some m) db))

pub writable : (u : LocationUpdate ℤ) → (b : String) × (position_codec.marshal u ≡ some b)
unfolding position_codec
writable u = (_, refl)

member-indexed_example :
    named "d1" ((consume tracking (none ∷ each topic) empty_memory).sets (geo_key "s14m"))
    ≡ indexed "s14m" "d1" false (pings_of requests)
unfolding tracking-IsMembership received AllUpserted pings_of ping_in of_topic running-IsLog handle
member-indexed_example =
    member-indexed tracking tracking-IsMembership position_codec-IsCodec running-IsLog
      (λ topic m b. refl) topics refl requests front_door (none ∷ each topic) empty_memory "s14m"
      "d1" refl
      (
        (λ at. writable (record here { driver_id = "d1"; timestamp = at })),
        ((λ at. writable (record there { driver_id = "d1"; timestamp = at })), tt),
      )
      refl (tt, each-AllUpserted topic empty_memory) refl (λ k. ap (of_key k) (received-each topic))

-- He is then in both geo sets.
indexed_twice :
    (indexed "s14m" "d1" false (pings_of requests) ≡ true)
    × (indexed "s000" "d1" false (pings_of requests) ≡ true)
unfolding indexed pings_of ping_in add_ℤ Region.key
indexed_twice = (refl, refl)
