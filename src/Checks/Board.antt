-- ===== src/Checks/Board.antt =====
-- The environment of the runs: the memory of `Memory`, a Kafka that keeps a list, a clock and ids
-- that count, and a codec that knows two trips.
use taxi_app.Base.{
  ℕ, ◌+◌, String, len, Bool, true, ◌&&◌, none, some, List, [], ◌∷◌, ◌++◌, ◌≡◌, sym, ◌∙◌, ap,
  some-injective, inl, inr, Bool-cases, arith, if◌then◌else◌, str_eq, eq_iff, ◌==◌,
}
use taxi_app.Base.Int.{ℤ, pos, leb_ℤ}
use taxi_app.Models.{Trip, LocationUpdate, assigned, in_progress}
use taxi_app.Infra.{Message, Kafka, Codec, IsCodec, Env}
use taxi_app.Checks.Memory.{memory}
use taxi_app.Checks.Sorting.{insertion_sort}

abbrev pub kafka : Kafka
kafka = record {
  Broker = List (String × Message);
  write_messages = λ topic m log. (none, log ++ ((topic, m) ∷ []));
}

abbrev pub assigned_trip : Trip ℤ
assigned_trip = record {
  id = "t1";
  rider_id = "r1";
  driver_id = "d1";
  region = "s14m";
  state = assigned;
  surge = pos 1_000_000_000;
  created_at = 3;
  updated_at = 3;
}

abbrev pub started_trip : Trip ℤ
started_trip = record assigned_trip { state = in_progress; updated_at = 7 }

unfoldable pub same_trip : Trip ℤ → Trip ℤ → Bool
same_trip t u =
    str_eq t.id u.id
    && str_eq t.rider_id u.rider_id
    && str_eq t.driver_id u.driver_id
    && str_eq t.region u.region
    && str_eq t.state u.state
    && leb_ℤ t.surge u.surge
    && leb_ℤ u.surge t.surge
    && t.created_at == u.created_at
    && t.updated_at == u.updated_at

same_trip_sound : (t u : Trip ℤ) → same_trip t u ≡ true → t ≡ u
unfolding same_trip
same_trip_sound t u h = ground (
  arith,
  eq_iff t.id u.id,
  eq_iff t.rider_id u.rider_id,
  eq_iff t.driver_id u.driver_id,
  eq_iff t.region u.region,
  eq_iff t.state u.state,
)

abbrev pub trips : Codec (Trip ℤ)
trips = record {
  marshal = λ t.
      if same_trip t assigned_trip
      then some "1"
      else if same_trip t started_trip
      then some "2"
      else none;
  unmarshal = λ s.
      if str_eq s "1" then some assigned_trip else if str_eq s "2" then some started_trip else none;
}

trips_read : (t : Trip ℤ) (s : String) → trips.marshal t ≡ some s → trips.unmarshal s ≡ some t
trips_read t s h = elim (Bool-cases (same_trip t assigned_trip)) [
  | inl e ↦ read "1" (rw e at h) (ap some (sym (same_trip_sound t assigned_trip e)))
  | inr n ↦ elim (Bool-cases (same_trip t started_trip)) [
    | inl e ↦ read "2" (rw (n, e) at h) (ap some (sym (same_trip_sound t started_trip e)))
    | inr m ↦ cc (rw (n, m) at h)
  ]
]
  where
    read :
        (code : String)
        → some code ≡ some s
        → trips.unmarshal code ≡ some t
        → trips.unmarshal s ≡ some t
    read code e q = ap trips.unmarshal (sym (some-injective _ _ e)) ∙ q

pub trips-IsCodec : IsCodec trips
trips-IsCodec = record { unmarshal-marshal = trips_read }

abbrev ping : String → LocationUpdate ℤ
ping name = record {
  driver_id = name;
  lat = pos 6_524_400_000;
  lng = pos 3_379_200_000;
  available = true;
  timestamp = pos 0;
}

abbrev pub board : Env ℤ
board = record {
  redis = memory;
  kafka = kafka;
  Clock = ℕ;
  now = λ n. (n, n + 1);
  Ids = ℕ;
  new_string = λ n. (if n == 0 then "t0" else "t1", n + 1);
  trip_json = trips;
  event_json = record { marshal = λ e. some e.state; unmarshal = λ s. none };
  location_json = record { marshal = λ u. some u.driver_id; unmarshal = λ s. some (ping s) };
  notification_json = record { marshal = λ n. some n.message; unmarshal = λ s. none };
  sort_slice = insertion_sort;
  parse_int = λ s. pos (len s);
}
