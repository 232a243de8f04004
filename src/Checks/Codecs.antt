-- ===== src/Checks/Codecs.antt =====
-- Codecs of all trips and events over fixed-point numbers, with a text for a number and one for a
-- list of texts.
use taxi_app.Base.{
  ℕ, zero, suc, ◌+◌, ◌*◌, ◌/◌, ◌%◌, ◌≤◌, ◌==◌, String, Char, code, Bool, true, false, Option, none,
  some, some-injective, List, [], ◌∷◌, ◌≡◌, refl, sym, ◌∙◌, ap, inl, inr, Bool-cases, arith,
  if◌then◌else◌, str_eq,
}
use taxi_app.Base.Int.{ℤ, pos, negsuc}
use taxi_app.Models.{Trip, TripEvent, LocationUpdate}
use taxi_app.Infra.{Codec, IsCodec}

-- The binary digits of a number, the lowest first.
bits : ℕ → ℕ → String
bits zero n = ""
bits (suc fuel) n = elim (n == 0) [
  | true ↦ ""
  | false ↦ String.◌∷◌ (if n % 2 == 0 then "0" else "1") (bits fuel (n / 2))
]

value : String → ℕ
value String.[] = 0
value (String.◌∷◌ c s) = (if code c == 49 then 1 else 0) + 2 * value s

value-bits : (fuel n : ℕ) → n ≤ fuel → value (bits fuel n) ≡ n
unfolding value bits
value-bits zero n h = omega arith
value-bits (suc fuel) n h = elim (Bool-cases (n == 0)) [
  | inl zero_ ↦ rw (zero_, bits) (ground arith)
  | inr more ↦
      let rest : value (bits fuel (n / 2)) ≡ n / 2 = value-bits fuel (n / 2) (ground arith) in
      rw (more, bits)
        (elim (Bool-cases (n % 2 == 0)) [
          | inl even ↦ rw even (rw rest (ground arith))
          | inr odd ↦ rw odd (rw rest (ground arith))
        ])
]

signed : ℤ → String
signed (pos n) = String.◌∷◌ "+" (bits n n)
signed (negsuc n) = String.◌∷◌ "-" (bits n n)

number : String → ℤ
number String.[] = pos 0
number (String.◌∷◌ c s) = if code c == 43 then pos (value s) else negsuc (value s)

number-signed : (z : ℤ) → number (signed z) ≡ z
unfolding number signed
number-signed (pos n) = ap pos (value-bits n n (omega arith))
number-signed (negsuc n) = ap negsuc (value-bits n n (omega arith))

-- Each character after a mark, and a stop at the end.
written : String → String → String
written String.[] rest = String.◌∷◌ "." rest
written (String.◌∷◌ c s) rest = String.◌∷◌ "x" (String.◌∷◌ c (written s rest))

write_all : List String → String
write_all [] = ""
write_all (s ∷ ss) = written s (write_all ss)

push : Char → List String → List String
push c [] = String.◌∷◌ c "" ∷ []
push c (s ∷ ss) = String.◌∷◌ c s ∷ ss

read_all : Bool → String → List String
read_all marked String.[] = []
read_all true (String.◌∷◌ c s) = push c (read_all false s)
read_all false (String.◌∷◌ c s) = elim (code c == 46) [
  | true ↦ "" ∷ read_all false s
  | false ↦ read_all true s
]

read-written : (s rest : String) → read_all false (written s rest) ≡ s ∷ read_all false rest
unfolding read_all written push
read-written String.[] rest = refl
read-written (String.◌∷◌ c s) rest = rw (read-written s rest) refl

read-write_all : (ss : List String) → read_all false (write_all ss) ≡ ss
unfolding read_all write_all
read-write_all [] = refl
read-write_all (s ∷ ss) = read-written s (write_all ss) ∙ ap (λ l. s ∷ l) (read-write_all ss)

trip_of : List String → Option (Trip ℤ)
trip_of (i ∷ r ∷ d ∷ g ∷ s ∷ m ∷ c ∷ u ∷ []) = some (record {
  id = i;
  rider_id = r;
  driver_id = d;
  region = g;
  state = s;
  surge = number m;
  created_at = value c;
  updated_at = value u;
})
trip_of _ = none

trip_fields : Trip ℤ → List String
trip_fields t =
    t.id
    ∷ t.rider_id
    ∷ t.driver_id
    ∷ t.region
    ∷ t.state
    ∷ signed t.surge
    ∷ bits t.created_at t.created_at
    ∷ bits t.updated_at t.updated_at
    ∷ []

event_of : List String → Option (TripEvent ℤ)
event_of (i ∷ r ∷ d ∷ g ∷ s ∷ m ∷ a ∷ []) = some (record {
  trip_id = i;
  rider_id = r;
  driver_id = d;
  region = g;
  state = s;
  surge = number m;
  at = number a;
})
event_of _ = none

event_fields : TripEvent ℤ → List String
event_fields e =
    e.trip_id ∷ e.rider_id ∷ e.driver_id ∷ e.region ∷ e.state ∷ signed e.surge ∷ signed e.at ∷ []

trip-read : (t : Trip ℤ) → trip_of (trip_fields t) ≡ some t
unfolding trip_of trip_fields
trip-read t =
    rw
      (
        number-signed t.surge,
        value-bits t.created_at t.created_at (omega arith),
        value-bits t.updated_at t.updated_at (omega arith),
      )
      refl

event-read : (e : TripEvent ℤ) → event_of (event_fields e) ≡ some e
unfolding event_of event_fields
event-read e = rw (number-signed e.surge, number-signed e.at) refl

unfoldable pub trip_codec : Codec (Trip ℤ)
unfolding trip_fields trip_of write_all read_all written push bits value signed number
trip_codec = record {
  marshal = λ t. some (write_all (trip_fields t));
  unmarshal = λ s. trip_of (read_all false s);
}

unfoldable pub event_codec : Codec (TripEvent ℤ)
unfolding event_fields event_of write_all read_all written push bits value signed number
event_codec = record {
  marshal = λ e. some (write_all (event_fields e));
  unmarshal = λ s. event_of (read_all false s);
}

pub trip_codec-IsCodec : IsCodec trip_codec
unfolding trip_codec
trip_codec-IsCodec = record {
  unmarshal-marshal = λ t s h.
      rw (sym (some-injective _ _ h)) (ap trip_of (read-write_all (trip_fields t)) ∙ trip-read t);
}

pub event_codec-IsCodec : IsCodec event_codec
unfolding event_codec
event_codec-IsCodec = record {
  unmarshal-marshal = λ e s h.
      rw (sym (some-injective _ _ h))
        (ap event_of (read-write_all (event_fields e)) ∙ event-read e);
}

position_of : List String → Option (LocationUpdate ℤ)
position_of (d ∷ a ∷ o ∷ v ∷ t ∷ []) = some (record {
  driver_id = d;
  lat = number a;
  lng = number o;
  available = str_eq v "yes";
  timestamp = number t;
})
position_of _ = none

position_fields : LocationUpdate ℤ → List String
position_fields u =
    u.driver_id
    ∷ signed u.lat
    ∷ signed u.lng
    ∷ (if u.available then "yes" else "no")
    ∷ signed u.timestamp
    ∷ []

flag-read : (b : Bool) → str_eq (if b then "yes" else "no") "yes" ≡ b
flag-read true = refl
flag-read false = refl

position-read : (u : LocationUpdate ℤ) → position_of (position_fields u) ≡ some u
unfolding position_of position_fields
position-read u =
    rw (number-signed u.lat, number-signed u.lng, number-signed u.timestamp, flag-read u.available)
      refl

unfoldable pub position_codec : Codec (LocationUpdate ℤ)
unfolding position_fields position_of write_all read_all written push bits value signed number
position_codec = record {
  marshal = λ u. some (write_all (position_fields u));
  unmarshal = λ s. position_of (read_all false s);
}

pub position_codec-IsCodec : IsCodec position_codec
unfolding position_codec
position_codec-IsCodec = record {
  unmarshal-marshal = λ u s h.
      rw (sym (some-injective _ _ h))
        (ap position_of (read-write_all (position_fields u)) ∙ position-read u);
}
