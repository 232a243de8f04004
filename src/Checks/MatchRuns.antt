-- ===== src/Checks/MatchRuns.antt =====
-- Two drivers near a rider in Lagos, the farther one indexed first.
use taxi_app.Base.{
  String, true, false, eq_iff, ◌⊎◌, inl, inr, sym, ◌∙◌, subst, arith, Bool-cases, none, List, [],
  ◌∷◌, ◌≡◌, ◌≤◌, refl, if◌then◌else◌, str_eq, length, All,
}
use taxi_app.Base.Int.{ℤ, pos, add_ℤ, ltb_ℤ}
use taxi_app.Float64.{whole}
use taxi_app.Float64.Fixed.{fixed, Fixed-IsComparable}
use taxi_app.Models.{RideRequest, Candidate}
use taxi_app.Infra.{GeoLocation, GeoQuery, reply}
use taxi_app.Infra.Laws.{IsPresence}
use taxi_app.Geo.Presence.{IsAvailable, nearest-IsAvailable}
use taxi_app.Region
use taxi_app.Geo
use taxi_app.Geo.{ok, closer, nearest}
use taxi_app.Match.{chosen, best}
use taxi_app.Match.Closest.{found_near, best-closest}
use taxi_app.Checks.Memory.{Memory, memory, without}
use taxi_app.Checks.Board.{board}
use taxi_app.Checks.Sorting.{insertion_sort-IsSort}

abbrev asked : RideRequest ℤ
asked = record { rider_id = "r1"; lat = pos 6_524_400_000; lng = pos 3_379_200_000 }

abbrev placed : String → ℤ → GeoLocation ℤ
placed name dist = record { name = name; longitude = asked.lng; latitude = asked.lat; dist = dist }

abbrev seen_at : String → ℤ → Candidate ℤ
seen_at name dist = record {
  driver_id = name;
  lat = asked.lat;
  lng = asked.lng;
  distance_km = dist;
}

abbrev busy_streets : Memory
busy_streets = record {
  up = true;
  strings = λ k. none;
  sets = λ k.
      if str_eq k "geo:drivers:s14m"
      then placed "d1" (pos 3_000_000_000) ∷ placed "d2" (pos 1_000_000_000) ∷ []
      else [];
  hashes = λ k. true;
}

abbrev both : List (Candidate ℤ)
both = seen_at "d1" (pos 3_000_000_000) ∷ seen_at "d2" (pos 1_000_000_000) ∷ []

abbrev near : Candidate ℤ
near = seen_at "d2" (pos 1_000_000_000)

abbrev shortlist : List (Candidate ℤ)
shortlist = near ∷ seen_at "d1" (pos 3_000_000_000) ∷ []

found_both : found_near board Fixed-IsComparable insertion_sort-IsSort asked busy_streets ≡ ok both
unfolding Geo.search_all Region.neighbors add_ℤ Geo.geo_key Geo.driver_key
found_both = refl

chosen_near : (best board asked busy_streets).0 ≡ chosen near shortlist
unfolding best nearest Region.neighbors add_ℤ Geo.geo_key Geo.driver_key
chosen_near = refl

best-closest_example :
    All (λ c. closer board c near ≡ false) both
    × (length shortlist ≤ 10)
    × ((rest : List (Candidate ℤ)) × (shortlist ≡ near ∷ rest))
best-closest_example =
    best-closest board Fixed-IsComparable insertion_sort-IsSort asked busy_streets both near
      shortlist found_both (refl, (refl, tt)) chosen_near

-- The presence of keys and members in memory.
abbrev pub Holds : String → List (GeoLocation ℤ) → Type 0
Holds name [] = ⊥
Holds name (l ∷ ls) = (l.name ≡ name) ⊎ Holds name ls

All-Holds :
    (ls ms : List (GeoLocation ℤ))
    → ((name : String) → Holds name ls → Holds name ms)
    → All (λ l. Holds l.name ms) ls
All-Holds [] ms f = tt
All-Holds (l ∷ ls) ms f = (f l.name (inl refl), All-Holds ls ms (λ name h. f name (inr h)))

without-Holds :
    (n name : String) (ls : List (GeoLocation ℤ)) → Holds name (without n ls) → Holds name ls
without-Holds n name [] h = h
without-Holds n name (l ∷ ls) h = elim (Bool-cases (str_eq l.name n)) [
  | inl gone ↦ inr (without-Holds n name ls (rw gone at h))
  | inr kept ↦ elim (rw kept at h) [ inl e ↦ inl e | inr m ↦ inr (without-Holds n name ls m) ]
]

pub zrem-Holds :
    (k n j name : String) (m : Memory)
    → Holds name ((memory.zrem k n m).sets j)
    → Holds name (m.sets j)
zrem-Holds k n j name m h = elim (Bool-cases m.up) [
  | inl on ↦ elim (Bool-cases (str_eq k j)) [
    | inl hit ↦
        let same = (eq_iff k j).0 hit in
        subst (λ i. Holds name (m.sets i)) same
          (without-Holds n name (m.sets k) (rw (on, hit) at h))
    | inr miss ↦ rw (on, miss) at h
  ]
  | inr off ↦ rw off at h
]

pub search-Holds :
    (k : String) (q : GeoQuery ℤ) (m : Memory) (locs : List (GeoLocation ℤ))
    → (memory.geo_search k q m).0 ≡ reply locs
    → All (λ l. Holds l.name (m.sets k)) locs
search-Holds k q m locs r =
    let same : m.sets k ≡ locs = ground arith in
    subst (λ ls. All (λ l. Holds l.name (m.sets k)) ls) same
      (All-Holds (m.sets k) (m.sets k) (λ name h. h))

pub zrem_hashes : (k n j : String) (m : Memory) → (memory.zrem k n m).hashes j ≡ m.hashes j
zrem_hashes k n j m = ground arith

pub exists_hashes :
    (k : String) (n : ℤ) (m : Memory)
    → (memory.exists k m).0 ≡ reply n
    → ltb_ℤ (pos 0) n ≡ true
    → m.hashes k ≡ true
exists_hashes k n m r h = ground arith

memory-IsPresence : IsPresence memory
memory-IsPresence = record {
  Alive = λ m k. m.hashes k ≡ true;
  Member = λ m k name. Holds name (m.sets k);
  exists_alive = exists_hashes;
  search_member = search-Holds;
  search_alive = λ k j q m a. a;
  search_keeps = λ k j name q m a. a;
  exists_keeps = λ k j name m a. a;
  exists_revives_none = λ k j m a. a;
  zrem_keeps = zrem-Holds;
  zrem_revives_none = λ k n j m a. sym (zrem_hashes k n j m) ∙ a;
}

found_shortlist : (nearest board asked.lat asked.lng (whole 5) 10 busy_streets).0 ≡ ok shortlist
unfolding nearest Region.neighbors add_ℤ Geo.geo_key Geo.driver_key
found_shortlist = refl

nearest-IsAvailable_example :
    All
      (IsAvailable board memory-IsPresence busy_streets (Region.neighbors asked.lat asked.lng))
      shortlist
nearest-IsAvailable_example =
    nearest-IsAvailable board memory-IsPresence insertion_sort-IsSort asked.lat asked.lng (whole 5)
      10 busy_streets shortlist found_shortlist
