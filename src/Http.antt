-- ===== src/Http.antt =====
-- internal/httpx/httpx.go: what the handlers share. A request's path comes cleaned and split at its
-- slashes, so that only its last segment can be empty, after a slash at its end; a query parameter that
-- is missing reads as "".
use taxi_app.Base.{
  ℕ, ◌-◌, ◌++◌, String, ◌||◌, Option, none, some, List, [], ◌∷◌, if◌then◌else◌, str_eq, ◌>>=◌,
}

abbrev pub Header : Type 0
Header = List (String × String)

-- `Header().Set` and `Header().Get`, on canonical names
unfoldable pub set_header : String → String → Header → Header
set_header k v [] = (k, v) ∷ []
set_header k v ((j, u) ∷ h) = if str_eq j k then (k, v) ∷ h else (j, u) ∷ set_header k v h

unfoldable pub get_header : String → Header → Option String
get_header k [] = none
get_header k ((j, u) ∷ h) = if str_eq j k then some u else get_header k h

pub record HttpRequest : Type 0 where
  pub method : String
  pub path : List String
  pub query : String → String
  pub body : String

-- What a handler has written.
pub record Written (B : Type 0) : Type 0 where
  pub status : ℕ
  pub header : Header
  pub body : Option B

-- A handler finds the header that was set before it, and acts on the world.
abbrev pub Handler : Type 0 → Type 0 → Type 0
Handler B W = Header → HttpRequest → W → Written B × W

-- `WriteJSON`
unfoldable pub write_json : {B : Type 0} → ℕ → B → Header → Written B
write_json status v h = record {
  status = status;
  header = set_header "Content-Type" "application/json" h;
  body = some v;
}

-- `LatLng`, over `strconv.ParseFloat`
unfoldable pub lat_lng : {F : Type 0} → (String → Option F) → HttpRequest → Option (F × F)
lat_lng parse_float r =
    if str_eq (r.query "lat") "" || str_eq (r.query "lng") ""
    then none
    else do lat ← parse_float (r.query "lat"); lng ← parse_float (r.query "lng"); some (lat, lng)

abbrev pub allow_headers : Header → Header
allow_headers h = set_header "Access-Control-Allow-Headers" "Content-Type" (
    set_header "Access-Control-Allow-Methods" "GET, POST, OPTIONS"
      (set_header "Access-Control-Allow-Origin" "*" h))

-- `CORS`
unfoldable pub cors : {B W : Type 0} → Handler B W → Handler B W
cors next h r w =
    if str_eq r.method "OPTIONS"
    then (record { status = 204; header = allow_headers h; body = none }, w)
    else next (allow_headers h) r w

-- What `Logging` writes of a request, the time in the unit of the clock.
pub record LogLine : Type 0 where
  pub method : String
  pub path : List String
  pub elapsed : ℕ

-- `Logging`, over the clock that the handler reads as well
unfoldable pub logging : {B W : Type 0} → (W → ℕ × W) → Handler B W → Handler B (W × List LogLine)
logging now next h r (w, lines) =
    let (start, before) = now w in
    let (x, after) = next h r before in
    let (over, last) = now after in
    (x, (last, lines ++ (record { method = r.method; path = r.path; elapsed = over - start } ∷ [])))
