-- ===== src/Api/Server.antt =====
-- cmd/api/main.go, `main`: the routes, behind the headers for browsers. What a body decodes to and
-- what a number parses to are parameters.
pub mod Browsers
use taxi_app.Base.{
  ℕ, String, Bool, true, false, ◌||◌, ◌&&◌, Option, none, some, List, [], ◌∷◌, not, if◌then◌else◌,
  str_eq,
}
use taxi_app.Float64.{Float64}
use taxi_app.Models.{LocationUpdate, RideRequest}
use taxi_app.Infra.{Env}
use taxi_app.Http.{
  Header, set_header, HttpRequest, Written, Handler, write_json, lat_lng, cors, LogLine, logging,
}
use taxi_app.Api.{Body, Response, Topics, World, Request, text, empty, serve}

-- `json.NewDecoder(r.Body).Decode` at two types, and `strconv.ParseFloat`; `none` is an error.
pub record Decoders (F : Type 0) : Type 0 where
  pub location : String → Option (LocationUpdate F)
  pub ride : String → Option (RideRequest F)
  pub float : String → Option F

pub data Routed (F : Type 0) : Type 0 where
  to : Request F → Routed F
  health : Routed F
  method_not_allowed : (allow : String) → Routed F
  no_route : Routed F

module _ {F : Type 0} (decoders : Decoders F) where
  open decoders use {location, ride, float}

  -- A pattern that begins with GET matches HEAD as well.
  get_only : HttpRequest → Routed F → Routed F
  get_only r x =
      if str_eq r.method "GET" || str_eq r.method "HEAD" then x else method_not_allowed "GET, HEAD"

  post_only : HttpRequest → Routed F → Routed F
  post_only r x = if str_eq r.method "POST" then x else method_not_allowed "POST"

  -- The patterns that `main` registers; a wildcard matches no empty segment.
  route : HttpRequest → List String → Routed F
  unfolding get_only post_only
  route r (a ∷ []) = if str_eq a "healthz" then get_only r health else no_route
  route r (a ∷ b ∷ []) =
      if str_eq a "v1" && str_eq b "rides"
      then post_only r (to (Request.rides (ride r.body)))
      else if str_eq a "v1" && str_eq b "surge"
      then get_only r (to (Request.surge (lat_lng float r)))
      else no_route
  route r (a ∷ b ∷ id ∷ []) =
      if str_eq a "v1" && str_eq b "trips" && not (str_eq id "")
      then get_only r (to (Request.get_trip id))
      else no_route
  route r (a ∷ b ∷ id ∷ d ∷ []) =
      if str_eq a "v1" && str_eq b "drivers" && str_eq d "location"
      then post_only r (to (Request.location id (location r.body)))
      else if str_eq a "v1" && str_eq b "trips" && str_eq d "start"
      then post_only r (to (Request.start id))
      else if str_eq a "v1" && str_eq b "trips" && str_eq d "complete"
      then post_only r (to (Request.complete id))
      else if str_eq a "v1" && str_eq b "trips" && str_eq d "cancel"
      then post_only r (to (Request.cancel id))
      else no_route
  route r _ = no_route

-- `http.Error`, without the newline that it ends the text with
error_text : {F : Type 0} → ℕ → String → Header → Written (Body F)
error_text status message h = record {
  status = status;
  header =
      set_header "X-Content-Type-Options" "nosniff"
        (set_header "Content-Type" "text/plain; charset=utf-8" h);
  body = some (text message);
}

-- How each handler writes its answer.
write : {F : Type 0} → ℕ → Body F → Header → Written (Body F)
unfolding error_text
write status (text message) h = error_text status message h
write status empty h = record { status = status; header = h; body = none }
write status b h = write_json status b h

module _ {F : Type 0} ⦃fl : Float64 F⦄ (env : Env F) (topics : Topics) (decoders : Decoders F) where
  dispatch : Routed F → Header → World env → Written (Body F) × World env
  unfolding write error_text
  dispatch (to r) h w = let (x, w') = serve env topics r w in (write x.status x.body h, w')
  dispatch health h w = (
    record {
      status = 200;
      header = set_header "Content-Type" "text/plain; charset=utf-8" h;
      body = some (text "ok");
    },
    w,
  )
  dispatch (method_not_allowed allow) h w =
      (error_text 405 "Method Not Allowed" (set_header "Allow" allow h), w)
  dispatch no_route h w = (error_text 404 "404 page not found" h, w)

  -- `mux`
  unfoldable pub mux : Handler (Body F) (World env)
  unfolding dispatch route
  mux h r w = dispatch (route decoders r r.path) h w

  -- The handler of `srv` within `Logging`.
  unfoldable pub api : Handler (Body F) (World env)
  unfolding mux
  api = cors mux

  tick : World env → ℕ × World env
  tick w = let (n, clock) = env.now w.clock in (n, record w { clock = clock })

  -- The handler of `srv`
  unfoldable pub handler : Handler (Body F) (World env × List LogLine)
  unfolding tick
  handler = logging tick api

  unfoldable pub api_all : List HttpRequest → World env × List LogLine → World env × List LogLine
  unfolding handler
  api_all [] s = s
  api_all (r ∷ rs) s = api_all rs (handler [] r s).1
