-- ===== src/Gateway/Routes.antt =====
-- cmd/gateway/main.go, `main`: the routes. The upgrade of a request is an input, its error.
use taxi_app.Base.{String, ◌||◌, Option, List, [], ◌∷◌, if◌then◌else◌, str_eq}
use taxi_app.Http.{HttpRequest}
use taxi_app.Gateway.{Upgraded, serve_ws}

pub data Answer : Type 0 where
  health : Answer
  web_socket : Upgraded → Answer
  method_not_allowed : Answer
  no_route : Answer

-- A pattern that begins with GET matches HEAD as well.
get_only : HttpRequest → Answer → Answer
get_only r x = if str_eq r.method "GET" || str_eq r.method "HEAD" then x else method_not_allowed

route : Option String → HttpRequest → List String → Answer
unfolding get_only
route upgrade_error r (a ∷ []) =
    if str_eq a "healthz"
    then get_only r health
    else if str_eq a "ws"
    then get_only r (web_socket (serve_ws (r.query "user_id") upgrade_error))
    else no_route
route upgrade_error r _ = no_route

-- `mux`
unfoldable pub mux : Option String → HttpRequest → Answer
unfolding route
mux upgrade_error r = route upgrade_error r r.path
