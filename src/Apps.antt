-- ===== src/Apps.antt =====
-- apps/rider/main.go and apps/driver/main.go: two servers of static files. What `fs.Sub` and
-- `ListenAndServe` return are inputs, and the file server is a parameter.
use Prim.Native.String
use taxi_app.Base.{
  String, Bool, false, ◌||◌, Option, none, some, List, [], ◌∷◌, if◌then◌else◌, str_eq,
}
use taxi_app.Http.{HttpRequest, Written, set_header}

-- `log.Fatalf`, or a server at an address.
pub data Outcome : Type 0 where
  fatal : String → Outcome
  listening : (addr : String) → Outcome

-- The address, from the environment or by default.
address : (String → String) → String → String → String
address getenv name fallback = if str_eq (getenv name) "" then fallback else getenv name

-- The errors are those of `fs.Sub` and of `ListenAndServe`; the second is `none` while it serves.
start : String → String → (assets served : Option String) → Outcome
start name addr (some e) served = fatal (String.◌++◌ "assets: " e)
start name addr none (some e) = fatal (String.◌++◌ name (String.◌++◌ ": " e))
start name addr none none = listening addr

-- A pattern that begins with GET matches HEAD as well.
is_get : HttpRequest → Bool
is_get r = str_eq r.method "GET" || str_eq r.method "HEAD"

is_health : List String → Bool
is_health (a ∷ []) = str_eq a "healthz"
is_health _ = false

ok : Written String
ok = record {
  status = 200;
  header = set_header "Content-Type" "text/plain; charset=utf-8" [];
  body = some "ok";
}

-- `http.Error`, without the newline that it ends the text with
method_not_allowed : Written String
method_not_allowed = record {
  status = 405;
  header =
      set_header "X-Content-Type-Options" "nosniff"
        (set_header "Content-Type" "text/plain; charset=utf-8" (set_header "Allow" "GET, HEAD" []));
  body = some "Method Not Allowed";
}

-- `mux`, over `http.FileServer`
unfoldable pub mux : (HttpRequest → Written String) → HttpRequest → Written String
unfolding is_get is_health ok method_not_allowed
mux files r = if is_get r then (if is_health r.path then ok else files r) else method_not_allowed

-- `main` of apps/rider
unfoldable pub rider : (String → String) → (assets served : Option String) → Outcome
unfolding address start
rider getenv assets served = start "rider" (address getenv "RIDER_ADDR" ":8081") assets served

-- `main` of apps/driver
unfoldable pub driver : (String → String) → (assets served : Option String) → Outcome
unfolding address start
driver getenv assets served = start "driver" (address getenv "DRIVER_ADDR" ":8082") assets served
