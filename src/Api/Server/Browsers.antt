-- ===== src/Api/Server/Browsers.antt =====
-- cmd/api/main.go and internal/httpx/httpx.go: what holds of every request that comes in by HTTP.
use taxi_app.Base.{
  ℕ, String, false, none, some, List, [], ◌∷◌, ◌++◌, ap, if◌then◌else◌, str_eq, eq_iff, ◌≡◌, ◌≢◌,
  refl, sym, ◌∙◌, subst, ◌⊎◌, inl, inr, Bool-cases, arith,
}
use taxi_app.Float64.{Float64}
use taxi_app.Models.{Trip}
use taxi_app.Infra.{Env, IsCodec}
use taxi_app.Infra.Laws.{IsStringStore}
use taxi_app.Http.{
  Header, set_header, get_header, HttpRequest, write_json, cors, allow_headers, LogLine, logging,
}
use taxi_app.Api.{Body, text, trip, unmatched, matched, surge, Topics, World, Request, serve, empty}
use taxi_app.Api.Stored.{Stored, Cached, IsTracked, serve-Stored}
use taxi_app.Api.Server.{
  Decoders, Routed, to, health, method_not_allowed, no_route, route, error_text, write, dispatch,
  mux, api, api_all, tick, handler,
}

get-set_header :
    (j k v : String) (h : Header)
    → get_header j (set_header k v h) ≡ (if str_eq k j then some v else get_header j h)
unfolding get_header set_header
get-set_header j k v [] = refl
get-set_header j k v ((i, u) ∷ h) =
    ground (arith, eq_iff k j, eq_iff i k, eq_iff i j, get-set_header j k v h)

abbrev origin : String
origin = "Access-Control-Allow-Origin"

set_header-origin :
    (k v : String) (h : Header)
    → str_eq k origin ≡ false
    → get_header origin (set_header k v h) ≡ get_header origin h
set_header-origin k v h e = rw (get-set_header origin k v h) (rw e refl)

error_text-origin :
    (F : Type 0) (status : ℕ) (message : String) (h : Header)
    → get_header origin (error_text {F = F} status message h).header ≡ get_header origin h
unfolding error_text
error_text-origin F status message h =
    set_header-origin "X-Content-Type-Options" "nosniff" _ refl
    ∙ set_header-origin "Content-Type" "text/plain; charset=utf-8" h refl

json-origin :
    {F : Type 0} (status : ℕ) (b : Body F) (h : Header)
    → get_header origin (write_json status b h).header ≡ get_header origin h
unfolding write_json
json-origin status b h = set_header-origin "Content-Type" "application/json" h refl

write-origin :
    {F : Type 0} (status : ℕ) (b : Body F) (h : Header)
    → get_header origin (write status b h).header ≡ get_header origin h
unfolding write
write-origin {F} status (text message) h = error_text-origin F status message h
write-origin status empty h = refl
write-origin status (trip t) h = json-origin status (trip t) h
write-origin status (unmatched t m) h = json-origin status (unmatched t m) h
write-origin status (matched t d ds m) h = json-origin status (matched t d ds m) h
write-origin status (surge reg m n) h = json-origin status (surge reg m n) h

allow_headers-origin : (h : Header) → get_header origin (allow_headers h) ≡ some "*"
allow_headers-origin h =
    set_header-origin "Access-Control-Allow-Headers" "Content-Type" _ refl
    ∙ set_header-origin "Access-Control-Allow-Methods" "GET, POST, OPTIONS" _ refl
    ∙ get-set_header origin origin "*" h

module _ {F : Type 0} ⦃fl : Float64 F⦄ (env : Env F) (topics : Topics) (decoders : Decoders F) where
  mux-origin :
      (h : Header) (r : HttpRequest) (w : World env)
      → get_header origin (mux env topics decoders h r w).0.header ≡ get_header origin h
  unfolding mux dispatch
  mux-origin h r w = by_route (route decoders r r.path)
    where
      by_route :
          (x : Routed F)
          → get_header origin (dispatch env topics decoders x h w).0.header ≡ get_header origin h
      by_route (to q) = write-origin _ _ h
      by_route health = set_header-origin "Content-Type" "text/plain; charset=utf-8" h refl
      by_route (method_not_allowed allow) =
          error_text-origin F 405 "Method Not Allowed" _ ∙ set_header-origin "Allow" allow h refl
      by_route no_route = error_text-origin F 404 "404 page not found" h

  -- The same without the log.
  api_answer :
      (r : HttpRequest) (w : World env)
      → (get_header origin (api env topics decoders [] r w).0.header ≡ some "*")
        × (((r.method ≡ "OPTIONS")
              × ((api env topics decoders [] r w).0.status ≡ 204)
              × ((api env topics decoders [] r w).0.body ≡ none)
              × ((api env topics decoders [] r w).1 ≡ w))
            ⊎ ((r.method ≢ "OPTIONS")
                × (api env topics decoders [] r w
                    ≡ mux env topics decoders (allow_headers []) r w)))
  unfolding api cors
  api_answer r w = elim (Bool-cases (str_eq r.method "OPTIONS")) [
    | inl preflight ↦
        rw preflight
          (allow_headers-origin [], inl ((eq_iff r.method "OPTIONS").0 preflight, refl, refl, refl))
    | inr other ↦ rw other (
      mux-origin (allow_headers []) r w ∙ allow_headers-origin [],
      inr ((λ e. absurd (cc (sym other ∙ (eq_iff r.method "OPTIONS").1 e))), refl),
    )
  ]

  -- Every answer lets any origin read it, and is logged with the method and the path of the request; a
  -- preflight is answered with 204 and no body and changes nothing but the clock, whatever its path,
  -- while every other request gets the answer of the routes.
  pub handler_answer :
      (r : HttpRequest) (w : World env) (lines : List LogLine)
      → let (x, (after, logged)) = handler env topics decoders [] r (w, lines) in
        (get_header origin x.header ≡ some "*")
        × (((r.method ≡ "OPTIONS")
              × (x.status ≡ 204)
              × (x.body ≡ none)
              × ((after.db ≡ w.db)
                  × (after.broker ≡ w.broker)
                  × (after.ids ≡ w.ids)
                  × (after.in_flight ≡ w.in_flight)))
            ⊎ ((r.method ≢ "OPTIONS")
                × (x
                    ≡ (mux env topics decoders
                        (allow_headers [])
                        r
                        (record w { clock = (env.now w.clock).1 })).0)))
        × ((line : LogLine) × (logged ≡ lines ++ (line ∷ []))
            × (line.method ≡ r.method)
            × (line.path ≡ r.path))
  unfolding handler logging tick
  handler_answer r w lines =
      let (readable, reached) = api_answer r (record w { clock = (env.now w.clock).1 }) in
      (
        readable,
        elim reached [
          | inl (preflight, status, body, same) ↦ inl (
            preflight,
            status,
            body,
            (
              ap (λ v. v.db) same,
              ap (λ v. v.broker) same,
              ap (λ v. v.ids) same,
              ap (λ v. v.in_flight) same,
            ),
          )
          | inr (other, routed) ↦ inr (other, ap (λ a. a.0) routed)
        ],
        (_, refl, refl, refl),
      )

  -- A request changes the world as one of the handlers does, or not at all.
  api_world :
      (r : HttpRequest) (w : World env)
      → ((api env topics decoders [] r w).1 ≡ w)
        ⊎ ((q : Request F) × ((api env topics decoders [] r w).1 ≡ (serve env topics q w).1))
  unfolding api cors mux dispatch
  api_world r w = elim (Bool-cases (str_eq r.method "OPTIONS")) [
    | inl preflight ↦ rw preflight (inl refl)
    | inr other ↦ rw other (by_route (route decoders r r.path))
  ]
    where
      by_route :
          (x : Routed F)
          → ((dispatch env topics decoders x (allow_headers []) w).1 ≡ w)
            ⊎ ((q : Request F) × ((dispatch env topics decoders x (allow_headers []) w).1
                  ≡ (serve env topics q w).1))
      by_route (to q) = inr (q, refl)
      by_route health = inl refl
      by_route (method_not_allowed allow) = inl refl
      by_route no_route = inl refl

  module _ (laws : IsStringStore env.redis) (codec : IsCodec env.trip_json) where
    handler-Stored :
        (r : HttpRequest) (w : World env) (lines : List LogLine)
        → Stored env laws codec topics w.db
        → Stored env laws codec topics (handler env topics decoders [] r (w, lines)).1.0.db
    unfolding handler logging tick
    handler-Stored r w lines s =
        let before = record w { clock = (env.now w.clock).1 } in
        elim (api_world r before) [
          | inl same ↦ subst (λ v. Stored env laws codec topics v.db) (sym same) s
          | inr (q, served) ↦
              subst (λ v. Stored env laws codec topics v.db) (sym served)
                (serve-Stored env laws codec topics q before s)
        ]

    api_all-Stored :
        (rs : List HttpRequest) (w : World env) (lines : List LogLine)
        → Stored env laws codec topics w.db
        → Stored env laws codec topics (api_all env topics decoders rs (w, lines)).0.db
    unfolding api_all
    api_all-Stored [] w lines s = s
    api_all-Stored (r ∷ rs) w lines s =
        let (after, logged) = (handler env topics decoders [] r (w, lines)).1 in
        api_all-Stored rs after logged (handler-Stored r w lines s)

    -- Whatever HTTP requests come in, on any path and with any body, and whichever calls of Redis and
    -- Kafka fail, a trip that is then in the cache is under its own id and is assigned, in progress,
    -- completed or cancelled, if every cached trip was so before.
    pub api_all-IsTracked :
        (rs : List HttpRequest) (w : World env) (lines : List LogLine) (id : String) (t : Trip F)
        → Stored env laws codec topics w.db
        → Cached env laws codec topics (api_all env topics decoders rs (w, lines)).0.db id t
        → IsTracked id t
    api_all-IsTracked rs w lines id t h = api_all-Stored rs w lines h id t
