-- ===== src/Checks/AppsRuns.antt =====
-- The servers of static files, on a few requests and environments.
use taxi_app.Base.{String, none, some, List, [], ◌∷◌, ◌≡◌, refl, if◌then◌else◌, str_eq}
use taxi_app.Http.{HttpRequest, Written}
use taxi_app.Apps.{fatal, listening, rider, driver, mux}

abbrev environment : String → String
environment name = if str_eq name "DRIVER_ADDR" then ":9000" else ""

test_addresses :
    (rider environment none none ≡ listening ":8081")
    × (driver environment none none ≡ listening ":9000")
    × (driver environment none (some "address already in use")
        ≡ fatal "driver: address already in use")
unfolding rider driver
test_addresses = (refl, refl, refl)

abbrev asks : String → List String → HttpRequest
asks method path = record { method = method; path = path; query = λ name. ""; body = "" }

abbrev files : HttpRequest → Written String
files r = record { status = 404; header = []; body = some "404 page not found" }

test_mux :
    ((mux files (asks "GET" ("healthz" ∷ []))).body ≡ some "ok")
    × (mux files (asks "HEAD" ("index.html" ∷ [])) ≡ files (asks "HEAD" ("index.html" ∷ [])))
    × ((mux files (asks "POST" [])).status ≡ 405)
unfolding mux
test_mux = (refl, refl, refl)
