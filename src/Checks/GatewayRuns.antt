-- ===== src/Checks/GatewayRuns.antt =====
-- One socket: two messages come, one is sent, and the client leaves.
use taxi_app.Base.{
  String, none, some, if◌then◌else◌, str_eq, true, false, List, [], ◌∷◌, ◌++◌, ◌≡◌, refl, ◌⊎◌, inl,
}
use taxi_app.TripWorker.{channel}
use taxi_app.Gateway.{
  text, Socket, opened, upgraded, refused, serve_ws, Reach, start, own, around, deliver, forward,
  client_leaves, Runs,
}
use taxi_app.Http.{HttpRequest}
use taxi_app.Gateway.Routes.{mux, health, web_socket, method_not_allowed, no_route}
use taxi_app.Gateway.Delivery.{payloads, sent_in_order, IsReleased, winds_down}

abbrev first_given : Socket
first_given = record (opened "r1") { given = "a" ∷ []; inbox = "a" ∷ [] }

abbrev both_given : Socket
both_given = record (opened "r1") { given = "a" ∷ "b" ∷ []; inbox = "a" ∷ "b" ∷ [] }

abbrev one_sent : Socket
one_sent = record both_given { inbox = "b" ∷ []; sent = text "a" ∷ [] }

abbrev left_alone : Socket
left_alone = record one_sent { client_gone = true }

left_alone_reached : Reach "r1" left_alone
unfolding opened
left_alone_reached =
    around
      (own {t = one_sent}
        (around {t = both_given}
          (around {t = first_given} start (deliver (channel "r1") "a" refl refl refl refl))
          (deliver (channel "r1") "b" refl refl refl refl))
        (forward "a" ("b" ∷ []) refl refl refl))
      (client_leaves refl)

sent_in_order_example :
    ((rest : List String) × (left_alone.given ≡ payloads left_alone.sent ++ rest))
    × ((left_alone.running ≡ false)
        ⊎ (left_alone.given ≡ payloads left_alone.sent ++ left_alone.inbox))
sent_in_order_example = sent_in_order left_alone_reached

winds_down_example : (t : Socket) × Runs left_alone t × IsReleased t × (t.sent ≡ left_alone.sent)
winds_down_example = winds_down left_alone_reached (inl refl)

abbrev asks : String → List String → HttpRequest
asks method path = record {
  method = method;
  path = path;
  query = λ name. if str_eq name "user_id" then "r1" else "";
  body = "";
}

test_mux :
    (mux none (asks "GET" ("healthz" ∷ [])) ≡ health)
    × (mux none (asks "GET" ("ws" ∷ [])) ≡ web_socket (upgraded (opened "r1")))
    × (mux (some "not a websocket handshake") (asks "GET" ("ws" ∷ [])) ≡ web_socket refused)
    × (mux none (asks "POST" ("ws" ∷ [])) ≡ method_not_allowed)
    × (mux none (asks "GET" []) ≡ no_route)
unfolding mux serve_ws opened
test_mux = (refl, refl, refl, refl, refl)
