-- ===== src/Tests/Routes.antt =====
-- Routing and rewriting at concrete inputs.
use apigateaway.Common.{Option, none, some, List, [], ◌∷◌, Text, lit}
use apigateaway.Config.{RouteConfig, no_auth}
use apigateaway.Routing.{normalize_host, match_route}
use apigateaway.Routing.Laws.{IsFirst, match_route-IsFirst}

abbrev route_at : Text → Option (List Text) → Option Text → RouteConfig
route_at path methods host = record {
  id = path;
  match_on = record { path = path; methods = methods; host = host };
  strip_prefix = none;
  upstream = record {
    targets = lit "http://u" ∷ [];
    health_check = none;
    timeout_ms = 1000;
    body_timeout_ms = none;
  };
  auth = no_auth;
  rate_limit = none;
  cache = none;
  cors = none;
  websocket = none;
  transform = none;
  retry = none;
  circuit_breaker = none;
}

-- The first route is for another method, the second for another host.
abbrev routes : List RouteConfig
routes =
    route_at (lit "/b/*") (some (lit "POST" ∷ [])) none
    ∷ route_at (lit "/b/*") none (some (lit "*.other.com"))
    ∷ route_at (lit "/b/*") (some (lit "GET" ∷ [])) (some (lit "*.Example.com"))
    ∷ route_at (lit "/b/c") none none
    ∷ []

abbrev host : Option Text
host = some (lit "Api.example.com.")

match_route-IsFirst_example :
    IsFirst routes
      (lit "GET")
      (lit "/b/c")
      (normalize_host host)
      (match_route routes (lit "GET") (lit "/b/c") host)
match_route-IsFirst_example = match_route-IsFirst routes (lit "GET") (lit "/b/c") host
