-- ===== src/Tests/Serving.antt =====
-- handler.go: a request served from a table of one route.
use caddy_consul.Base.{
  ℕ, ◌≡◌, refl, arith, true, false, List, [], ◌∷◌, Option, none, some, pos, bytes_eq, eq_bytes,
  if◌then◌else◌, not, ◌&&◌, is_empty,
}
use caddy_consul.Base.Bytes.{Bytes, str}
use caddy_consul.Base.Maps.{lookup}
use caddy_consul.Base.Results.{ok}
use caddy_consul.Types.{CompiledHttpRoute}
use caddy_consul.StatusMatch.{StatusMatcher, matches}
use caddy_consul.Handler.{
  Request, Network, rewrite, set_forwarded_headers, modify_response, serve_http,
}
use caddy_consul.Handler.Forwarded.{set_forwarded_headers-untrusted, modify_response_headers}
use caddy_consul.Handler.Outcome.{IsServed}
use caddy_consul.Handler.Proxied.{serve_http-IsServed}
use caddy_consul.Tests.Data.{compiled}

abbrev forging : Request
forging = record {
  host = str "a.test";
  path = str "/api/x";
  request_uri = str "/api/x";
  header = (str "X-Forwarded-For", str "1.2.3.4" ∷ []) ∷ [];
  peer = some (str "10.9.9.9");
  is_tls = true;
  trusted = false;
}

abbrev network : Network
network = record {
  prepared = λ r address. record { path = r.path; raw_path = []; host = address; header = [] };
  round_trip = λ address out. ok (record { status_code = pos 503; header = [] });
  intn = λ n. 0;
}

abbrev api_route : CompiledHttpRoute
api_route = record (compiled (str "a.test") (str "/api")) { strip_prefix = true; via = str "caddy" }

abbrev server_errors : StatusMatcher
server_errors = record { classes = false ∷ false ∷ false ∷ false ∷ false ∷ true ∷ []; codes = [] }

serve_http-IsServed_example :
    IsServed network
      (some server_errors)
      forging
      []
      (record { routes = api_route ∷ [] })
      (serve_http network (record { routes = api_route ∷ [] }) (some server_errors) forging [])
serve_http-IsServed_example =
    serve_http-IsServed network (some server_errors) forging [] (record { routes = api_route ∷ [] })
      (λ n h. h)

set_forwarded_headers-untrusted_example :
    lookup (str "X-Forwarded-For") (set_forwarded_headers [] forging) ≡ some (str "10.9.9.9" ∷ [])
unfolding eq_bytes
set_forwarded_headers-untrusted_example =
    set_forwarded_headers-untrusted [] forging (str "X-Forwarded-For") refl

modify_response_headers_example :
    ((modify_response
        (some server_errors)
        api_route
        (record { status_code = pos 503; header = [] })).status_code
      ≡ pos 503)
    × (lookup
          (str "Pragma")
          (modify_response
            (some server_errors)
            api_route
            (record { status_code = pos 503; header = [] })).header
        ≡ some (str "no-cache" ∷ []))
unfolding matches eq_bytes
modify_response_headers_example =
    modify_response_headers (some server_errors) api_route
      (record { status_code = pos 503; header = [] }) (str "Pragma")

-- The prefix is cut off; what is left has no slash if the request's path goes on behind the prefix
-- without one.
strips_prefix : (rewrite api_route forging (network.prepared forging [])).path ≡ str "/x"
unfolding rewrite eq_bytes caddy_consul.Base.Bytes.trim_prefix
strips_prefix = refl

strips_more :
    (rewrite api_route forging (record (network.prepared forging []) { path = str "/apix" })).path
    ≡ str "x"
unfolding rewrite eq_bytes caddy_consul.Base.Bytes.trim_prefix
strips_more = refl
