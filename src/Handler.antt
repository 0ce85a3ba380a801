-- ===== src/Handler.antt =====
-- handler.go: the consul_proxy handler. net/http's parts are arguments: the request that ReverseProxy
-- and SetURL have prepared for an upstream, what the upstream replies, and what rand.Intn gives. A
-- header is a map from a name to its values; the names in the source are in canonical form already.
pub mod Forwarded
pub mod Marked
pub mod Outcome
pub mod Proxied
use caddy_consul.Base.{
  ℕ, Bool, true, false, not, ◌&&◌, List, [], ◌∷◌, ◌++◌, Option, none, some, ℤ, pos, lt_int,
  eq_bytes, bytes_eq, is_empty, filter, length, get_or, if◌then◌else◌,
}
use caddy_consul.Base.Bytes.{Bytes, str, trim_prefix, replace_all}
use caddy_consul.Base.Maps.{lookup, insert}
use caddy_consul.Base.Results.{Result, ok, err}
use caddy_consul.Types.{CompiledHttpRoute, Upstream}
use caddy_consul.StatusMatch.{StatusMatcher, matches}
use caddy_consul.RouteTable.{RouteTable, match_route}

abbrev pub Header : Type 0
Header = List (Bytes × List Bytes)

-- `Values` and `Get` of a `http.Header`, and `Set`.
unfoldable pub header_values : Bytes → Header → List Bytes
header_values name h = elim (lookup name h) [ none ↦ [] | some vs ↦ vs ]

unfoldable pub header_get : Bytes → Header → Bytes
unfolding header_values
header_get name h = get_or (header_values name h) 0 []

unfoldable pub header_set : Bytes → Bytes → Header → Header
header_set name value h = insert name (value ∷ []) h

-- What the handler reads of a `http.Request`. `peer` is the host of the remote address, if
-- net.SplitHostPort finds one; `trusted` says that the server trusts the peer as a proxy.
pub record Request : Type 0 where
  pub host : Bytes
  pub path : Bytes
  pub request_uri : Bytes
  pub header : Header
  pub peer : Option Bytes
  pub is_tls : Bool
  pub trusted : Bool

-- The request to an upstream.
pub record OutRequest : Type 0 where
  pub path : Bytes
  pub raw_path : Bytes
  pub host : Bytes
  pub header : Header

pub record Response : Type 0 where
  pub status_code : ℤ
  pub header : Header

-- `expandRedirectURL`
unfoldable pub expand_redirect_url : Bytes → Request → Bytes
expand_redirect_url template r =
    replace_all (replace_all template (str "{http.request.uri}") r.request_uri)
      (str "{http.request.host}") r.host

-- `effectiveNoCacheMatcher`
unfoldable pub effective_no_cache_matcher :
    Option StatusMatcher → CompiledHttpRoute → Option StatusMatcher
effective_no_cache_matcher global route =
    if route.no_cache_opt_out
    then none
    else elim route.no_cache_matcher [ some sm ↦ some sm | none ↦ global ]

-- `setNoCacheHeaders`
unfoldable pub set_no_cache_headers : Header → Header
unfolding header_set
set_no_cache_headers h = header_set (str "Expires") (str "0") (
    header_set (str "Pragma") (str "no-cache")
      (header_set (str "Cache-Control") (str "no-cache, no-store, must-revalidate") h))

-- `setNoCacheIfMatched`; a nil matcher matches nothing.
unfoldable pub set_no_cache_if_matched : Option StatusMatcher → ℤ → Header → Header
unfolding set_no_cache_headers
set_no_cache_if_matched matcher status h =
    if matches matcher status then set_no_cache_headers h else h

-- `healthyUpstreams`
unfoldable pub healthy_upstreams : List Upstream → List Upstream
healthy_upstreams upstreams = filter (λ u. u.healthy) upstreams

-- `strings.Join`
unfoldable pub join : Bytes → List Bytes → Bytes
join separator [] = []
join separator (v ∷ []) = v
join separator (v ∷ w ∷ vs) = v ++ (separator ++ join separator (w ∷ vs))

-- The two headers of `setForwardedHeaders`
unfoldable pub forwarded_for : Request → Bytes → Bytes
unfolding header_values join
forwarded_for r peer =
    let prior = join (str ", ") (header_values (str "X-Forwarded-For") r.header) in
    if r.trusted && not (is_empty prior) then prior ++ (str ", " ++ peer) else peer

unfoldable pub forwarded_proto : Request → Bytes
unfolding header_get
forwarded_proto r =
    let proto = header_get (str "X-Forwarded-Proto") r.header in
    if r.trusted && not (is_empty proto)
    then proto
    else if r.is_tls
    then str "https"
    else str "http"

unfoldable pub set_forwarded_for : Header → Request → Option Bytes → Header
unfolding forwarded_for header_set
set_forwarded_for out r none = out
set_forwarded_for out r (some peer) = header_set (str "X-Forwarded-For") (forwarded_for r peer) out

-- `setForwardedHeaders`
unfoldable pub set_forwarded_headers : Header → Request → Header
unfolding set_forwarded_for forwarded_proto header_set
set_forwarded_headers out r =
    header_set (str "X-Forwarded-Proto") (forwarded_proto r) (set_forwarded_for out r r.peer)

abbrev pub or_slash : Bytes → Bytes
or_slash path = if is_empty path then str "/" else path

-- Whether the route's path is cut off.
unfoldable pub strips : CompiledHttpRoute → Bool
strips route =
    route.strip_prefix && (not (is_empty route.path) && not (eq_bytes route.path (str "/")))

-- `Rewrite` behind SetURL
unfoldable pub rewrite : CompiledHttpRoute → Request → OutRequest → OutRequest
unfolding strips set_forwarded_headers
rewrite route r out = record {
  path = if strips route then or_slash (trim_prefix out.path route.path) else out.path;
  raw_path = if strips route then trim_prefix out.raw_path route.path else out.raw_path;
  host = r.host;
  header = set_forwarded_headers out.header r;
}

unfoldable pub set_via : CompiledHttpRoute → Header → Header
unfolding header_set
set_via route h =
    if is_empty route.via then h else header_set (str "X-Caddy-Consul-Via") route.via h

-- What is set on a response: by `ModifyResponse`, by `ErrorHandler`, and without an upstream.
unfoldable pub modify_response : Option StatusMatcher → CompiledHttpRoute → Response → Response
unfolding set_via set_no_cache_if_matched
modify_response matcher route resp = record resp {
  header = set_no_cache_if_matched matcher resp.status_code (set_via route resp.header);
}

abbrev pub bad_gateway : Header → Response
bad_gateway h = record { status_code = pos 502; header = h }

-- What ServeHTTP comes to: the next handler, an own response, or a response to a request that was
-- sent to an upstream.
pub data Served : Type 0 where
  passed_on : Served
  answered : Response → Served
  proxied : Upstream → OutRequest → Response → Served

-- The parts of net/http and math/rand: the outgoing request for an upstream's address before the
-- rewriting, the upstream's reply or an error, and the random number.
pub record Network : Type 0 where
  pub prepared : Request → Bytes → OutRequest
  pub round_trip : Bytes → OutRequest → Result Bytes Response
  pub intn : ℕ → ℕ

unfoldable pub redirect_response : CompiledHttpRoute → Request → Header → Response
unfolding expand_redirect_url header_set set_no_cache_headers
redirect_response route r h =
    let located = header_set (str "Location") (expand_redirect_url route.redirect_url r) h in
    record {
      status_code = route.redirect_code;
      header = if route.redirect_no_cache then set_no_cache_headers located else located;
    }

unfoldable pub proxy_reply :
    Option StatusMatcher → CompiledHttpRoute → Header → Result Bytes Response → Response
unfolding modify_response
proxy_reply matcher route h (ok resp) = modify_response matcher route resp
proxy_reply matcher route h (err e) = modify_response matcher route (bad_gateway h)

unfoldable pub proxy_to :
    Network → Option StatusMatcher → CompiledHttpRoute → Request → Header → Upstream → Served
unfolding rewrite proxy_reply
proxy_to net matcher route r h u =
    let out = rewrite route r (net.prepared r u.address) in
    proxied u out (proxy_reply matcher route h (net.round_trip u.address out))

-- Behind the redirects: the upstream is picked among the healthy ones.
unfoldable pub serve_proxied :
    Network → Option StatusMatcher → CompiledHttpRoute → Request → Header → List Upstream → Served
unfolding modify_response proxy_to
serve_proxied net matcher route r h [] = answered (modify_response matcher route (bad_gateway h))
serve_proxied net matcher route r h (u ∷ us) =
    proxy_to net matcher route r h (get_or (u ∷ us) (net.intn (length (u ∷ us))) u)

unfoldable pub is_redirect_route : CompiledHttpRoute → Bool
is_redirect_route route = lt_int (pos 0) route.redirect_code && not (is_empty route.redirect_url)

unfoldable pub serve_route :
    Network → Option StatusMatcher → Request → Header → Option CompiledHttpRoute → Served
unfolding is_redirect_route redirect_response serve_proxied healthy_upstreams
    effective_no_cache_matcher
serve_route net global r h none = passed_on
serve_route net global r h (some route) =
    if is_redirect_route route
    then answered (redirect_response route r h)
    else serve_proxied net (effective_no_cache_matcher global route) route r h
        (healthy_upstreams route.upstreams)

-- `ServeHTTP`, with the header that the response has so far
unfoldable pub serve_http : Network → RouteTable → Option StatusMatcher → Request → Header → Served
unfolding serve_route
serve_http net table global r h = serve_route net global r h (match_route table r.host r.path)
