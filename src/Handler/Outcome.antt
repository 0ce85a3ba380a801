-- ===== src/Handler/Outcome.antt =====
-- handler.go, `ServeHTTP`: what each of its outcomes is, said without the helpers of the handler.
use caddy_consul.Base.{
  true, false, ◌≡◌, ◌≢◌, ◌⊎◌, [], ◌∷◌, ◌++◌, Option, none, some, pos, lt_int, Elem, if◌then◌else◌,
  is_empty, bytes_eq, eq_bytes,
}
use caddy_consul.Base.Bytes.{Bytes, str, replace_all}
use caddy_consul.Base.Maps.{lookup}
use caddy_consul.Base.Results.{ok, err}
use caddy_consul.Types.{CompiledHttpRoute, Upstream}
use caddy_consul.StatusMatch.{StatusMatcher}
use caddy_consul.RouteTable.{RouteTable, match_route}
use caddy_consul.Handler.{
  Header, Request, OutRequest, Response, Served, passed_on, answered, proxied, Network,
}
use caddy_consul.Handler.Forwarded.{scheme, peer_or, against_cache}
use caddy_consul.Handler.Marked.{IsMarked}

-- A route that redirects.
abbrev pub IsRedirect : CompiledHttpRoute → Type 0
IsRedirect route = (lt_int (pos 0) route.redirect_code ≡ true) × (route.redirect_url ≢ [])

module _ (net : Network) (global : Option StatusMatcher) (r : Request) (h : Header) where
  -- The answer to a redirect: the code, and the URL with the two placeholders replaced; the headers
  -- against caching are set if the route says so.
  pub record IsRedirected (route : CompiledHttpRoute) (resp : Response) : Type 0 where
    pub status : resp.status_code ≡ route.redirect_code
    pub headers :
        (name : Bytes)
        → lookup name resp.header ≡ (
            let located =
              if eq_bytes (str "Location") name
              then some (
                  replace_all
                    (replace_all route.redirect_url (str "{http.request.uri}") r.request_uri)
                    (str "{http.request.host}")
                    r.host
                  ∷ [])
              else lookup name h in
            if route.redirect_no_cache then against_cache name located else located)

  -- The request to the upstream u and what becomes of its answer: the host is that of the request, the
  -- route's path is cut off if the route says so, the headers are as said for
  -- `set_forwarded_headers-untrusted`, and the response is the upstream's, or a 502 if there is none.
  pub record IsProxied (route : CompiledHttpRoute) (u : Upstream) (out : OutRequest)
      (resp : Response) : Type 0 where
    pub chosen : Elem u route.upstreams
    pub healthy : u.healthy ≡ true
    pub host : out.host ≡ r.host
    pub kept : route.strip_prefix ≡ false → out.path ≡ (net.prepared r u.address).path
    pub cut :
        (rest : Bytes)
        → route.strip_prefix ≡ true
        → route.path ≢ []
        → route.path ≢ str "/"
        → (net.prepared r u.address).path ≡ route.path ++ rest
        → out.path ≡ (if is_empty rest then str "/" else rest)
    pub headers :
        r.trusted ≡ false
        → (name : Bytes)
        → lookup name out.header ≡ (
            if eq_bytes (str "X-Forwarded-Proto") name
            then some (scheme r.is_tls ∷ [])
            else if eq_bytes (str "X-Forwarded-For") name
            then peer_or r.peer (lookup name (net.prepared r u.address).header)
            else lookup name (net.prepared r u.address).header)
    pub base : Response
    pub answer :
        (net.round_trip u.address out ≡ ok base)
        ⊎ ((e : Bytes) × (net.round_trip u.address out ≡ err e)
            × (base ≡ record { status_code = pos 502; header = h }))
    pub marked : IsMarked global route base resp

  pub data IsServed (table : RouteTable) (s : Served) : Type 0 where
    unmatched : match_route table r.host r.path ≡ none → s ≡ passed_on → IsServed table s
    redirected :
        (route : CompiledHttpRoute) (resp : Response)
        → match_route table r.host r.path ≡ some route
        → IsRedirect route
        → s ≡ answered resp
        → IsRedirected route resp
        → IsServed table s
    unavailable :
        (route : CompiledHttpRoute) (resp : Response)
        → match_route table r.host r.path ≡ some route
        → ¬ IsRedirect route
        → ((u : Upstream) → Elem u route.upstreams → u.healthy ≡ false)
        → s ≡ answered resp
        → IsMarked global route (record { status_code = pos 502; header = h }) resp
        → IsServed table s
    sent :
        (route : CompiledHttpRoute) (u : Upstream) (out : OutRequest) (resp : Response)
        → match_route table r.host r.path ≡ some route
        → ¬ IsRedirect route
        → s ≡ proxied u out resp
        → IsProxied route u out resp
        → IsServed table s
