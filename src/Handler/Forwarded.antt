-- ===== src/Handler/Forwarded.antt =====
-- handler.go: the headers that an upstream and a client are sent.
use caddy_consul.Base.{
  Bool, false, not, ◌&&◌, ◌≡◌, refl, sym, ap, ◌∙◌, List, [], ◌∷◌, ◌++◌, Option, none, some,
  bytes_eq, eq_bytes, is_empty, if◌then◌else◌, if_both,
}
use caddy_consul.Base.Bytes.{Bytes, str}
use caddy_consul.Base.Maps.{lookup, lookup-insert}
use caddy_consul.Types.{CompiledHttpRoute}
use caddy_consul.StatusMatch.{StatusMatcher, matches}
use caddy_consul.Handler.{
  Header, Request, Response, header_set, header_get, header_values, join, forwarded_for,
  forwarded_proto, set_forwarded_for, set_forwarded_headers, set_no_cache_headers,
  set_no_cache_if_matched, set_via, modify_response,
}

abbrev pub scheme : Bool → Bytes
scheme is_tls = if is_tls then str "https" else str "http"

untrusted_proto : (r : Request) → r.trusted ≡ false → forwarded_proto r ≡ scheme r.is_tls
unfolding forwarded_proto
untrusted_proto r h =
    let proto = header_get (str "X-Forwarded-Proto") r.header in
    ap (λ b. if b && not (is_empty proto) then proto else scheme r.is_tls) h

untrusted_for : (r : Request) (peer : Bytes) → r.trusted ≡ false → forwarded_for r peer ≡ peer
unfolding forwarded_for
untrusted_for r peer h =
    let prior = join (str ", ") (header_values (str "X-Forwarded-For") r.header) in
    ap (λ b. if b && not (is_empty prior) then prior ++ (str ", " ++ peer) else peer) h

-- The peer alone, or what was there if the peer is not known.
abbrev pub peer_or : Option Bytes → Option (List Bytes) → Option (List Bytes)
peer_or none o = o
peer_or (some peer) o = some (peer ∷ [])

lookup-set_forwarded_for :
    (name : Bytes) (out : Header) (r : Request) (peer : Option Bytes)
    → r.trusted ≡ false
    → lookup name (set_forwarded_for out r peer) ≡ (
        if eq_bytes (str "X-Forwarded-For") name
        then peer_or peer (lookup name out)
        else lookup name out)
unfolding set_forwarded_for header_set
lookup-set_forwarded_for name out r none h =
    if_both (λ o. lookup name out ≡ o) (eq_bytes (str "X-Forwarded-For") name) _ _ (λ q. refl)
      (λ q. refl)
lookup-set_forwarded_for name out r (some peer) h =
    lookup-insert (str "X-Forwarded-For") name (forwarded_for r peer ∷ []) out
    ∙ ap (λ v. if eq_bytes (str "X-Forwarded-For") name then some (v ∷ []) else lookup name out)
        (untrusted_for r peer h)

-- From a peer that is no trusted proxy nothing that it sends reaches the forwarded headers: the upstream
-- gets X-Forwarded-Proto with the connection's own scheme and X-Forwarded-For with the peer alone, if
-- the peer is known, and every other header as it was.
pub set_forwarded_headers-untrusted :
    (out : Header) (r : Request) (name : Bytes)
    → r.trusted ≡ false
    → lookup name (set_forwarded_headers out r) ≡ (
        if eq_bytes (str "X-Forwarded-Proto") name
        then some (scheme r.is_tls ∷ [])
        else if eq_bytes (str "X-Forwarded-For") name
        then peer_or r.peer (lookup name out)
        else lookup name out)
unfolding set_forwarded_headers header_set
set_forwarded_headers-untrusted out r name h =
    lookup-insert (str "X-Forwarded-Proto") name (forwarded_proto r ∷ [])
      (set_forwarded_for out r r.peer)
    ∙ ap
        (λ v.
          if eq_bytes (str "X-Forwarded-Proto") name
          then some (v ∷ [])
          else lookup name (set_forwarded_for out r r.peer))
        (untrusted_proto r h)
    ∙ ap (λ o. if eq_bytes (str "X-Forwarded-Proto") name then some (scheme r.is_tls ∷ []) else o)
        (lookup-set_forwarded_for name out r r.peer h)

lookup-set_via :
    (name : Bytes) (route : CompiledHttpRoute) (h : Header)
    → lookup name (set_via route h) ≡ (
        if not (is_empty route.via) && eq_bytes (str "X-Caddy-Consul-Via") name
        then some (route.via ∷ [])
        else lookup name h)
unfolding set_via header_set
lookup-set_via name route h =
    if_both
      (λ x. lookup name x ≡ (
        if not (is_empty route.via) && eq_bytes (str "X-Caddy-Consul-Via") name
        then some (route.via ∷ [])
        else lookup name h))
      (is_empty route.via) h _
      (λ q. sym (
        ap
          (λ b.
            if not b && eq_bytes (str "X-Caddy-Consul-Via") name
            then some (route.via ∷ [])
            else lookup name h)
          q))
      (λ q.
        lookup-insert (str "X-Caddy-Consul-Via") name (route.via ∷ []) h
        ∙ sym (
            ap
              (λ b.
                if not b && eq_bytes (str "X-Caddy-Consul-Via") name
                then some (route.via ∷ [])
                else lookup name h)
              q))

-- The values of a header against caching.
abbrev pub against_cache : Bytes → Option (List Bytes) → Option (List Bytes)
against_cache name o =
    if eq_bytes (str "Expires") name
    then some (str "0" ∷ [])
    else if eq_bytes (str "Pragma") name
    then some (str "no-cache" ∷ [])
    else if eq_bytes (str "Cache-Control") name
    then some (str "no-cache, no-store, must-revalidate" ∷ [])
    else o

pub lookup-set_no_cache_headers :
    (name : Bytes) (h : Header)
    → lookup name (set_no_cache_headers h) ≡ against_cache name (lookup name h)
unfolding set_no_cache_headers header_set
lookup-set_no_cache_headers name h =
    rw
      (
        lookup-insert (str "Expires") name (str "0" ∷ []),
        lookup-insert (str "Pragma") name (str "no-cache" ∷ []),
        lookup-insert (str "Cache-Control") name (str "no-cache, no-store, must-revalidate" ∷ []),
      )
      refl

-- A response of the proxy keeps its status. If the matcher matches the status the three headers
-- against caching are set, and only then; the header that names the route's tag is set if the route
-- has one; and every other header is as it was.
pub modify_response_headers :
    (matcher : Option StatusMatcher) (route : CompiledHttpRoute) (resp : Response) (name : Bytes)
    → ((modify_response matcher route resp).status_code ≡ resp.status_code)
      × (lookup name (modify_response matcher route resp).header ≡ (
          let sent =
            if not (is_empty route.via) && eq_bytes (str "X-Caddy-Consul-Via") name
            then some (route.via ∷ [])
            else lookup name resp.header in
          if matches matcher resp.status_code then against_cache name sent else sent))
unfolding modify_response set_no_cache_if_matched
modify_response_headers matcher route resp name =
    let tagged = lookup-set_via name route resp.header in
    let sent =
      if not (is_empty route.via) && eq_bytes (str "X-Caddy-Consul-Via") name
      then some (route.via ∷ [])
      else lookup name resp.header in
    (
      refl,
      if_both
          (λ h.
            lookup name h
            ≡ (if matches matcher resp.status_code then against_cache name sent else sent))
          (matches matcher resp.status_code) _ _
          (λ q.
            lookup-set_no_cache_headers name _
            ∙ ap (against_cache name) tagged
            ∙ sym (ap (λ b. if b then against_cache name sent else sent) q))
          (λ q. tagged ∙ sym (ap (λ b. if b then against_cache name sent else sent) q)),
    )
