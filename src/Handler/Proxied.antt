-- ===== src/Handler/Proxied.antt =====
-- handler.go, `ServeHTTP`: every request has one of the outcomes.
use caddy_consul.Base.{
  ℕ, zero, suc, ◌<◌, Bool, true, false, not, ◌&&◌, ◌≡◌, ◌≢◌, refl, sym, subst, ap, ◌∙◌, ◌⊎◌, inl,
  inr, List, [], ◌∷◌, ◌++◌, Option, none, some, pos, length, drop, get_or, Elem, Elem-filter,
  filter-Elem, if_both, arith, if◌then◌else◌, is_empty, bytes_eq, eq_bytes, Bool-cases,
}
use caddy_consul.Base.Bytes.{Bytes, str, trim_prefix, has_prefix-append}
use caddy_consul.Base.Maps.{lookup, lookup-insert}
use caddy_consul.Base.Results.{Result, ok, err}
use caddy_consul.Types.{CompiledHttpRoute, Upstream}
use caddy_consul.StatusMatch.{StatusMatcher}
use caddy_consul.RouteTable.{RouteTable, match_route}
use caddy_consul.Handler.{
  Header, Request, OutRequest, Response, Network, is_redirect_route, redirect_response, bad_gateway,
  modify_response, healthy_upstreams, effective_no_cache_matcher, proxy_to, proxy_reply, rewrite,
  strips, or_slash, header_set, expand_redirect_url, set_no_cache_headers, serve_proxied,
  serve_route, serve_http,
}
use caddy_consul.Handler.Forwarded.{
  against_cache, lookup-set_no_cache_headers, set_forwarded_headers-untrusted,
}
use caddy_consul.Handler.Outcome.{
  IsRedirect, IsRedirected, IsProxied, IsServed, unmatched, redirected, unavailable, sent,
}
use caddy_consul.Handler.Marked.{modify_response-IsMarked}

nonempty_both : (b : Bool) (s : Bytes) → (b && not (is_empty s)) ≡ true → (b ≡ true) × (s ≢ [])
nonempty_both true [] h = cc
nonempty_both true (c ∷ s) h = (refl, λ q. cc q)
nonempty_both false s h = cc

nonempty_neither :
    (b : Bool) (s : Bytes) → (b && not (is_empty s)) ≡ false → ¬ ((b ≡ true) × (s ≢ []))
nonempty_neither true [] h (q, r) = r refl
nonempty_neither true (c ∷ s) h (q, r) = cc h
nonempty_neither false s h (q, r) = cc q

get_or-Elem : {A : Type 0} (xs : List A) (i : ℕ) (d : A) → i < length xs → Elem (get_or xs i d) xs
get_or-Elem [] i d h = absurd (omega (arith, h))
get_or-Elem (x ∷ xs) zero d h = inl refl
get_or-Elem (x ∷ xs) (suc i) d h = inr (get_or-Elem xs i d (omega (arith, h)))

drop-append : (p s : Bytes) → drop (length p) (p ++ s) ≡ s
drop-append [] s = refl
drop-append (c ∷ p) s = drop-append p s

trim_prefix-append : (p s : Bytes) → trim_prefix (p ++ s) p ≡ s
unfolding trim_prefix
trim_prefix-append p s = rw (has_prefix-append p s) (drop-append p s)

lookup-cached :
    (b : Bool) (name : Bytes) (h : Header) (o : Option (List Bytes))
    → lookup name h ≡ o
    → lookup name (if b then set_no_cache_headers h else h)
      ≡ (if b then against_cache name o else o)
lookup-cached true name h o e = lookup-set_no_cache_headers name h ∙ ap (against_cache name) e
lookup-cached false name h o e = e

not_empty : (s : Bytes) → s ≢ [] → is_empty s ≡ false
not_empty [] h = absurd (h refl)
not_empty (c ∷ s) h = refl

differs : (s t : Bytes) → s ≢ t → eq_bytes s t ≡ false
differs s t h = elim (Bool-cases (eq_bytes s t)) [
  | inl q ↦ absurd (h ((bytes_eq.same_iff s t).0 q))
  | inr q ↦ q
]

strips_deep :
    (route : CompiledHttpRoute)
    → route.strip_prefix ≡ true
    → route.path ≢ []
    → route.path ≢ str "/"
    → strips route ≡ true
unfolding strips
strips_deep route on some_path deep =
    let other : eq_bytes route.path (str "/") ≡ false = differs route.path (str "/") deep in
    let filled : is_empty route.path ≡ false = not_empty route.path some_path in
    rw (on, filled, other) refl

module _ (net : Network) (global : Option StatusMatcher) (r : Request) (h : Header) where
  redirect_response-IsRedirected :
      (route : CompiledHttpRoute) → IsRedirected net global r h route (redirect_response route r h)
  unfolding redirect_response expand_redirect_url header_set
  redirect_response-IsRedirected route = record {
    status = refl;
    headers = λ name.
        lookup-cached route.redirect_no_cache name _ _
          (lookup-insert (str "Location") name (expand_redirect_url route.redirect_url r ∷ []) h);
  }

  cut_path :
      (route : CompiledHttpRoute) (out : OutRequest) (rest : Bytes)
      → route.strip_prefix ≡ true
      → route.path ≢ []
      → route.path ≢ str "/"
      → out.path ≡ route.path ++ rest
      → (rewrite route r out).path ≡ or_slash rest
  unfolding rewrite strips
  cut_path route out rest on some_path deep p =
      rw (strips_deep route on some_path deep, p, trim_prefix-append route.path rest) refl

  rewrite-kept :
      (route : CompiledHttpRoute) (out : OutRequest)
      → route.strip_prefix ≡ false
      → (rewrite route r out).path ≡ out.path
  unfolding rewrite strips
  rewrite-kept route out off = rw off refl

  rewritten-IsProxied :
      (route : CompiledHttpRoute) (u : Upstream) (base : Response)
      → Elem u route.upstreams
      → u.healthy ≡ true
      → (net.round_trip u.address (rewrite route r (net.prepared r u.address)) ≡ ok base)
        ⊎ ((e : Bytes) × (net.round_trip u.address (rewrite route r (net.prepared r u.address))
              ≡ err e)
            × (base ≡ record { status_code = pos 502; header = h }))
      → IsProxied net global r h route u
          (rewrite route r (net.prepared r u.address))
          (modify_response (effective_no_cache_matcher global route) route base)
  unfolding rewrite
  rewritten-IsProxied route u base there healthy answer = record {
    chosen = there;
    healthy = healthy;
    host = refl;
    kept = rewrite-kept route (net.prepared r u.address);
    cut = cut_path route (net.prepared r u.address);
    headers = λ untrusted name.
        set_forwarded_headers-untrusted (net.prepared r u.address).header r name untrusted;
    base = base;
    answer = answer;
    marked = modify_response-IsMarked global route base;
  }

  proxy_reply-IsProxied :
      (route : CompiledHttpRoute) (u : Upstream) (reply : Result Bytes Response)
      → Elem u route.upstreams
      → u.healthy ≡ true
      → net.round_trip u.address (rewrite route r (net.prepared r u.address)) ≡ reply
      → IsProxied net global r h route u
          (rewrite route r (net.prepared r u.address))
          (proxy_reply (effective_no_cache_matcher global route) route h reply)
  unfolding proxy_reply
  proxy_reply-IsProxied route u (ok base) there healthy e =
      rewritten-IsProxied route u base there healthy (inl e)
  proxy_reply-IsProxied route u (err f) there healthy e =
      rewritten-IsProxied route u (bad_gateway h) there healthy (inr (f, e, refl))

  none_healthy :
      (ups : List Upstream) (u : Upstream)
      → healthy_upstreams ups ≡ []
      → Elem u ups
      → u.healthy ≡ false
  unfolding healthy_upstreams
  none_healthy ups u e m = elim (Bool-cases u.healthy) [
    | inl q ↦ absurd (subst (Elem u) e (filter-Elem (λ (v : Upstream). v.healthy) u ups m q))
    | inr q ↦ q
  ]

  serve_proxied-IsServed :
      (table : RouteTable) (route : CompiledHttpRoute) (healthy : List Upstream)
      → ((n : ℕ) → 0 < n → net.intn n < n)
      → match_route table r.host r.path ≡ some route
      → ¬ IsRedirect route
      → healthy_upstreams route.upstreams ≡ healthy
      → IsServed net global r h table
          (serve_proxied net (effective_no_cache_matcher global route) route r h healthy)
  unfolding serve_proxied proxy_to healthy_upstreams
  serve_proxied-IsServed table route [] inside found proxy e =
      unavailable route _ found proxy (λ u. none_healthy route.upstreams u e) refl
        (modify_response-IsMarked global route (bad_gateway h))
  serve_proxied-IsServed table route (u ∷ us) inside found proxy e =
      let picked = get_or (u ∷ us) (net.intn (length (u ∷ us))) u in
      let m =
        get_or-Elem (u ∷ us) (net.intn (length (u ∷ us))) u
          (inside (length (u ∷ us)) (omega arith)) in
      let (there, healthy) =
        Elem-filter (λ (v : Upstream). v.healthy) picked route.upstreams
          (subst (Elem picked) (sym e) m) in
      sent route picked _ _ found proxy refl
        (proxy_reply-IsProxied route picked _ there healthy refl)

  serve_route-IsServed :
      (table : RouteTable) (found : Option CompiledHttpRoute)
      → ((n : ℕ) → 0 < n → net.intn n < n)
      → match_route table r.host r.path ≡ found
      → IsServed net global r h table (serve_route net global r h found)
  unfolding serve_route is_redirect_route
  serve_route-IsServed table none inside e = unmatched e refl
  serve_route-IsServed table (some route) inside e =
      if_both (IsServed net global r h table) (is_redirect_route route) _ _
        (λ q.
          redirected route _ e (nonempty_both _ route.redirect_url q) refl
            (redirect_response-IsRedirected route))
        (λ q.
          serve_proxied-IsServed table route _ inside e (nonempty_neither _ route.redirect_url q)
            refl)

  -- If the random number is below its bound, `ServeHTTP` passes a request on if no route matches it. If
  -- the matched route has a redirect code above 0 and a URL, it answers with the redirect. Otherwise it
  -- sends the request to an upstream of the route that is healthy, and gives the upstream's response, or
  -- a 502 if the round trip fails; or, if no upstream of the route is healthy, it answers with a 502
  -- and contacts none. What is said for `IsRedirected`, `IsProxied` and `IsMarked` then holds of the
  -- answer, of the request to the upstream and of the response.
  pub serve_http-IsServed :
      (table : RouteTable)
      → ((n : ℕ) → 0 < n → net.intn n < n)
      → IsServed net global r h table (serve_http net table global r h)
  unfolding serve_http
  serve_http-IsServed table inside = serve_route-IsServed table _ inside refl
