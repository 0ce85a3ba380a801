-- ===== src/Handler/Marked.antt =====
-- handler.go: what is set on a response, with the matcher that rules it.
use caddy_consul.Base.{
  true, false, not, ◌&&◌, ◌≡◌, refl, inl, inr, [], ◌∷◌, Option, none, some, if_both, if◌then◌else◌,
  is_empty, bytes_eq, eq_bytes, Option-cases,
}
use caddy_consul.Base.Bytes.{Bytes, str}
use caddy_consul.Base.Maps.{lookup}
use caddy_consul.Types.{CompiledHttpRoute}
use caddy_consul.StatusMatch.{StatusMatcher, matches}
use caddy_consul.Handler.{Response, effective_no_cache_matcher, modify_response}
use caddy_consul.Handler.Forwarded.{against_cache, modify_response_headers}

-- The matcher that rules a route's responses: none if the service has opted out, else its own, else
-- the global one.
pub data Rules (global : Option StatusMatcher) (route : CompiledHttpRoute)
    (m : Option StatusMatcher) : Type 0 where
  opted_out : route.no_cache_opt_out ≡ true → m ≡ none → Rules global route m
  own :
      (sm : StatusMatcher)
      → route.no_cache_opt_out ≡ false
      → route.no_cache_matcher ≡ some sm
      → m ≡ some sm
      → Rules global route m
  overall :
      route.no_cache_opt_out ≡ false
      → route.no_cache_matcher ≡ none
      → m ≡ global
      → Rules global route m

effective-Rules :
    (global : Option StatusMatcher) (route : CompiledHttpRoute)
    → Rules global route (effective_no_cache_matcher global route)
unfolding effective_no_cache_matcher
effective-Rules global route =
    if_both (Rules global route) route.no_cache_opt_out _ _ (λ q. opted_out q refl)
      (λ q. elim (Option-cases route.no_cache_matcher) [
        | inl e ↦ overall q e (rw e refl)
        | inr (sm, e) ↦ own sm q e (rw e refl)
      ])

-- A response made from another: its status, the tag's header if the route has a tag, and the headers
-- against caching if the matcher that rules matches the status.
pub record IsMarked (global : Option StatusMatcher) (route : CompiledHttpRoute)
    (base resp : Response) : Type 0 where
  pub matcher : Option StatusMatcher
  pub rules : Rules global route matcher
  pub status : resp.status_code ≡ base.status_code
  pub headers :
      (name : Bytes)
      → lookup name resp.header ≡ (
          let sent =
            if not (is_empty route.via) && eq_bytes (str "X-Caddy-Consul-Via") name
            then some (route.via ∷ [])
            else lookup name base.header in
          if matches matcher base.status_code then against_cache name sent else sent)

pub modify_response-IsMarked :
    (global : Option StatusMatcher) (route : CompiledHttpRoute) (base : Response)
    → IsMarked global route base
        (modify_response (effective_no_cache_matcher global route) route base)
modify_response-IsMarked global route base = record {
  matcher = effective_no_cache_matcher global route;
  rules = effective-Rules global route;
  status = (modify_response_headers (effective_no_cache_matcher global route) route base []).0;
  headers =
      λ name. (modify_response_headers (effective_no_cache_matcher global route) route base name).1;
}
