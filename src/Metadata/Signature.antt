-- ===== src/Metadata/Signature.antt =====
-- `routeSignature`: what two routes share that are merged into one.
use caddy_consul.Base.{
  Bool, true, false, not, ◌&&◌, ◌≡◌, ◌↔◌, arith, ℤ, eq_int, eq_int_iff, eq_bytes, eq_bytes_iff, Eq,
}
use caddy_consul.Base.Bytes.{Bytes}
use caddy_consul.Types.{RouteDefinition, Protocol}

pub record RouteSignature : Type 0 where
  pub protocol : Protocol
  pub host : Bytes
  pub path : Bytes
  pub port : ℤ
  pub priority : ℤ
  pub weight : ℤ
  pub strip_prefix : Bool
  pub enabled : Bool
  pub redirect_code : ℤ
  pub redirect_url : Bytes
  pub redirect_no_cache : Bool
  pub no_cache_status_raw : Bytes
  pub has_no_cache_status : Bool

unfoldable pub signature : RouteDefinition → RouteSignature
signature r = record {
  protocol = r.protocol;
  host = r.host;
  path = r.path;
  port = r.port;
  priority = r.priority;
  weight = r.weight;
  strip_prefix = r.strip_prefix;
  enabled = r.enabled;
  redirect_code = r.redirect_code;
  redirect_url = r.redirect_url;
  redirect_no_cache = r.redirect_no_cache;
  no_cache_status_raw = r.no_cache_status_raw;
  has_no_cache_status = r.has_no_cache_status;
}

abbrev eq_bool : Bool → Bool → Bool
eq_bool true b = b
eq_bool false b = not b

eq_bool_iff : (a b : Bool) → (eq_bool a b ≡ true) ↔ (a ≡ b)
eq_bool_iff true b = ground arith
eq_bool_iff false b = ground arith

-- Where the traffic comes from.
same_match : RouteSignature → RouteSignature → Bool
same_match a b =
    eq_bytes a.protocol b.protocol
    && eq_bytes a.host b.host
    && eq_bytes a.path b.path
    && eq_int a.port b.port
    && eq_int a.priority b.priority
    && eq_int a.weight b.weight

-- What is done with it.
same_action : RouteSignature → RouteSignature → Bool
same_action a b =
    eq_bool a.strip_prefix b.strip_prefix
    && eq_bool a.enabled b.enabled
    && eq_int a.redirect_code b.redirect_code
    && eq_bytes a.redirect_url b.redirect_url
    && eq_bool a.redirect_no_cache b.redirect_no_cache
    && eq_bytes a.no_cache_status_raw b.no_cache_status_raw
    && eq_bool a.has_no_cache_status b.has_no_cache_status

-- `==` on the struct: field by field.
unfoldable pub eq_signature : RouteSignature → RouteSignature → Bool
unfolding same_match same_action
eq_signature a b = same_match a b && same_action a b

same_match_parts :
    (a b : RouteSignature)
    → same_match a b ≡ true
    → (a.protocol ≡ b.protocol)
      × (a.host ≡ b.host)
      × (a.path ≡ b.path)
      × (a.port ≡ b.port)
      × (a.priority ≡ b.priority)
      × (a.weight ≡ b.weight)
unfolding same_match
same_match_parts a b h = ground (
  arith,
  eq_bytes_iff a.protocol b.protocol,
  eq_bytes_iff a.host b.host,
  eq_bytes_iff a.path b.path,
  eq_int_iff a.port b.port,
  eq_int_iff a.priority b.priority,
  eq_int_iff a.weight b.weight,
)

same_action_parts :
    (a b : RouteSignature)
    → same_action a b ≡ true
    → (a.strip_prefix ≡ b.strip_prefix)
      × (a.enabled ≡ b.enabled)
      × (a.redirect_code ≡ b.redirect_code)
      × (a.redirect_url ≡ b.redirect_url)
      × (a.redirect_no_cache ≡ b.redirect_no_cache)
      × (a.no_cache_status_raw ≡ b.no_cache_status_raw)
      × (a.has_no_cache_status ≡ b.has_no_cache_status)
unfolding same_action
same_action_parts a b h = ground (
  arith,
  eq_bool_iff a.strip_prefix b.strip_prefix,
  eq_bool_iff a.enabled b.enabled,
  eq_int_iff a.redirect_code b.redirect_code,
  eq_bytes_iff a.redirect_url b.redirect_url,
  eq_bool_iff a.redirect_no_cache b.redirect_no_cache,
  eq_bytes_iff a.no_cache_status_raw b.no_cache_status_raw,
  eq_bool_iff a.has_no_cache_status b.has_no_cache_status,
)

same_match_refl : (a : RouteSignature) → same_match a a ≡ true
unfolding same_match
same_match_refl a = ground (
  arith,
  eq_bytes_iff a.protocol a.protocol,
  eq_bytes_iff a.host a.host,
  eq_bytes_iff a.path a.path,
  eq_int_iff a.port a.port,
  eq_int_iff a.priority a.priority,
  eq_int_iff a.weight a.weight,
)

same_action_refl : (a : RouteSignature) → same_action a a ≡ true
unfolding same_action
same_action_refl a = ground (
  arith,
  eq_bool_iff a.strip_prefix a.strip_prefix,
  eq_bool_iff a.enabled a.enabled,
  eq_int_iff a.redirect_code a.redirect_code,
  eq_bytes_iff a.redirect_url a.redirect_url,
  eq_bool_iff a.redirect_no_cache a.redirect_no_cache,
  eq_bytes_iff a.no_cache_status_raw a.no_cache_status_raw,
  eq_bool_iff a.has_no_cache_status a.has_no_cache_status,
)

pub eq_signature_iff : (a b : RouteSignature) → (eq_signature a b ≡ true) ↔ (a ≡ b)
unfolding eq_signature
eq_signature_iff a b = (
  (λ h.
      let p = same_match_parts a b (ground arith) in
      let q = same_action_parts a b (ground arith) in
      λ i. record {
        protocol = p.0 i;
        host = p.1 i;
        path = p.2 i;
        port = p.3 i;
        priority = p.4 i;
        weight = p.5 i;
        strip_prefix = q.0 i;
        enabled = q.1 i;
        redirect_code = q.2 i;
        redirect_url = q.3 i;
        redirect_no_cache = q.4 i;
        no_cache_status_raw = q.5 i;
        has_no_cache_status = q.6 i;
      }),
  (λ e. rw e (ground (arith, same_match_refl b, same_action_refl b))),
)

instance abbrev pub signature_eq : Eq RouteSignature
signature_eq = record { same_as = eq_signature; same_iff = eq_signature_iff }
