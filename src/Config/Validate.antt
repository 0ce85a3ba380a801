-- ===== src/Config/Validate.antt =====
-- config.go, `validate`. time.ParseDuration is an argument.
use caddy_consul.Base.{
  ℕ, Bool, true, false, not, ◌&&◌, ◌||◌, [], ◌∷◌, Option, none, some, ℤ, length, ltb, eqb, eq_bytes,
  is_empty, if◌then◌else◌,
}
use caddy_consul.Base.Bytes.{Bytes, str}
use caddy_consul.Base.Maps.{is_some}
use caddy_consul.Base.Results.{Result, ok, err}
use caddy_consul.StatusMatch.{parse_status_matcher}
use caddy_consul.Config.{Settings}
use caddy_consul.Config.ServiceName.{is_name_char}

-- The regular expression of a service name: letters, digits and hyphens, none of them at an end, and two
-- characters at least.
unfoldable pub is_alphanumeric : ℕ → Bool
unfolding is_name_char
is_alphanumeric c = is_name_char c && not (eqb c b'-')

unfoldable pub ends_well : Bytes → Bool
unfolding is_alphanumeric
ends_well [] = false
ends_well (c ∷ []) = is_alphanumeric c
ends_well (c ∷ d ∷ s) = is_name_char c && ends_well (d ∷ s)

unfoldable pub is_service_name : Bytes → Bool
unfolding ends_well
is_service_name [] = false
is_service_name (c ∷ s) = is_alphanumeric c && ends_well s

pub data SettingsError : Type 0 where
  bad_health_policy bad_conflict_policy bad_debounce bad_tcp_drain bad_scheme bad_l4_mode half_tls
        bad_no_cache_status long_service_name bad_service_name :
      SettingsError

abbrev pub is_ok : {E A : Type 0} → Result E A → Bool
is_ok (ok a) = true
is_ok (err e) = false

unfoldable pub is_health_policy : Bytes → Bool
is_health_policy v =
    eq_bytes v (str "passing") || (eq_bytes v (str "warning") || eq_bytes v (str "any"))

unfoldable pub is_conflict_policy : Bytes → Bool
is_conflict_policy v = eq_bytes v (str "reject") || eq_bytes v (str "first-wins")

unfoldable pub is_scheme : Bytes → Bool
is_scheme v = eq_bytes v (str "http") || eq_bytes v (str "https")

unfoldable pub is_l4_mode : Bytes → Bool
is_l4_mode v = eq_bytes v (str "global") || eq_bytes v (str "node")

-- One of the two TLS files is set and the other is not.
unfoldable pub is_half : Bytes → Bytes → Bool
is_half cert key = (not (is_empty cert) || not (is_empty key)) && (is_empty cert || is_empty key)

-- `validate`
unfoldable pub validate : (Bytes → Option ℤ) → Settings → Option SettingsError
unfolding is_health_policy is_conflict_policy is_scheme is_l4_mode is_half is_service_name
validate parse_duration c =
    if not (is_health_policy c.health_policy)
    then some bad_health_policy
    else if not (is_conflict_policy c.conflict_policy)
    then some bad_conflict_policy
    else if not (is_some (parse_duration c.debounce_duration))
    then some bad_debounce
    else if not (is_empty c.tcp_drain) && not (is_some (parse_duration c.tcp_drain))
    then some bad_tcp_drain
    else if not (is_scheme c.consul_scheme)
    then some bad_scheme
    else if not (is_l4_mode c.l4_mode)
    then some bad_l4_mode
    else if is_half c.consul_tls_cert c.consul_tls_key
    then some half_tls
    else if not (is_empty c.no_cache_status) && not (is_ok (parse_status_matcher c.no_cache_status))
    then some bad_no_cache_status
    else if ltb 63 (length c.connect_service_name)
    then some long_service_name
    else if not (is_empty c.connect_service_name) && not (is_service_name c.connect_service_name)
    then some bad_service_name
    else none
