-- ===== src/Tests/Settings.antt =====
-- config.go on small inputs.
use caddy_consul.Base.{
  ◌≡◌, refl, sym, ◌∙◌, ap, arith, true, false, List, [], ◌∷◌, Option, none, some, ℤ, pos, length,
  eq_bytes, if◌then◌else◌,
}
use caddy_consul.Base.Bytes.{Bytes, str}
use caddy_consul.Base.Results.{ok, err}
use caddy_consul.Config.{
  Settings, Token, new_settings, unmarshal_caddyfile, missing_argument, bad_value, unrecognized,
}
use caddy_consul.Config.Defaults.{apply_defaults}
use caddy_consul.Config.ServiceName.{default_connect_service_name}
use caddy_consul.Config.Defaulted.{IsUsable, default_connect_service_name-IsUsable}
use caddy_consul.Config.Validate.{validate}
use caddy_consul.Config.Validated.{validate-apply_defaults}

abbrev word : Bytes → Token
word text = record { text = text; starts_line = false }

abbrev line : Bytes → Token
line text = record { text = text; starts_line = true }

sets_options :
    unmarshal_caddyfile new_settings (
      line (str "service_tag")
      ∷ word (str "web")
      ∷ line (str "connect_port_range_start")
      ∷ word (str "2")
      ∷ line (str "connect_proxy_enable")
      ∷ word (str "true")
      ∷ [])
    ≡ ok (record new_settings {
      service_tag = str "web";
      connect_port_start = pos 2;
      connect_proxy_enable = some true;
    })
unfolding unmarshal_caddyfile caddy_consul.Base.Maps.lookup eq_bytes caddy_consul.Base.Decimal.atoi
sets_options = refl

wants_argument :
    unmarshal_caddyfile new_settings (line (str "token") ∷ line (str "scheme") ∷ [])
    ≡ err (missing_argument (str "token"))
unfolding unmarshal_caddyfile caddy_consul.Base.Maps.lookup eq_bytes
wants_argument = refl

wants_scheme :
    unmarshal_caddyfile new_settings (line (str "scheme") ∷ word (str "ftp") ∷ [])
    ≡ err (bad_value (str "scheme") (str "ftp"))
unfolding unmarshal_caddyfile caddy_consul.Base.Maps.lookup eq_bytes
wants_scheme = refl

names_host : default_connect_service_name (str "Edge_1.") ≡ str "edge-1--caddy-consul"
unfolding default_connect_service_name caddy_consul.Base.Runes.runes
names_host = refl

abbrev durations : Bytes → Option ℤ
durations text =
    if eq_bytes text (str "500ms")
    then some (pos 500000000)
    else if eq_bytes text (str "30s")
    then some (pos 30000000000)
    else none

default_connect_service_name-IsUsable_example :
    IsUsable (default_connect_service_name (str "Edge_1."))
default_connect_service_name-IsUsable_example =
    default_connect_service_name-IsUsable (str "Edge_1.")

validate-apply_defaults_example :
    validate durations (
      apply_defaults
        (λ name. [])
        (default_connect_service_name (str "Edge_1."))
        (str "/data")
        new_settings)
    ≡ none
unfolding eq_bytes caddy_consul.Config.Validate.is_half
validate-apply_defaults_example =
    validate-apply_defaults durations (λ name. []) (str "Edge_1.") (str "/data") (pos 500000000)
      (pos 30000000000) refl refl refl (λ h. absurd (omega (arith, sym (ap length names_host) ∙ h)))
