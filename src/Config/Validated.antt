-- ===== src/Config/Validated.antt =====
-- config.go: settings with nothing set are valid once the defaults are applied.
use caddy_consul.Base.{
  ℕ, ◌≤◌, ◌≡◌, ◌≢◌, refl, inl, inr, true, false, Option, none, some, ℤ, length, ltb, eq_bytes,
  if_both, arith,
}
use caddy_consul.Base.Bytes.{Bytes, str}
use caddy_consul.Config.{new_settings}
use caddy_consul.Config.Defaults.{Environment, apply_defaults, default_scheme}
use caddy_consul.Config.ServiceName.{default_connect_service_name}
use caddy_consul.Config.Validate.{is_service_name, is_scheme, is_half, validate}
use caddy_consul.Config.Defaulted.{default_connect_service_name-IsUsable}

default_scheme-valid : (env : Environment) → is_scheme (default_scheme env) ≡ true
unfolding default_scheme is_scheme eq_bytes
default_scheme-valid env =
    if_both (λ v. is_scheme v ≡ true) (eq_bytes (env (str "CONSUL_HTTP_SSL")) (str "true")) _ _
      (λ q. refl) (λ q. refl)

not_long : (n : ℕ) → n ≤ 63 → ltb 63 n ≡ false
not_long n h = ground (arith, h)

-- If the default durations are durations, the environment names both TLS files or none, and the default
-- service name has more than one character, then settings of which nothing is set are valid with the
-- defaults applied.
pub validate-apply_defaults :
    (parse_duration : Bytes → Option ℤ) (env : Environment) (hostname data_dir : Bytes)
    (debounce drain : ℤ)
    → parse_duration (str "500ms") ≡ some debounce
    → parse_duration (str "30s") ≡ some drain
    → is_half (env (str "CONSUL_CLIENT_CERT")) (env (str "CONSUL_CLIENT_KEY")) ≡ false
    → length (default_connect_service_name hostname) ≢ 1
    → validate parse_duration
        (apply_defaults env (default_connect_service_name hostname) data_dir new_settings)
      ≡ none
unfolding validate apply_defaults eq_bytes
validate-apply_defaults parse_duration env hostname data_dir debounce drain d t half two =
    let name = default_connect_service_name hostname in
    let (short, usable) = default_connect_service_name-IsUsable hostname in
    let valid : is_service_name name ≡ true = elim usable [
      | inl v ↦ v
      | inr one ↦ absurd (two one)
    ] in
    rw (d, t, default_scheme-valid env, half, not_long (length name) short, valid) (ground arith)
