-- ===== src/Config/Defaults.antt =====
-- config.go: the values of settings that are not set, and the typed values. The environment, the
-- directory of Caddy's data, the default name and time.ParseDuration are arguments.
use caddy_consul.Base.{
  Bool, true, false, Option, none, some, ℤ, pos, eq_int, eq_bytes, is_empty, if◌then◌else◌,
}
use caddy_consul.Base.Bytes.{Bytes, str}
use caddy_consul.Types.{HealthPolicy, passing_policy, warning_policy, any_policy}
use caddy_consul.Config.{Settings}

-- `os.Getenv`, which gives an empty text for a variable that is not set.
abbrev pub Environment : Type 0
Environment = Bytes → Bytes

abbrev pub or_text : Bytes → Bytes → Bytes
or_text v default_val = if is_empty v then default_val else v

-- `envOrDefault`
unfoldable pub env_or_default : Environment → Bytes → Bytes → Bytes
env_or_default env key default_val = or_text (env key) default_val

abbrev pub or_bool : Option Bool → Bool → Option Bool
or_bool none b = some b
or_bool (some a) b = some a

abbrev pub or_port : ℤ → ℤ → ℤ
or_port n default_val = if eq_int n (pos 0) then default_val else n

unfoldable pub default_scheme : Environment → Bytes
default_scheme env =
    if eq_bytes (env (str "CONSUL_HTTP_SSL")) (str "true") then str "https" else str "http"

-- `applyDefaults`
unfoldable pub apply_defaults : Environment → Bytes → Bytes → Settings → Settings
unfolding env_or_default default_scheme
apply_defaults env service_name data_dir c = record c {
  consul_addr =
      or_text c.consul_addr (env_or_default env (str "CONSUL_HTTP_ADDR") (str "127.0.0.1:8500"));
  consul_token = or_text c.consul_token (env (str "CONSUL_HTTP_TOKEN"));
  consul_scheme = or_text c.consul_scheme (default_scheme env);
  consul_tls_ca = or_text c.consul_tls_ca (env (str "CONSUL_CACERT"));
  consul_tls_cert = or_text c.consul_tls_cert (env (str "CONSUL_CLIENT_CERT"));
  consul_tls_key = or_text c.consul_tls_key (env (str "CONSUL_CLIENT_KEY"));
  service_proxy_enable = or_bool c.service_proxy_enable true;
  health_policy = or_text c.health_policy (str "passing");
  conflict_policy = or_text c.conflict_policy (str "reject");
  connect_proxy_enable = or_bool c.connect_proxy_enable false;
  debounce_duration = or_text c.debounce_duration (str "500ms");
  poll_interval = or_text c.poll_interval (str "50ms");
  full_sync_interval = or_text c.full_sync_interval (str "5m");
  connect_service_name = or_text c.connect_service_name service_name;
  connect_auto_register = or_bool c.connect_auto_register true;
  caddy_admin_api = or_text c.caddy_admin_api (str "localhost:2019");
  service_tag = or_text c.service_tag (str "caddy-consul");
  connect_tag = or_text c.connect_tag (str "caddy-consul-connect");
  connect_port_start = or_port c.connect_port_start (pos 19000);
  connect_port_end = or_port c.connect_port_end (pos 29000);
  data_dir = or_text c.data_dir data_dir;
  l4_mode = or_text c.l4_mode (str "global");
  tcp_drain = or_text c.tcp_drain (str "30s");
}

-- `parsedHealthPolicy`
unfoldable pub parsed_health_policy : Settings → HealthPolicy
parsed_health_policy c =
    if eq_bytes c.health_policy (str "warning")
    then warning_policy
    else if eq_bytes c.health_policy (str "any")
    then any_policy
    else passing_policy

-- `parsedDebounceDuration`, `parsedPollInterval`, `parsedFullSyncInterval` and `parsedTCPDrain`: zero
-- for a text that is no duration.
abbrev pub duration_or_zero : (Bytes → Option ℤ) → Bytes → ℤ
duration_or_zero parse_duration text = elim (parse_duration text) [ none ↦ pos 0 | some d ↦ d ]

-- `boolVal`
unfoldable pub bool_val : Option Bool → Bool
bool_val none = false
bool_val (some b) = b
