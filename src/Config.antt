-- ===== src/Config.antt =====
-- config.go and the settings of consul.go: the options of the Caddyfile's block. A token says whether it
-- is the first one of its line; d.NextArg takes a token of the same line, and d.NextBlock any one.
pub mod Defaults
pub mod Validate
pub mod ServiceName
pub mod Defaulted
pub mod Validated
use caddy_consul.Base.{
  Bool, true, false, not, ◌||◌, List, [], ◌∷◌, Option, none, some, ℤ, pos, lt_int, eq_bytes,
  bytes_eq, is_empty, if◌then◌else◌,
}
use caddy_consul.Base.Bytes.{Bytes, str}
use caddy_consul.Base.Decimal.{atoi}
use caddy_consul.Base.Maps.{lookup}
use caddy_consul.Base.Results.{Result, ok, err}

-- The settings of `ConsulRouter`; a `*bool` that may be nil is an `Option`.
pub record Settings : Type 0 where
  pub consul_addr : Bytes
  pub consul_token : Bytes
  pub consul_scheme : Bytes
  pub consul_dc : Bytes
  pub consul_tls_ca : Bytes
  pub consul_tls_cert : Bytes
  pub consul_tls_key : Bytes
  pub consul_tls_skip_verify : Bool
  pub service_proxy_enable : Option Bool
  pub health_policy : Bytes
  pub conflict_policy : Bytes
  pub connect_proxy_enable : Option Bool
  pub debounce_duration : Bytes
  pub poll_interval : Bytes
  pub full_sync_interval : Bytes
  pub tcp_drain : Bytes
  pub connect_service_name : Bytes
  pub connect_auto_register : Option Bool
  pub caddy_admin_api : Bytes
  pub service_tag : Bytes
  pub connect_tag : Bytes
  pub connect_port_start : ℤ
  pub connect_port_end : ℤ
  pub data_dir : Bytes
  pub metrics : Bytes
  pub l4_mode : Bytes
  pub l4_node_hostname : Bytes
  pub no_cache_status : Bytes

-- `new(ConsulRouter)`
abbrev pub new_settings : Settings
new_settings = record {
  consul_addr = [];
  consul_token = [];
  consul_scheme = [];
  consul_dc = [];
  consul_tls_ca = [];
  consul_tls_cert = [];
  consul_tls_key = [];
  consul_tls_skip_verify = false;
  service_proxy_enable = none;
  health_policy = [];
  conflict_policy = [];
  connect_proxy_enable = none;
  debounce_duration = [];
  poll_interval = [];
  full_sync_interval = [];
  tcp_drain = [];
  connect_service_name = [];
  connect_auto_register = none;
  caddy_admin_api = [];
  service_tag = [];
  connect_tag = [];
  connect_port_start = pos 0;
  connect_port_end = pos 0;
  data_dir = [];
  metrics = [];
  l4_mode = [];
  l4_node_hostname = [];
  no_cache_status = [];
}

pub record Token : Type 0 where
  pub text : Bytes
  pub starts_line : Bool

-- Why the block is refused: an option without its argument, an option that is not known, or a value that
-- the option does not take.
pub data OptionError : Type 0 where
  missing_argument unrecognized : Bytes → OptionError
  bad_value : Bytes → Bytes → OptionError

-- The options that take any text.
abbrev pub text_options : List (Bytes × (Bytes → Settings → Settings))
text_options =
    (str "address", λ v c. record c { consul_addr = v })
    ∷ (str "token", λ v c. record c { consul_token = v })
    ∷ (str "datacenter", λ v c. record c { consul_dc = v })
    ∷ (str "tls_ca", λ v c. record c { consul_tls_ca = v })
    ∷ (str "tls_cert", λ v c. record c { consul_tls_cert = v })
    ∷ (str "tls_key", λ v c. record c { consul_tls_key = v })
    ∷ (str "health_policy", λ v c. record c { health_policy = v })
    ∷ (str "conflict_policy", λ v c. record c { conflict_policy = v })
    ∷ (str "connect_service_name", λ v c. record c { connect_service_name = v })
    ∷ (str "poll_interval", λ v c. record c { poll_interval = v })
    ∷ (str "full_sync_interval", λ v c. record c { full_sync_interval = v })
    ∷ (str "debounce", λ v c. record c { debounce_duration = v })
    ∷ (str "caddy_admin_api", λ v c. record c { caddy_admin_api = v })
    ∷ (str "service_tag", λ v c. record c { service_tag = v })
    ∷ (str "connect_tag", λ v c. record c { connect_tag = v })
    ∷ (str "data_dir", λ v c. record c { data_dir = v })
    ∷ (str "metrics", λ v c. record c { metrics = v })
    ∷ (str "l4_node_hostname", λ v c. record c { l4_node_hostname = v })
    ∷ (str "no_cache_status", λ v c. record c { no_cache_status = v })
    ∷ (str "tcp_drain", λ v c. record c { tcp_drain = v })
    ∷ []

-- "true" or "false"
unfoldable pub parse_bool : Bytes → Option Bool
parse_bool v =
    if eq_bytes v (str "true")
    then some true
    else if eq_bytes v (str "false")
    then some false
    else none

-- The options that take one of two values.
abbrev pub bool_options : List (Bytes × (Bool → Settings → Settings))
bool_options =
    (str "insecure_skip_verify", λ b c. record c { consul_tls_skip_verify = b })
    ∷ (str "service_proxy_enable", λ b c. record c { service_proxy_enable = some b })
    ∷ (str "connect_proxy_enable", λ b c. record c { connect_proxy_enable = some b })
    ∷ (str "connect_auto_register", λ b c. record c { connect_auto_register = some b })
    ∷ []

-- The options that take a positive number.
abbrev pub port_options : List (Bytes × (ℤ → Settings → Settings))
port_options =
    (str "connect_port_range_start", λ n c. record c { connect_port_start = n })
    ∷ (str "connect_port_range_end", λ n c. record c { connect_port_end = n })
    ∷ []

unfoldable pub parse_port : Bytes → Option ℤ
parse_port v = elim (atoi v) [ none ↦ none | some n ↦ if lt_int n (pos 1) then none else some n ]

-- The options that take one of the two texts.
abbrev pub choice_options : List (Bytes × (Bytes × Bytes × (Bytes → Settings → Settings)))
choice_options =
    (str "scheme", (str "http", str "https", λ v c. record c { consul_scheme = v }))
    ∷ (str "l4_mode", (str "global", str "node", λ v c. record c { l4_mode = v }))
    ∷ []

-- A value that is parsed, or the error of its option.
unfoldable pub set_parsed :
    {A : Type 0}
    → Bytes
    → Bytes
    → (A → Settings → Settings)
    → Option A
    → Settings
    → Result OptionError Settings
set_parsed name v set none c = err (bad_value name v)
set_parsed name v set (some a) c = ok (set a c)

unfoldable pub set_choice :
    Bytes
    → Bytes
    → Bytes × Bytes × (Bytes → Settings → Settings)
    → Settings
    → Result OptionError Settings
set_choice name v (one, other, set) c =
    if eq_bytes v one || eq_bytes v other then ok (set v c) else err (bad_value name v)

-- What an option does with its argument; none if it is not known.
unfoldable pub option_of : Bytes → Option (Bytes → Settings → Result OptionError Settings)
unfolding parse_bool parse_port set_parsed set_choice
option_of name = elim (lookup name text_options) [
  | some set ↦ some (λ v c. ok (set v c))
  | none ↦ elim (lookup name bool_options) [
    | some set ↦ some (λ v c. set_parsed name v set (parse_bool v) c)
    | none ↦ elim (lookup name port_options) [
      | some set ↦ some (λ v c. set_parsed name v set (parse_port v) c)
      | none ↦ elim (lookup name choice_options) [
        | some choice ↦ some (λ v c. set_choice name v choice c)
        | none ↦ none
      ]
    ]
  ]
]

-- `UnmarshalCaddyfile`, on the tokens of the block
unfoldable pub unmarshal_caddyfile : Settings → List Token → Result OptionError Settings
unfolding option_of
unmarshal_caddyfile c [] = ok c
unmarshal_caddyfile c (t ∷ []) = elim (option_of t.text) [
  | none ↦ err (unrecognized t.text)
  | some set ↦ err (missing_argument t.text)
]
unmarshal_caddyfile c (t ∷ a ∷ tokens) = elim (option_of t.text) [
  | none ↦ err (unrecognized t.text)
  | some set ↦
      if a.starts_line
      then err (missing_argument t.text)
      else elim (set a.text c) [ err e ↦ err e | ok d ↦ unmarshal_caddyfile d tokens ]
]
