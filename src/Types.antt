-- ===== src/Types.antt =====
-- types.go: the data shared by the parser, the compiler, the tables and the watcher. A Go `int` is
-- a ℤ, a `uint64` index a ℕ, a string a list of bytes; a nil slice or map and an empty one are
-- the same empty list, and a `*StatusMatcher` that may be nil is an `Option`.
use caddy_consul.Base.{
  true, false, ℕ, Bool, ◌&&◌, not, List, [], ◌∷◌, map, Option, ℤ, pos, lt_int, is_empty,
}
use caddy_consul.Base.Bytes.{Bytes, str}
use caddy_consul.StatusMatch.{StatusMatcher}

-- `Protocol` is a string type: any text can stand in it.
abbrev pub Protocol : Type 0
Protocol = Bytes

abbrev pub protocol_http : Protocol
protocol_http = str "http"

abbrev pub protocol_https : Protocol
protocol_https = str "https"

abbrev pub protocol_tcp : Protocol
protocol_tcp = str "tcp"

abbrev pub protocol_tls_passthrough : Protocol
protocol_tls_passthrough = str "tls-passthrough"

-- `unset` is the zero value, the empty string.
pub data UpstreamMode : Type 0 where
  unset direct connect_sidecar : UpstreamMode

-- `UpstreamMode.IsConnect`
unfoldable pub is_connect : UpstreamMode → Bool
is_connect unset = false
is_connect direct = false
is_connect connect_sidecar = true

pub data HealthPolicy : Type 0 where
  passing_policy warning_policy any_policy : HealthPolicy

pub data ChangeType : Type 0 where
  added updated removed : ChangeType

pub data ConflictType : Type 0 where
  duplicate_host_path duplicate_port_sni conflicting_tls static_wins : ConflictType

abbrev pub Meta : Type 0
Meta = List (Bytes × Bytes)

pub record ServiceInstance : Type 0 where
  pub id : Bytes
  pub address : Bytes
  pub port : ℤ
  pub tags : List Bytes
  pub meta : Meta
  pub healthy : Bool
  pub weight : ℤ
  pub node_name : Bytes

pub record ServiceState : Type 0 where
  pub name : Bytes
  pub tags : List Bytes
  pub meta : Meta
  pub instances : List ServiceInstance
  pub last_index : ℕ

-- `for k, v := range src { dst[k] = v }` into a new map of the same keys.
copy_meta : Meta → Meta
copy_meta [] = []
copy_meta ((k, v) ∷ m) = (k, v) ∷ copy_meta m

-- `copy(dst, src)` into a new slice of the same length.
copy_tags : List Bytes → List Bytes
copy_tags [] = []
copy_tags (t ∷ ts) = t ∷ copy_tags ts

-- `ServiceInstance.clone`: a copy of the fields, and new slices and maps for the references.
unfoldable pub clone_instance : ServiceInstance → ServiceInstance
unfolding copy_meta copy_tags
clone_instance si = record si { tags = copy_tags si.tags; meta = copy_meta si.meta }

-- `(*ServiceState).clone`
unfoldable pub clone : ServiceState → ServiceState
unfolding copy_meta copy_tags clone_instance
clone s = record {
  name = s.name;
  tags = copy_tags s.tags;
  meta = copy_meta s.meta;
  instances = map clone_instance s.instances;
  last_index = s.last_index;
}

pub record ServiceChange : Type 0 where
  pub type : ChangeType
  pub service : ServiceState

pub record Upstream : Type 0 where
  pub address : Bytes
  pub weight : ℤ
  pub healthy : Bool
  pub node_name : Bytes

pub record RouteDefinition : Type 0 where
  pub service_name : Bytes
  pub protocol : Protocol
  pub host : Bytes
  pub path : Bytes
  pub port : ℤ
  pub upstream_mode : UpstreamMode
  pub priority : ℤ
  pub weight : ℤ
  pub strip_prefix : Bool
  pub enabled : Bool
  pub upstreams : List Upstream
  pub via : Bytes
  pub redirect_code : ℤ
  pub redirect_url : Bytes
  pub redirect_no_cache : Bool
  pub no_cache_status_raw : Bytes
  pub has_no_cache_status : Bool
  pub tag_values : Meta

-- `(*RouteDefinition).IsRedirect`
unfoldable pub is_redirect : RouteDefinition → Bool
is_redirect rd = lt_int (pos 0) rd.redirect_code && not (is_empty rd.redirect_url)

pub record Conflict : Type 0 where
  pub type : ConflictType
  pub winner : RouteDefinition
  pub loser : RouteDefinition
  pub reason : Bytes

pub record CompiledHttpRoute : Type 0 where
  pub host : Bytes
  pub path : Bytes
  pub upstreams : List Upstream
  pub strip_prefix : Bool
  pub service_name : Bytes
  pub via : Bytes
  pub redirect_code : ℤ
  pub redirect_url : Bytes
  pub redirect_no_cache : Bool
  pub no_cache_matcher : Option StatusMatcher
  pub no_cache_opt_out : Bool
  pub tag_values : Meta

pub record CompiledTcpRoute : Type 0 where
  pub port : ℤ
  pub sni : Bytes
  pub upstreams : List Upstream
  pub passthrough : Bool
  pub service_name : Bytes

pub record CompiledConfig : Type 0 where
  pub http_routes : List CompiledHttpRoute
  pub tcp_routes : List CompiledTcpRoute
  pub conflicts : List Conflict
  pub warnings : List Bytes
