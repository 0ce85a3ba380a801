-- ===== src/Tests/Passes.antt =====
-- consul.go and state.go: one pass of `onServicesChanged`, and a reload after it.
use caddy_consul.Base.{
  ℕ, ◌<◌, ◌≡◌, ◌≢◌, refl, ap, arith, true, false, not, ◌||◌, ◌&&◌, inl, List, [], ◌∷◌, ◌++◌, map,
  Option, none, some, ℤ, pos, int_eq, bytes_eq, All,
}
use caddy_consul.Base.Bytes.{Bytes, str}
use caddy_consul.Base.Results.{ok, err}
use caddy_consul.Compiler.Order.{route_sort}
use caddy_consul.Types.{CompiledHttpRoute}
use caddy_consul.Compiler.{compile}
use caddy_consul.Connect.{Agent, SidecarUpstream, resolve_upstreams}
use caddy_consul.Watcher.{Services, new_consul_watcher}
use caddy_consul.State.{
  empty_state, set_service_states, json_part, without_matcher, Json, FileSystem, load, save,
  hash_routes, encode_hex,
}
use caddy_consul.State.Restored.{HandsOver, load-HandsOver}
use caddy_consul.Router.{RouterConfig, Parsed, parse_services, connect_services, local_services}
use caddy_consul.Router.Converge.{Surroundings, Router, hash_of, wanted_routes, on_services_changed}
use caddy_consul.Router.Modes.{IsGuarded, wanted_routes-IsGuarded}
use caddy_consul.Router.Nodes.{is_left, wanted_routes-node}
use caddy_consul.Router.Applied.{IsApplied}
use caddy_consul.Router.Changed.{on_services_changed-IsApplied}
use caddy_consul.Router.Start.{provision, start_listeners}
use caddy_consul.Router.Reloaded.{IsReloaded, provision-IsReloaded}
use caddy_consul.Tests.Data.{plain_route, tcp_route_5432, upstream_a, tagged_instance, service_with}

abbrev config : RouterConfig
config = record {
  service_tag = str "caddy";
  connect_tag = str "connect";
  service_proxy_enable = false;
  connect_proxy_enable = true;
  l4_mode = str "node";
  node_name = str "n1";
}

abbrev web_upstream : SidecarUpstream
web_upstream = record {
  destination_name = str "web";
  local_bind_address = [];
  local_bind_port = pos 10001;
}

abbrev agent : Agent
agent id = ok (some (web_upstream ∷ []))

abbrev parsed_pair : List Parsed
parsed_pair = (service_with [], plain_route ∷ tcp_route_5432 ∷ []) ∷ []

wanted_routes-IsGuarded_example : All (IsGuarded agent (str "caddy") (str "web" ∷ [])) (
    wanted_routes config
      (some (resolve_upstreams agent (str "caddy")))
      (str "web" ∷ [])
      parsed_pair)
wanted_routes-IsGuarded_example =
    wanted_routes-IsGuarded agent (str "caddy") (str "web" ∷ []) config parsed_pair refl

wanted_routes-node_example :
    All
      (λ r. is_left config.node_name r ≡ true)
      (wanted_routes config
        (some (resolve_upstreams agent (str "caddy")))
        (str "web" ∷ [])
        parsed_pair)
unfolding caddy_consul.Router.is_node_mode caddy_consul.Base.eq_bytes
wanted_routes-node_example =
    wanted_routes-node agent (str "caddy") (str "web" ∷ []) config parsed_pair refl

abbrev hosts_of : List CompiledHttpRoute → Bytes
hosts_of [] = []
hosts_of (r ∷ routes) = r.host ++ hosts_of routes

hosts_of-without_matcher :
    (routes : List CompiledHttpRoute) → hosts_of (map without_matcher routes) ≡ hosts_of routes
hosts_of-without_matcher [] = refl
hosts_of-without_matcher (r ∷ routes) = ap (λ x. r.host ++ x) (hosts_of-without_matcher routes)

abbrev service_map : Services
service_map =
    (str "web", service_with (tagged_instance (str "urlprefix-a.test/" ∷ []) (str "10.0.0.1") ∷ []))
    ∷ []

-- An encoding that knows one state, and a disk that is its text.
abbrev json : Json
json = record {
  marshal = λ s. some (str "{}");
  unmarshal = λ s text. some (json_part (set_service_states empty_state service_map));
}

abbrev text_file : FileSystem Bytes
text_file = record { read_file = λ disk. some disk; write_file = λ disk text. text }

abbrev surroundings : Surroundings Bytes Bytes Bytes
surroundings = record {
  registration = err (str "refused");
  register = λ service. none;
  resolver = none;
  open_port = λ p. ok (str "new");
  by = route_sort;
  marshal_routes = λ routes. some (hosts_of routes);
  sum256 = λ text. 1 ∷ text;
  json = json;
  fs = text_file;
  has_directory = true;
}

abbrev parsed_services : List Parsed
parsed_services =
    (
      service_with (tagged_instance (str "urlprefix-a.test/" ∷ []) (str "10.0.0.1") ∷ []),
      record plain_route {
        weight = pos 0;
        upstreams = record upstream_a { address = str "10.0.0.1:80" } ∷ [];
      }
          ∷ [],
    )
    ∷ []

abbrev direct_config : RouterConfig
direct_config = record config {
  service_proxy_enable = true;
  connect_proxy_enable = false;
  l4_mode = str "global";
}

parses_web : parse_services direct_config service_map ≡ ok parsed_services
unfolding parse_services caddy_consul.Metadata.parse_service_routes
    caddy_consul.Metadata.instance_routes caddy_consul.Base.any caddy_consul.Base.eq_bytes
    caddy_consul.Metadata.Fields.has_any_caddy_meta caddy_consul.Metadata.Fabio.has_any_fabio_tag
    caddy_consul.Base.Bytes.has_prefix caddy_consul.Metadata.Fabio.parse_fabio_tags
    caddy_consul.Metadata.Fabio.parse_fabio_tag caddy_consul.Base.Bytes.trim_prefix
    caddy_consul.Base.Runes.fields caddy_consul.Metadata.Fields.parse_indexed_meta
    caddy_consul.Base.Sorting.insertion_sort caddy_consul.Metadata.Fields.has_non_indexed_meta
    caddy_consul.Metadata.Fabio.fabio_modifiers caddy_consul.Metadata.Fabio.fabio_redirect
    caddy_consul.Base.Bytes.cut caddy_consul.Base.Bytes.has_suffix
    caddy_consul.Base.Bytes.index_byte caddy_consul.Base.Maps.insert caddy_consul.Base.Maps.lookup
    caddy_consul.Metadata.Signature.eq_signature caddy_consul.Metadata.Signature.signature
    caddy_consul.Base.Bytes.trim_suffix caddy_consul.Metadata.Fields.match_indexed_key
    caddy_consul.Base.Decimal.itoa caddy_consul.Metadata.Fabio.modifiers_from
    caddy_consul.Metadata.parse_tag_values
parses_web = refl

abbrev provisioned : Router Bytes Bytes
provisioned =
    provision (pos 0) (pos 80 ∷ pos 443 ∷ []) false
      (record { port_start = 19000; port_end = 19010 }) empty_state []

hash_of-nonempty : (routes : List CompiledHttpRoute) → hash_of surroundings routes ≢ []
unfolding hash_routes encode_hex
hash_of-nonempty routes h = cc h

on_services_changed-IsApplied_example :
    (after : Router Bytes Bytes) × (on_services_changed direct_config surroundings
        new_consul_watcher service_map provisioned
      ≡ ok after)
    × IsApplied surroundings service_map
        (compile surroundings.by (
          wanted_routes direct_config none
            (local_services direct_config parsed_services
              (connect_services direct_config [] parsed_services))
            parsed_services))
        provisioned
        after
unfolding provision
on_services_changed-IsApplied_example =
    on_services_changed-IsApplied direct_config surroundings new_consul_watcher service_map
      provisioned parsed_services parses_web tt hash_of-nonempty (inl refl)

-- What the pass leaves, for the reload after it.
after_pass :
    (after : Router Bytes Bytes) × (on_services_changed direct_config surroundings
        new_consul_watcher service_map provisioned
      ≡ ok after)
    × IsApplied surroundings service_map
        (compile surroundings.by (
          wanted_routes direct_config none
            (local_services direct_config parsed_services
              (connect_services direct_config [] parsed_services))
            parsed_services))
        provisioned
        after
unfolding provision
after_pass =
    on_services_changed-IsApplied direct_config surroundings new_consul_watcher service_map
      provisioned parsed_services parses_web tt hash_of-nonempty (inl refl)

provision-IsReloaded_example :
    IsReloaded surroundings
      (compile surroundings.by (
        wanted_routes direct_config none
          (local_services direct_config parsed_services
            (connect_services direct_config [] parsed_services))
          parsed_services))
      (pos 80 ∷ pos 443 ∷ [])
      (start_listeners surroundings (
        provision
          (pos 0)
          (pos 80 ∷ pos 443 ∷ [])
          false
          (record { port_start = 19000; port_end = 19010 })
          (json_part after_pass.0.state)
          []))
provision-IsReloaded_example =
    provision-IsReloaded surroundings service_map _ provisioned after_pass.0 (pos 0)
      (pos 80 ∷ pos 443 ∷ []) false (record { port_start = 19000; port_end = 19010 }) []
      (λ routes. ap some (hosts_of-without_matcher routes)) after_pass.2

load-HandsOver_example : HandsOver service_map (
    load json text_file
      (save json text_file true [] (set_service_states empty_state service_map))
      empty_state)
load-HandsOver_example =
    load-HandsOver json text_file empty_state service_map (str "{}") [] ((λ m. m, tt), (refl, tt))
      refl refl refl
