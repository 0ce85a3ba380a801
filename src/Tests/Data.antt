-- ===== src/Tests/Data.antt =====
-- Instances, routes and tables for the tests and the witnesses.
use caddy_consul.Base.{true, false, List, [], ◌∷◌, none, pos}
use caddy_consul.Base.Bytes.{Bytes, str}
use caddy_consul.Types.{
  RouteDefinition, Upstream, ServiceInstance, ServiceState, CompiledHttpRoute, CompiledTcpRoute,
  protocol_http, protocol_tcp, direct,
}

abbrev pub upstream_a : Upstream
upstream_a = record {
  address = str "10.0.0.1:80";
  weight = pos 1;
  healthy = true;
  node_name = str "n1";
}

abbrev pub upstream_b : Upstream
upstream_b = record {
  address = str "10.0.0.2:80";
  weight = pos 1;
  healthy = false;
  node_name = str "n2";
}

abbrev pub plain_route : RouteDefinition
plain_route = record {
  service_name = str "web";
  protocol = protocol_http;
  host = str "a.test";
  path = str "/";
  port = pos 0;
  upstream_mode = direct;
  priority = pos 0;
  weight = pos 1;
  strip_prefix = false;
  enabled = true;
  upstreams = upstream_a ∷ upstream_b ∷ [];
  via = [];
  redirect_code = pos 0;
  redirect_url = [];
  redirect_no_cache = false;
  no_cache_status_raw = [];
  has_no_cache_status = false;
  tag_values = [];
}

abbrev pub first_route : RouteDefinition
first_route = record plain_route { service_name = str "api"; priority = pos 5 }

abbrev pub tcp_route_5432 : RouteDefinition
tcp_route_5432 = record plain_route {
  service_name = str "db";
  protocol = protocol_tcp;
  port = pos 5432;
  host = [];
}

abbrev pub odd_route : RouteDefinition
odd_route = record plain_route { service_name = str "odd"; protocol = str "udp" }

-- Two definitions with one host and path, a TCP one and one with an unknown protocol.
abbrev pub definitions : List RouteDefinition
definitions = plain_route ∷ odd_route ∷ tcp_route_5432 ∷ first_route ∷ []

abbrev pub compiled : Bytes → Bytes → CompiledHttpRoute
compiled host path = record {
  host = host;
  path = path;
  upstreams = upstream_a ∷ [];
  strip_prefix = false;
  service_name = str "web";
  via = [];
  redirect_code = pos 0;
  redirect_url = [];
  redirect_no_cache = false;
  no_cache_matcher = none;
  no_cache_opt_out = false;
  tag_values = [];
}

abbrev pub compiled_tcp : Bytes → CompiledTcpRoute
compiled_tcp sni = record {
  port = pos 5432;
  sni = sni;
  upstreams = upstream_a ∷ [];
  passthrough = false;
  service_name = str "db";
}

abbrev pub tagged_instance : List Bytes → Bytes → ServiceInstance
tagged_instance tags address = record {
  id = address;
  address = address;
  port = pos 80;
  tags = tags;
  meta = [];
  healthy = true;
  weight = pos 1;
  node_name = str "n1";
}

abbrev pub service_with : List ServiceInstance → ServiceState
service_with instances = record {
  name = str "web";
  tags = [];
  meta = [];
  instances = instances;
  last_index = 1;
}
