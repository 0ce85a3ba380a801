-- ===== src/TcpTable.antt =====
-- tcp_table.go: the in-memory TCP route table. The lock makes each operation atomic; a published
-- `tcpPortRoutes` is never changed, so a reader's pointer is the value that it looked up.
pub mod Groups
pub mod Precedence
use caddy_consul.Base.{
  ℕ, Bool, true, false, not, ◌&&◌, ◌||◌, List, [], ◌∷◌, ◌++◌, map, Option, none, some, ℤ, int_eq,
  eq_bytes, is_empty, length, if◌then◌else◌,
}
use caddy_consul.Base.Bytes.{Bytes, str, to_lower, has_prefix}
use caddy_consul.Base.Maps.{lookup, insert}
use caddy_consul.Types.{CompiledTcpRoute}
use caddy_consul.RouteTable.{match_host}

pub record TcpPortRoutes : Type 0 where
  pub port : ℤ
  pub routes : List CompiledTcpRoute
  pub any_sni : Bool

pub record TcpTable : Type 0 where
  pub by_port : List (ℤ × TcpPortRoutes)

-- `NewTCPTable`
abbrev pub new_tcp_table : TcpTable
new_tcp_table = record { by_port = [] }

abbrev pub needs_sni : CompiledTcpRoute → Bool
needs_sni r = not (is_empty r.sni)

-- `pr := byPort[r.Port]`, or a new entry for the port
unfoldable pub port_entry : List (ℤ × TcpPortRoutes) → ℤ → TcpPortRoutes
port_entry by_port port = elim (lookup port by_port) [
  | none ↦ record { port = port; routes = []; any_sni = false }
  | some pr ↦ pr
]

abbrev pub append_route : TcpPortRoutes → CompiledTcpRoute → TcpPortRoutes
append_route pr r = record pr {
  routes = pr.routes ++ r ∷ [];
  any_sni = if needs_sni r then true else pr.any_sni;
}

-- The loop of `Update`.
unfoldable pub group_by_port :
    List (ℤ × TcpPortRoutes) → List CompiledTcpRoute → List (ℤ × TcpPortRoutes)
unfolding port_entry
group_by_port by_port [] = by_port
group_by_port by_port (r ∷ rs) =
    group_by_port (insert r.port (append_route (port_entry by_port r.port) r) by_port) rs

-- `Update`
unfoldable pub update : TcpTable → List CompiledTcpRoute → TcpTable
update t routes = record t { by_port = group_by_port [] routes }

-- `Lookup`
unfoldable pub lookup_port : TcpTable → ℤ → Option TcpPortRoutes
lookup_port t port = lookup port t.by_port

-- `Ports`
unfoldable pub ports : TcpTable → List ℤ
ports t = map (λ e. e.0) t.by_port

-- `Len`
abbrev pub len : TcpTable → ℕ
len t = length t.by_port

routes_of : List (ℤ × TcpPortRoutes) → List CompiledTcpRoute
routes_of [] = []
routes_of ((p, pr) ∷ m) = pr.routes ++ routes_of m

-- `Snapshot`
unfoldable pub snapshot : TcpTable → List CompiledTcpRoute
unfolding routes_of
snapshot t = routes_of t.by_port

abbrev pub first_or : Option CompiledTcpRoute → CompiledTcpRoute → Option CompiledTcpRoute
first_or none r = some r
first_or (some q) r = some q

-- The second case of the switch, on a route with an SNI.
unfoldable pub is_exact : CompiledTcpRoute → Bytes → Bool
is_exact r sni = eq_bytes (to_lower r.sni) sni

unfoldable pub is_wildcard : CompiledTcpRoute → Bytes → Bool
is_wildcard r sni = has_prefix r.sni (str "*.") && match_host r.sni sni

-- The loop of `match`, with `wildcard` and `dflt`.
unfoldable pub match_from :
    Bytes
    → Option CompiledTcpRoute
    → Option CompiledTcpRoute
    → List CompiledTcpRoute
    → Option CompiledTcpRoute
match_from sni (some w) dflt [] = some w
match_from sni none dflt [] = dflt
match_from sni wildcard dflt (r ∷ rs) =
    let as_default = match_from sni wildcard (first_or dflt r) rs in
    let as_wildcard = match_from sni (first_or wildcard r) dflt rs in
    let as_other = match_from sni wildcard dflt rs in
    if is_empty r.sni
    then as_default
    else if is_exact r sni
    then some r
    else if is_wildcard r sni
    then as_wildcard
    else as_other

abbrev pub first_route : List CompiledTcpRoute → Option CompiledTcpRoute
first_route [] = none
first_route (r ∷ rs) = some r

-- `match`
unfoldable pub match_sni : TcpPortRoutes → Bytes → Option CompiledTcpRoute
match_sni p sni =
    if not p.any_sni then first_route p.routes else match_from (to_lower sni) none none p.routes
