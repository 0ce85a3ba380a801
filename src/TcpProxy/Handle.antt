-- ===== src/TcpProxy/Handle.antt =====
-- tcp_proxy.go, `handle`: where a connection goes, up to the dial, and what is replayed to it.
use caddy_consul.Base.{
  Bool, true, false, ◌≡◌, refl, sym, ◌∙◌, [], ◌++◌, Option, none, some, ℤ, ℕ, Bool-cases, inl, inr,
}
use caddy_consul.Base.Bytes.{Bytes}
use caddy_consul.Types.{CompiledTcpRoute, Upstream}
use caddy_consul.TcpTable.{TcpTable, TcpPortRoutes, lookup_port, match_sni}
use caddy_consul.TcpSni.{CryptoByte}
use caddy_consul.TcpSni.Peek.{Peeked, peek_client_hello_sni, peek-append}
use caddy_consul.TcpProxy.{pick_upstream}

-- How `handle` ends: it returns at one of its tests, or dials an upstream, to which the replayed
-- bytes go first and then the rest of the connection.
pub data Handled : Type 0 where
  port_gone peek_failed no_route no_upstream : Handled
  forward : Upstream → Bytes → Bytes → Handled

module _ (c : CryptoByte) (intn : ℕ → ℕ) where
  unfoldable pub forward_to : Option Upstream → Bytes → Bytes → Handled
  forward_to none replayed rest = no_upstream
  forward_to (some u) replayed rest = forward u replayed rest

  unfoldable pub route_to : Option CompiledTcpRoute → Bytes → Bytes → Handled
  unfolding forward_to
  route_to none replayed rest = no_route
  route_to (some route) replayed rest =
      forward_to (pick_upstream intn route.upstreams) replayed rest

  unfoldable pub route_peeked : TcpPortRoutes → Bool → Peeked → Handled
  unfolding route_to
  route_peeked pr true p = peek_failed
  route_peeked pr false p = route_to (match_sni pr p.sni) p.buffered p.rest

  -- The peek, if the port has routes with an SNI.
  unfoldable pub peek_and_route : TcpPortRoutes → Bool → Bytes → Handled
  unfolding route_peeked
  peek_and_route pr true stream =
      let p = peek_client_hello_sni c stream in route_peeked pr p.failed p
  peek_and_route pr false stream = route_to (match_sni pr []) [] stream

  unfoldable pub handle_routes : Option TcpPortRoutes → Bytes → Handled
  unfolding peek_and_route
  handle_routes none stream = port_gone
  handle_routes (some pr) stream = peek_and_route pr pr.any_sni stream

  -- `handle`
  unfoldable pub handle : TcpTable → ℤ → Bytes → Handled
  unfolding handle_routes
  handle table port stream = handle_routes (lookup_port table port) stream

  forward_to-forward :
      (o : Option Upstream) (s t : Bytes) (u : Upstream) (replayed rest : Bytes)
      → forward_to o s t ≡ forward u replayed rest
      → (o ≡ some u) × (s ++ t ≡ replayed ++ rest)
  unfolding forward_to
  forward_to-forward none s t u replayed rest h = cc
  forward_to-forward (some v) s t u replayed rest h = (cc, cc)

  -- What a forward says of its arguments.
  route_to-forward :
      (o : Option CompiledTcpRoute) (s t : Bytes) (u : Upstream) (replayed rest : Bytes)
      → route_to o s t ≡ forward u replayed rest
      → (route : CompiledTcpRoute) × (o ≡ some route)
        × (pick_upstream intn route.upstreams ≡ some u)
        × (s ++ t ≡ replayed ++ rest)
  unfolding route_to
  route_to-forward none s t u replayed rest h = cc
  route_to-forward (some route) s t u replayed rest h =
      let (picked, same) =
        forward_to-forward (pick_upstream intn route.upstreams) s t u replayed rest h in
      (route, refl, picked, same)

  peek_and_route-forward :
      (pr : TcpPortRoutes) (b : Bool) (stream : Bytes) (u : Upstream) (replayed rest : Bytes)
      → peek_and_route pr b stream ≡ forward u replayed rest
      → replayed ++ rest ≡ stream
  unfolding peek_and_route route_peeked
  peek_and_route-forward pr false stream u replayed rest h =
      let (route, found, picked, same) =
        route_to-forward (match_sni pr []) [] stream u replayed rest h in
      sym same
  peek_and_route-forward pr true stream u replayed rest h =
      let p = peek_client_hello_sni c stream in
      elim (Bool-cases p.failed) [
        | inl e ↦ absurd (cc (rw e at h))
        | inr e ↦
            let (route, found, picked, same) =
              route_to-forward (match_sni pr p.sni) p.buffered p.rest u replayed rest (rw e at h) in
            sym same ∙ peek-append c stream e
      ]

  handle_routes-forward :
      (o : Option TcpPortRoutes) (stream : Bytes) (u : Upstream) (replayed rest : Bytes)
      → handle_routes o stream ≡ forward u replayed rest
      → replayed ++ rest ≡ stream
  unfolding handle_routes
  handle_routes-forward none stream u replayed rest h = cc
  handle_routes-forward (some pr) stream u replayed rest h =
      peek_and_route-forward pr pr.any_sni stream u replayed rest h

  -- If `handle` forwards a connection, then the upstream gets exactly the bytes of the connection,
  -- in order, whether or not its ClientHello was peeked.
  pub handle_forwards :
      (table : TcpTable) (port : ℤ) (stream : Bytes) (u : Upstream) (replayed rest : Bytes)
      → handle table port stream ≡ forward u replayed rest
      → replayed ++ rest ≡ stream
  unfolding handle
  handle_forwards table port stream u replayed rest h =
      handle_routes-forward (lookup_port table port) stream u replayed rest h
