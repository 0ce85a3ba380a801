-- ===== src/Tests/Handle.antt =====
-- tcp_proxy.go, `handle`, on a port with an SNI route and a default one.
use caddy_consul.Base.{ℕ, ◌≡◌, refl, true, List, [], ◌∷◌, ◌++◌, pos, int_eq}
use caddy_consul.Base.Bytes.{Bytes, str}
use caddy_consul.TcpTable.{TcpTable, new_tcp_table, update}
use caddy_consul.TcpProxy.Handle.{forward, port_gone, handle, handle_forwards}
use caddy_consul.Tests.Data.{compiled_tcp, upstream_a}
use caddy_consul.Tests.CryptoBytes.{crypto_byte}

abbrev always_first : ℕ → ℕ
always_first n = 0

abbrev sni_table : TcpTable
sni_table = update new_tcp_table (compiled_tcp (str "a.test") ∷ compiled_tcp [] ∷ [])

-- No ClientHello: the default route, and the five bytes that were read are replayed.
forwards_greeting :
    handle crypto_byte always_first sni_table (pos 5432) (str "SSH-2.0")
    ≡ forward upstream_a (str "SSH-2") (str ".0")
unfolding handle caddy_consul.TcpTable.lookup_port caddy_consul.Base.Maps.lookup update
    caddy_consul.TcpTable.group_by_port caddy_consul.Base.Maps.insert
    caddy_consul.TcpSni.Peek.peek_client_hello_sni caddy_consul.TcpTable.match_sni
    caddy_consul.TcpTable.match_from caddy_consul.TcpTable.is_exact caddy_consul.Base.eq_bytes
    caddy_consul.Base.Bytes.to_lower caddy_consul.TcpTable.is_wildcard
    caddy_consul.Base.Bytes.has_prefix caddy_consul.TcpProxy.pick_upstream caddy_consul.Base.filter
forwards_greeting = refl

no_such_port : handle crypto_byte always_first sni_table (pos 80) (str "SSH-2.0") ≡ port_gone
unfolding handle caddy_consul.TcpTable.lookup_port caddy_consul.Base.Maps.lookup update
    caddy_consul.TcpTable.group_by_port caddy_consul.Base.Maps.insert
no_such_port = refl

handle_forwards_example : str "SSH-2" ++ str ".0" ≡ str "SSH-2.0"
handle_forwards_example =
    handle_forwards crypto_byte always_first sni_table (pos 5432) (str "SSH-2.0") upstream_a
      (str "SSH-2") (str ".0") forwards_greeting
