-- ===== src/TcpTable/Precedence.antt =====
-- The precedence of `match`: an exact SNI, then a wildcard, then the route with no SNI.
use caddy_consul.Base.{
  Bool, true, ◌&&◌, ◌≡◌, refl, List, [], ◌∷◌, Option, none, some, arith, is_empty, find,
}
use caddy_consul.Base.Bytes.{Bytes, to_lower}
use caddy_consul.Types.{CompiledTcpRoute}
use caddy_consul.TcpTable.{TcpPortRoutes, needs_sni, is_exact, is_wildcard, match_from, match_sni}

abbrev pub or_else : Option CompiledTcpRoute → Option CompiledTcpRoute → Option CompiledTcpRoute
or_else none o = o
or_else (some r) o = some r

abbrev pub exact_for : Bytes → CompiledTcpRoute → Bool
exact_for sni r = needs_sni r && is_exact r sni

abbrev pub wildcard_for : Bytes → CompiledTcpRoute → Bool
wildcard_for sni r = needs_sni r && is_wildcard r sni

abbrev pub default_route : CompiledTcpRoute → Bool
default_route r = is_empty r.sni

match_from-find :
    (sni : Bytes) (wildcard dflt : Option CompiledTcpRoute) (rs : List CompiledTcpRoute)
    → match_from sni wildcard dflt rs
      ≡ or_else (find (exact_for sni) rs) (
          or_else
            (or_else wildcard (find (wildcard_for sni) rs))
            (or_else dflt (find default_route rs)))
unfolding match_from find
match_from-find sni none none [] = refl
match_from-find sni none (some d) [] = refl
match_from-find sni (some w) dflt [] = refl
match_from-find sni none none (r ∷ rs) = ground (
  arith,
  match_from-find sni none (some r) rs,
  match_from-find sni (some r) none rs,
  match_from-find sni none none rs,
)
match_from-find sni none (some d) (r ∷ rs) =
    ground (arith, match_from-find sni none (some d) rs, match_from-find sni (some r) (some d) rs)
match_from-find sni (some w) none (r ∷ rs) =
    ground (arith, match_from-find sni (some w) none rs, match_from-find sni (some w) (some r) rs)
match_from-find sni (some w) (some d) (r ∷ rs) =
    ground (arith, match_from-find sni (some w) (some d) rs)

-- On a port with some SNI route, `match` returns the first route whose SNI is the peeked name, up
-- to case; else the first wildcard that covers it; else the first route with no SNI.
pub match_sni_precedence :
    (p : TcpPortRoutes) (sni : Bytes)
    → p.any_sni ≡ true
    → match_sni p sni
      ≡ or_else
          (find (exact_for (to_lower sni)) p.routes)
          (or_else (find (wildcard_for (to_lower sni)) p.routes) (find default_route p.routes))
unfolding match_sni
match_sni_precedence p sni h = rw h (match_from-find (to_lower sni) none none p.routes)
