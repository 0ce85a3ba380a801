-- ===== src/Compiler/Keys.antt =====
-- What the two keys tell apart.
use caddy_consul.Base.{
  ℕ, suc, ◌≡◌, ◌≢◌, refl, sym, ap, [], ◌∷◌, ◌++◌, Option, none, some, inl, arith, ℤ, pos, negsuc,
  is_empty, if◌then◌else◌,
}
use caddy_consul.Base.Bytes.{Bytes, str, Lacks, cut, cut-Lacks, cut-none}
use caddy_consul.Base.Decimal.{itoa, digits, digits-injective, digits-Lacks}
use caddy_consul.Compiler.{http_route_key, tcp_route_key}

itoa-Lacks : (z : ℤ) → Lacks b'/' (itoa z)
unfolding itoa
itoa-Lacks (pos n) = digits-Lacks b'/' n (inl (omega arith))
itoa-Lacks (negsuc n) = (omega arith, digits-Lacks b'/' (suc n) (inl (omega arith)))

minus_not_digits : (m n : ℕ) → digits m ≢ b'-' ∷ digits n
minus_not_digits m n e = (rw e at (digits-Lacks b'-' m (inl (omega arith)))).0 refl

pub itoa-injective : (a b : ℤ) → itoa a ≡ itoa b → a ≡ b
unfolding itoa
itoa-injective (pos m) (pos n) e = ap pos (digits-injective m n e)
itoa-injective (negsuc m) (negsuc n) e =
    ap negsuc (ground (arith, digits-injective (suc m) (suc n)))
itoa-injective (pos m) (negsuc n) e = absurd (minus_not_digits m (suc n) e)
itoa-injective (negsuc m) (pos n) e = absurd (minus_not_digits n (suc m) (sym e))

-- The key behind its ":", cut at its first "/".
tcp_key-cut :
    (port : ℤ) (sni : Bytes)
    → tcp_route_key port sni ≡ b':' ∷ (if is_empty sni then itoa port else itoa port ++ b'/' ∷ sni)
unfolding tcp_route_key
tcp_key-cut port sni = ground arith

cut-body :
    (port : ℤ) (sni : Bytes)
    → cut (if is_empty sni then itoa port else itoa port ++ b'/' ∷ sni) b'/'
      ≡ (if is_empty sni then none else some (itoa port, sni))
cut-body port [] = cut-none b'/' (itoa port) (itoa-Lacks port)
cut-body port (c ∷ s) = cut-Lacks b'/' (itoa port) (c ∷ s) (itoa-Lacks port)

-- `tcpRouteKey` is faithful: two pairs of port and SNI have one key only if they are equal.
pub tcp_route_key-injective :
    (port port' : ℤ) (sni sni' : Bytes)
    → tcp_route_key port sni ≡ tcp_route_key port' sni'
    → (port ≡ port') × (sni ≡ sni')
tcp_route_key-injective port port' [] [] e =
    (itoa-injective port port' (cc (tcp_key-cut port [], tcp_key-cut port' [])), refl)
tcp_route_key-injective port port' (c ∷ s) [] e =
    cc (tcp_key-cut port (c ∷ s), tcp_key-cut port' [], cut-body port (c ∷ s), cut-body port' [])
tcp_route_key-injective port port' [] (c ∷ s) e =
    cc (tcp_key-cut port [], tcp_key-cut port' (c ∷ s), cut-body port [], cut-body port' (c ∷ s))
tcp_route_key-injective port port' (c ∷ s) (d ∷ t) e =
    let same : ◌≡◌ {A = Option (Bytes × Bytes)} (some (itoa port, c ∷ s))
        (some (itoa port', d ∷ t)) =
      cc (
        tcp_key-cut port (c ∷ s),
        tcp_key-cut port' (d ∷ t),
        cut-body port (c ∷ s),
        cut-body port' (d ∷ t),
      ) in
    (itoa-injective port port' (cc (same)), cc (same))

-- `httpRouteKey` takes an empty host for "*" and an empty path for "/".
abbrev pub host_or_star : Bytes → Bytes
host_or_star host = if is_empty host then str "*" else host

abbrev pub path_or_root : Bytes → Bytes
path_or_root path = if is_empty path then str "/" else path

-- A path that starts with "/", or is empty and stands for "/".
abbrev pub IsPath : Bytes → Type 0
IsPath [] = Unit
IsPath (c ∷ s) = c ≡ b'/'

http_key-cut :
    (host path : Bytes)
    → Lacks b'/' host
    → IsPath path
    → (rest : Bytes) × (path_or_root path ≡ b'/' ∷ rest)
      × (cut (http_route_key host path) b'/' ≡ some (host_or_star host, rest))
unfolding http_route_key
http_key-cut [] [] l p = ([], refl, cut-Lacks b'/' (str "*") [] (omega arith))
http_key-cut [] (c ∷ s) l p =
    (s, ap (λ x. x ∷ s) p, rw p (cut-Lacks b'/' (str "*") s (omega arith)))
http_key-cut (h ∷ host) [] l p = ([], refl, cut-Lacks b'/' (h ∷ host) [] l)
http_key-cut (h ∷ host) (c ∷ s) l p = (s, ap (λ x. x ∷ s) p, rw p (cut-Lacks b'/' (h ∷ host) s l))

-- For hosts with no "/" and paths that start with it or are empty, two HTTP routes have one key
-- only if their hosts and their paths are equal, up to "*" for no host and "/" for no path.
pub http_route_key-injective :
    (host host' path path' : Bytes)
    → Lacks b'/' host
    → Lacks b'/' host'
    → IsPath path
    → IsPath path'
    → http_route_key host path ≡ http_route_key host' path'
    → (host_or_star host ≡ host_or_star host') × (path_or_root path ≡ path_or_root path')
http_route_key-injective host host' path path' l l' p p' e =
    let (rest, q, c) = http_key-cut host path l p in
    let (rest', q', c') = http_key-cut host' path' l' p' in
    let same : ◌≡◌ {A = Option (Bytes × Bytes)} (some (host_or_star host, rest))
        (some (host_or_star host', rest')) =
      cc (c, c') in
    (cc (same), cc (q, q', same))
