-- ===== src/Metadata/Fabio.antt =====
-- metadata.go: route definitions from Fabio's `urlprefix-` tags.
use caddy_consul.Base.{
  ℕ, suc, Bool, ◌&&◌, ◌||◌, not, List, [], ◌∷◌, Option, none, some, ℤ, pos, lt_int, bytes_eq,
  eq_bytes, any, take, drop, is_empty, if◌then◌else◌,
}
use caddy_consul.Base.Bytes.{
  Bytes, str, has_prefix, has_suffix, trim_prefix, trim_suffix, cut, index_byte, replace_all,
}
use caddy_consul.Base.Runes.{fields}
use caddy_consul.Base.Decimal.{atoi}
use caddy_consul.Base.Maps.{lookup, insert, is_some}
use caddy_consul.Base.Results.{Result, ok, err, ◌>>=◌}
use caddy_consul.Types.{RouteDefinition, Meta, protocol_http, protocol_https, protocol_tcp}
use caddy_consul.Metadata.Fields.{blank_route}

-- A run-time error that Go raises as a panic.
pub data Panic : Type 0 where
  index_out_of_range : Panic

-- What `parseFabioTag` returns: `(nil, false)`, `(nil, true)` or `(rd, false)`.
pub data FabioTag : Type 0 where
  ignored port_redirect : FabioTag
  route : RouteDefinition → FabioTag

-- `hasAnyFabioTag`
unfoldable pub has_any_fabio_tag : List Bytes → Bool
has_any_fabio_tag tags = any (λ tag. has_prefix tag (str "urlprefix-")) tags

-- `stripStandardPort`
unfoldable pub strip_standard_port : Bytes → Bytes
strip_standard_port host =
    if has_suffix host (str ":80")
    then trim_suffix host (str ":80")
    else if has_suffix host (str ":443")
    then trim_suffix host (str ":443")
    else host

-- The parts behind the first, as a map; a later value for a key replaces an earlier one.
unfoldable pub modifiers_from : List Bytes → Meta → Meta
modifiers_from [] m = m
modifiers_from (part ∷ parts) m = elim (cut part b'=') [
  | none ↦ modifiers_from parts m
  | some (k, v) ↦ modifiers_from parts (insert k v m)
]

fabio_protocol : Option Bytes → Bytes
fabio_protocol none = protocol_http
fabio_protocol (some proto) =
    if eq_bytes proto (str "tcp")
    then protocol_tcp
    else if eq_bytes proto (str "https")
    then protocol_https
    else protocol_http

-- `redirect=CODE,URL` with a code from 300 to 399
unfoldable pub fabio_redirect : Option Bytes → Option (ℤ × Bytes)
fabio_redirect none = none
fabio_redirect (some redir) = elim (cut redir b',') [
  | none ↦ none
  | some (code, url) ↦ elim (atoi code) [
    | none ↦ none
    | some n ↦
        if not (lt_int n (pos 300)) && lt_int n (pos 400)
        then some (n, replace_all url (str "$path") (str "{http.request.uri}"))
        else none
  ]
]

with_redirect : RouteDefinition → Option (ℤ × Bytes) → RouteDefinition
with_redirect rd none = rd
with_redirect rd (some (code, url)) = record rd { redirect_code = code; redirect_url = url }

-- The definition with the protocol, strip and redirect modifiers applied.
unfoldable pub fabio_modifiers : Meta → RouteDefinition
unfolding with_redirect fabio_protocol
fabio_modifiers m =
    with_redirect
      (record blank_route {
        protocol = fabio_protocol (lookup (str "proto") m);
        strip_prefix = is_some (lookup (str "strip") m);
      })
      (fabio_redirect (lookup (str "redirect") m))

-- The URL part of a TCP route is `:port`.
unfoldable pub fabio_tcp : RouteDefinition → Bytes → FabioTag
fabio_tcp rd url =
    if has_prefix url (str ":")
    then elim (atoi (trim_prefix url (str ":"))) [
      | none ↦ ignored
      | some port ↦ if lt_int (pos 0) port then route (record rd { port = port }) else ignored
    ]
    else ignored

-- `rawHost` and `rd.Path`
unfoldable pub split_url : Bytes → Bytes × Bytes
split_url url = elim (index_byte url b'/') [
  | some i ↦ (take i url, drop i url)
  | none ↦ (url, str "/")
]

-- The URL part of any other route is `host/path` or `host`; a redirect on :80 or :443 is dropped.
unfoldable pub fabio_http : RouteDefinition → Bytes → FabioTag
unfolding split_url strip_standard_port
fabio_http rd url =
    let (raw_host, path) = split_url url in
    let standard = has_suffix raw_host (str ":80") || has_suffix raw_host (str ":443") in
    if standard && lt_int (pos 0) rd.redirect_code
    then port_redirect
    else route (record rd { host = strip_standard_port raw_host; path = path })

fabio_route : RouteDefinition → Bytes → FabioTag
unfolding fabio_tcp fabio_http
fabio_route rd url =
    if eq_bytes rd.protocol protocol_tcp then fabio_tcp rd url else fabio_http rd url

-- `parts[0]` of no parts is a panic.
unfoldable pub fabio_parts : List Bytes → Result Panic FabioTag
unfolding fabio_route
fabio_parts [] = err index_out_of_range
fabio_parts (url ∷ rest) = ok (fabio_route (fabio_modifiers (modifiers_from rest [])) url)

-- `parseFabioTag`
unfoldable pub parse_fabio_tag : Bytes → Result Panic FabioTag
unfolding fabio_parts
parse_fabio_tag tag =
    let value = trim_prefix tag (str "urlprefix-") in
    if is_empty value then ok ignored else fabio_parts (fields value)

abbrev add_tag : FabioTag → List RouteDefinition × ℕ → List RouteDefinition × ℕ
add_tag ignored acc = acc
add_tag port_redirect (routes, skipped) = (routes, suc skipped)
add_tag (route rd) (routes, skipped) = (rd ∷ routes, skipped)

-- `parseFabioTags`: the routes in the order of the tags, and the redirects skipped.
unfoldable pub parse_fabio_tags : List Bytes → Result Panic (List RouteDefinition × ℕ)
parse_fabio_tags [] = ok ([], 0)
parse_fabio_tags (tag ∷ tags) =
    if has_prefix tag (str "urlprefix-")
    then (do t ← parse_fabio_tag tag; acc ← parse_fabio_tags tags; ok (add_tag t acc))
    else parse_fabio_tags tags
