-- ===== src/Metadata/Fields.antt =====
-- metadata.go: route definitions from `caddy-*` metadata, indexed and not.
use caddy_consul.Base.{
  Bool, true, false, not, ◌&&◌, List, [], ◌∷◌, ◌++◌, map, Option, none, some, ℤ, pos, int_eq,
  bytes_eq, eq_bytes, eqb, lt_int, any, drop, length, is_empty, if◌then◌else◌,
}
use caddy_consul.Base.Bytes.{Bytes, str, has_prefix, is_digit}
use caddy_consul.Base.Decimal.{atoi}
use caddy_consul.Base.Maps.{lookup, insert, is_some}
use caddy_consul.Base.Sorting.{insertion_sort}
use caddy_consul.Types.{RouteDefinition, Meta, unset, protocol_http}

-- `RouteDefinition{Protocol: ProtocolHTTP, Enabled: true}`
abbrev pub blank_route : RouteDefinition
blank_route = record {
  service_name = [];
  protocol = protocol_http;
  host = [];
  path = [];
  port = pos 0;
  upstream_mode = unset;
  priority = pos 0;
  weight = pos 0;
  strip_prefix = false;
  enabled = true;
  upstreams = [];
  via = [];
  redirect_code = pos 0;
  redirect_url = [];
  redirect_no_cache = false;
  no_cache_status_raw = [];
  has_no_cache_status = false;
  tag_values = [];
}

-- `if v, ok := m[key]; ok { field = v }`
abbrev pub text_or : Option Bytes → Bytes → Bytes
text_or none d = d
text_or (some v) d = v

-- The same through `strconv.Atoi`, whose error leaves the zero value.
abbrev pub int_or_zero : Option Bytes → ℤ
int_or_zero none = pos 0
int_or_zero (some v) = elim (atoi v) [ none ↦ pos 0 | some n ↦ n ]

abbrev pub is_true : Option Bytes → Bool
is_true none = false
is_true (some v) = eq_bytes v (str "true")

-- `Enabled` stays true unless the value is "false".
abbrev pub not_false : Option Bytes → Bool
not_false none = true
not_false (some v) = not (eq_bytes v (str "false"))

-- The fields that both kinds of metadata set, from a reader of a field's value.
unfoldable pub route_from : (Bytes → Option Bytes) → RouteDefinition
route_from get = record blank_route {
  protocol = text_or (get (str "protocol")) protocol_http;
  host = text_or (get (str "host")) [];
  path = text_or (get (str "path")) [];
  port = int_or_zero (get (str "port"));
  priority = int_or_zero (get (str "priority"));
  weight = int_or_zero (get (str "weight"));
  strip_prefix = is_true (get (str "strip-prefix"));
  redirect_code = int_or_zero (get (str "redirect-code"));
  redirect_url = text_or (get (str "redirect-url")) [];
  redirect_no_cache = is_true (get (str "redirect-no-cache"));
  enabled = not_false (get (str "enabled"));
  no_cache_status_raw = text_or (get (str "no-cache-status")) [];
  has_no_cache_status = is_some (get (str "no-cache-status"));
}

-- `parseNonIndexedMeta`
unfoldable pub parse_non_indexed_meta : Meta → RouteDefinition
unfolding route_from
parse_non_indexed_meta meta = route_from (λ field. lookup (str "caddy-" ++ field) meta)

-- The loop's body of `parseIndexedMeta`: "sni" is read after "host" and into the same field.
unfoldable pub parse_indexed_fields : Meta → RouteDefinition
unfolding route_from
parse_indexed_fields fields =
    let rd = route_from (λ field. lookup field fields) in
    record rd { host = text_or (lookup (str "sni") fields) rd.host }

-- The digits at the front, and the rest.
unfoldable pub span_digits : Bytes → Bytes × Bytes
unfolding is_digit
span_digits [] = ([], [])
span_digits (c ∷ s) = elim (is_digit c) [
  | true ↦ let (d, r) = span_digits s in (c ∷ d, r)
  | false ↦ ([], c ∷ s)
]

-- `-(.+)$` behind the digits; `.` does not match a line feed.
index_field : Bytes → Bytes → Option (Bytes × Bytes)
index_field digits [] = none
index_field digits (c ∷ field) =
    if eqb c b'-' && not (is_empty digits) && not (is_empty field) && not (any (eqb 10) field)
    then some (digits, field)
    else none

-- `indexedKeyRegex`, ^caddy-route-(\d+)-(.+)$, with its two groups
unfoldable pub match_indexed_key : Bytes → Option (Bytes × Bytes)
unfolding index_field
match_indexed_key k =
    if has_prefix k (str "caddy-route-")
    then (let (digits, rest) = span_digits (drop (length (str "caddy-route-")) k) in
        index_field digits rest)
    else none

abbrev fields_at : ℤ → List (ℤ × Meta) → Meta
fields_at idx indexed = elim (lookup idx indexed) [ none ↦ [] | some fields ↦ fields ]

-- One round of the first loop of `parseIndexedMeta`.
unfoldable pub index_entry : Bytes → Bytes → List (ℤ × Meta) → List (ℤ × Meta)
index_entry k v indexed = elim (match_indexed_key k) [
  | none ↦ indexed
  | some (digits, field) ↦ elim (atoi digits) [
    | none ↦ indexed
    | some idx ↦ insert idx (insert field v (fields_at idx indexed)) indexed
  ]
]

unfoldable pub index_meta : Meta → List (ℤ × Meta) → List (ℤ × Meta)
index_meta [] indexed = indexed
index_meta ((k, v) ∷ meta) indexed = index_meta meta (index_entry k v indexed)

-- `parseIndexedMeta`: a definition for each index, in ascending order.
unfoldable pub parse_indexed_meta : Meta → List RouteDefinition
unfolding index_meta
parse_indexed_meta meta =
    let indexed = index_meta meta [] in
    map (λ idx. parse_indexed_fields (fields_at idx indexed))
      (insertion_sort lt_int (map (λ e. e.0) indexed))

-- `hasAnyCaddyMeta` and `hasNonIndexedMeta`
unfoldable pub has_any_caddy_meta : Meta → Bool
has_any_caddy_meta meta = any (λ (e : Bytes × Bytes). has_prefix e.0 (str "caddy-")) meta

unfoldable pub has_non_indexed_meta : Meta → Bool
has_non_indexed_meta meta =
    any
      (λ (e : Bytes × Bytes).
        has_prefix e.0 (str "caddy-") && not (is_some (match_indexed_key e.0)))
      meta
