-- ===== src/RouteInfo.antt =====
-- route_info.go: what is told of the route of a request, as variables and as labels of a counter. The
-- handler behind it and slices.Sort are arguments.
pub mod Labels
use caddy_consul.Base.{
  ℕ, zero, suc, ◌/◌, Bool, true, false, not, ◌&&◌, ◌||◌, List, [], ◌∷◌, ◌++◌, map, any, Option,
  none, some, ℤ, pos, negsuc, int_eq, eq_int, lt_int, leb, eqb, eq_bytes, bytes_eq, is_empty,
  if◌then◌else◌,
}
use caddy_consul.Base.Bytes.{Bytes, str, lt_bytes, is_digit}
use caddy_consul.Base.Decimal.{itoa}
use caddy_consul.Base.Maps.{lookup, insert, contains_key, keys}
use caddy_consul.Base.Results.{Result, ok, err, ◌>>=◌}
use caddy_consul.Base.Sorting.{SliceSort}
use caddy_consul.Types.{CompiledHttpRoute}

-- The settings of `ConsulRouteInfoHandler`
pub record RouteInfo : Type 0 where
  pub vars : List (Bytes × Bytes)
  pub metrics : Bool
  pub metric_labels : List (Bytes × Bytes)
  pub host_label : Bytes

pub data LayoutError : Type 0 where
  empty_tag_key duplicate_host_label invalid_name : Bytes → LayoutError

-- The first loop of `metricLabelLayout`
unfoldable pub label_sources :
    List (Bytes × Bytes) → List (Bytes × Bytes) → Result LayoutError (List (Bytes × Bytes))
label_sources sources [] = ok sources
label_sources sources ((name, tag_key) ∷ labels) =
    let rest = label_sources (insert name tag_key sources) labels in
    if is_empty tag_key then err (empty_tag_key name) else rest

unfoldable pub with_host : Bytes → List (Bytes × Bytes) → Result LayoutError (List (Bytes × Bytes))
with_host host_label sources =
    if is_empty host_label
    then ok sources
    else if contains_key host_label sources
    then err (duplicate_host_label host_label)
    else ok (insert host_label [] sources)

unfoldable pub is_letter : ℕ → Bool
is_letter c = (leb b'a' c && leb c b'z') || ((leb b'A' c && leb c b'Z') || eqb c b'_')

unfoldable pub are_label_chars : Bytes → Bool
unfolding is_letter is_digit
are_label_chars [] = true
are_label_chars (c ∷ s) = (is_letter c || is_digit c) && are_label_chars s

-- `metricLabelName`
unfoldable pub is_label_name : Bytes → Bool
unfolding is_letter are_label_chars
is_label_name [] = false
is_label_name (c ∷ s) = is_letter c && are_label_chars s

abbrev pub is_taken : Bytes → Bool
is_taken name =
    eq_bytes name (str "service") || (eq_bytes name (str "class") || eq_bytes name (str "error"))

-- The second loop
unfoldable pub label_names : List Bytes → Result LayoutError (List Bytes)
unfolding is_label_name
label_names [] = ok []
label_names (name ∷ names) =
    let rest = label_names names in
    if not (is_label_name name) || is_taken name
    then err (invalid_name name)
    else (do more ← rest; ok (name ∷ more))

-- `sources[name]`
abbrev pub source_of : List (Bytes × Bytes) → Bytes → Bytes
source_of sources name = elim (lookup name sources) [ none ↦ [] | some tag_key ↦ tag_key ]

-- `metricLabelLayout`, over any function that does what `slices.Sort` promises
unfoldable pub metric_label_layout :
    SliceSort lt_bytes → RouteInfo → Result LayoutError (List Bytes × List Bytes)
unfolding label_sources with_host label_names
metric_label_layout by h = do
  sources ← label_sources [] h.metric_labels
  all ← with_host h.host_label sources
  names ← label_names (keys all)
  ok (by.sort names, map (source_of all) (by.sort names))

-- The error of the next handler: a `caddyhttp.HandlerError` has a status, any other one has none.
abbrev pub HandlerError : Type 0
HandlerError = Option ℤ

-- The final status
unfoldable pub final_status : ℤ → Option HandlerError → ℤ
final_status status none = if eq_int status (pos 0) then pos 200 else status
final_status status (some none) = pos 500
final_status status (some (some code)) = if eq_int code (pos 0) then pos 500 else code

abbrev pub errored : Option HandlerError → Bytes
errored none = str "false"
errored (some e) = str "true"

-- `status/100`, which rounds towards zero
abbrev pub hundreds : ℤ → ℤ
hundreds (pos n) = pos (n / 100)
hundreds (negsuc n) = elim (suc n / 100) [ zero ↦ pos 0 | suc k ↦ negsuc k ]

abbrev pub label_of : CompiledHttpRoute → Bytes → Bytes
label_of route key =
    if is_empty key
    then route.host
    else elim (lookup key route.tag_values) [ none ↦ [] | some v ↦ v ]

-- `labelValues`
unfoldable pub label_values : List Bytes → CompiledHttpRoute → ℤ → Option HandlerError → List Bytes
unfolding final_status
label_values tag_keys route status error =
    route.service_name
    ∷ (map (label_of route) tag_keys
        ++ (itoa (hundreds (final_status status error)) ++ str "xx") ∷ errored error ∷ [])

-- metrics.go, `RouteRequestsCounter`: the names of the labels, which the values are to match.
abbrev pub counter_labels : List Bytes → List Bytes
counter_labels extra = (str "service" ∷ extra) ++ str "class" ∷ str "error" ∷ []

-- `statusRecorder`: the status recorded when a header or a body is written.
unfoldable pub write_header : ℤ → ℤ → ℤ
write_header status code =
    if eq_int status (pos 0) && not (lt_int code (pos 200)) then code else status

unfoldable pub write_body : ℤ → ℤ
write_body status = if eq_int status (pos 0) then pos 200 else status

-- `setRouteVars`, on the variables of the request
unfoldable pub set_tag_vars :
    CompiledHttpRoute → List (Bytes × Bytes) → List (Bytes × Bytes) → List (Bytes × Bytes)
set_tag_vars route [] vars = vars
set_tag_vars route ((name, tag_key) ∷ more) vars = elim (lookup tag_key route.tag_values) [
  | none ↦ set_tag_vars route more vars
  | some v ↦ set_tag_vars route more (insert name v vars)
]

unfoldable pub set_route_vars :
    CompiledHttpRoute → List (Bytes × Bytes) → List (Bytes × Bytes) → List (Bytes × Bytes)
unfolding set_tag_vars
set_route_vars route names vars =
    set_tag_vars route names (insert (str "consul.service") route.service_name vars)

pub data DirectiveError : Type 0 where
  wrong_arguments unrecognized_directive : Bytes → DirectiveError

-- A line of the directive's block, whose arguments stand on it.
unfoldable pub set_directive : RouteInfo → Bytes → List Bytes → Result DirectiveError RouteInfo
set_directive h name args =
    if eq_bytes name (str "var")
    then elim args [
      | a ∷ b ∷ [] ↦ ok (record h { vars = insert a b h.vars })
      | _ ↦ err (wrong_arguments name)
    ]
    else if eq_bytes name (str "metrics")
    then elim args [ [] ↦ ok (record h { metrics = true }) | _ ↦ err (wrong_arguments name) ]
    else if eq_bytes name (str "metric_label")
    then elim args [
      | a ∷ b ∷ [] ↦ ok (record h { metric_labels = insert a b h.metric_labels })
      | _ ↦ err (wrong_arguments name)
    ]
    else if eq_bytes name (str "metric_host_label")
    then elim args [ a ∷ [] ↦ ok (record h { host_label = a }) | _ ↦ err (wrong_arguments name) ]
    else err (unrecognized_directive name)

-- `UnmarshalCaddyfile`, on the arguments of the directive and the lines of its block
unfoldable pub set_directives :
    RouteInfo → List (Bytes × List Bytes) → Result DirectiveError RouteInfo
unfolding set_directive
set_directives h [] = ok h
set_directives h ((name, args) ∷ lines) = do
  next ← set_directive h name args
  set_directives next lines

unfoldable pub unmarshal_route_info :
    RouteInfo → List Bytes → List (Bytes × List Bytes) → Result DirectiveError RouteInfo
unfolding set_directives
unmarshal_route_info h [] lines = set_directives h lines
unmarshal_route_info h (a ∷ args) lines = err (wrong_arguments a)
