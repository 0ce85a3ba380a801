-- ===== src/RouteInfo/Labels.antt =====
-- route_info.go: the values of the labels match their names.
use caddy_consul.Base.{
  suc, ◌≡◌, refl, ap, sym, ◌∙◌, List, [], ◌∷◌, map, ℤ, Option, length, length-append, arith,
}
use caddy_consul.Base.Bytes.{Bytes, str, lt_bytes}
use caddy_consul.Base.Results.{ok, bind-eq-ok}
use caddy_consul.Base.Sorting.{SliceSort}
use caddy_consul.Base.Maps.{keys}
use caddy_consul.Types.{CompiledHttpRoute}
use caddy_consul.RouteInfo.{
  RouteInfo, HandlerError, label_sources, with_host, label_names, source_of, metric_label_layout,
  label_of, label_values, counter_labels,
}

length-map_lem : {A B : Type 0} (f : A → B) (xs : List A) → length (map f xs) ≡ length xs
length-map_lem f [] = refl
length-map_lem f (x ∷ xs) = ap suc (length-map_lem f xs)

-- The tag keys are one for each name.
layout-length :
    (by : SliceSort lt_bytes) (h : RouteInfo) (names tag_keys : List Bytes)
    → metric_label_layout by h ≡ ok (names, tag_keys)
    → length tag_keys ≡ length names
unfolding metric_label_layout
layout-length by h names tag_keys e =
    let (sources, p, q) = bind-eq-ok (label_sources [] h.metric_labels) _ e in
    let (all, r, t) = bind-eq-ok (with_host h.host_label sources) _ q in
    let (found, u, v) = bind-eq-ok (label_names (keys all)) _ t in
    let sorted : by.sort found ≡ names = cc v in
    let keyed : map (source_of all) (by.sort found) ≡ tag_keys = cc v in
    ap length (sym keyed) ∙ length-map_lem (source_of all) (by.sort found) ∙ ap length sorted

-- If the settings give the labels a layout, then whatever the route, the status recorded and the error of
-- the next handler are, there is one value for each label of the counter, without which the counter
-- would panic.
pub length-label_values :
    (by : SliceSort lt_bytes) (h : RouteInfo) (names tag_keys : List Bytes)
    (route : CompiledHttpRoute) (status : ℤ) (error : Option HandlerError)
    → metric_label_layout by h ≡ ok (names, tag_keys)
    → length (label_values tag_keys route status error) ≡ length (counter_labels names)
unfolding label_values
length-label_values by h names tag_keys route status error e = omega (
  arith,
  layout-length by h names tag_keys e,
  length-map_lem (label_of route) tag_keys,
  length-append (map (label_of route) tag_keys) (_ ∷ _ ∷ []),
  length-append names (str "class" ∷ str "error" ∷ []),
)
