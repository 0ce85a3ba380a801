-- ===== src/Tests/Labels.antt =====
-- route_info.go on settings with two labels.
use caddy_consul.Base.{
  ◌≡◌, refl, arith, true, false, List, [], ◌∷◌, Option, none, some, pos, length, ltb, eqb, ◌&&◌,
  if◌then◌else◌,
}
use caddy_consul.Base.Bytes.{Bytes, str, lt_bytes}
use caddy_consul.Base.Results.{ok, err}
use caddy_consul.Base.Sorting.{SliceSort, by_insertion}
use caddy_consul.RouteInfo.{
  RouteInfo, metric_label_layout, label_values, counter_labels, write_header, write_body,
  unmarshal_route_info, wrong_arguments,
}
use caddy_consul.RouteInfo.Labels.{length-label_values}
use caddy_consul.Tests.Data.{compiled}

lt_bytes-asymmetric : (a b : Bytes) → lt_bytes a b ≡ true → lt_bytes b a ≡ false
unfolding lt_bytes
lt_bytes-asymmetric a [] h = cc
lt_bytes-asymmetric [] (d ∷ b) h = refl
lt_bytes-asymmetric (c ∷ a) (d ∷ b) h = ground (arith, h, lt_bytes-asymmetric a b)

lt_bytes-transitive :
    (a b c : Bytes) → lt_bytes b a ≡ false → lt_bytes c b ≡ false → lt_bytes c a ≡ false
unfolding lt_bytes
lt_bytes-transitive [] b c h k = refl
lt_bytes-transitive (x ∷ a) [] c h k = cc
lt_bytes-transitive (x ∷ a) (y ∷ b) [] h k = cc
lt_bytes-transitive (x ∷ a) (y ∷ b) (z ∷ c) h k = ground (arith, h, k, lt_bytes-transitive a b c)

abbrev by_name : SliceSort lt_bytes
by_name = by_insertion lt_bytes lt_bytes-asymmetric lt_bytes-transitive

abbrev labelled : RouteInfo
labelled = record {
  vars = (str "tenant", str "X-Tenant") ∷ [];
  metrics = true;
  metric_labels = (str "tenant", str "X-Tenant") ∷ [];
  host_label = str "host";
}

lays_out :
    metric_label_layout by_name labelled
    ≡ ok (str "host" ∷ str "tenant" ∷ [], [] ∷ str "X-Tenant" ∷ [])
unfolding metric_label_layout caddy_consul.Base.Maps.contains_key caddy_consul.Base.Maps.insert
    caddy_consul.Base.eq_bytes caddy_consul.Base.Sorting.insertion_sort lt_bytes
lays_out = refl

length-label_values_example :
    length (label_values ([] ∷ str "X-Tenant" ∷ []) (compiled (str "a.test") []) (pos 0) none)
    ≡ length (counter_labels (str "host" ∷ str "tenant" ∷ []))
length-label_values_example =
    length-label_values by_name labelled (str "host" ∷ str "tenant" ∷ []) ([] ∷ str "X-Tenant" ∷ [])
      (compiled (str "a.test") []) (pos 0) none lays_out

values_of_refusal :
    label_values ([] ∷ []) (compiled (str "a.test") []) (pos 200) (some (some (pos 403)))
    ≡ str "web" ∷ str "a.test" ∷ str "4xx" ∷ str "true" ∷ []
unfolding label_values caddy_consul.Base.Decimal.itoa
values_of_refusal = refl

keeps_first_status : write_body (write_header (write_header (pos 0) (pos 103)) (pos 204)) ≡ pos 204
unfolding write_body write_header
keeps_first_status = refl

wants_two :
    unmarshal_route_info labelled [] ((str "var", str "a" ∷ []) ∷ [])
    ≡ err (wrong_arguments (str "var"))
unfolding unmarshal_route_info caddy_consul.Base.eq_bytes
wants_two = refl
