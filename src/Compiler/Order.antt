-- ===== src/Compiler/Order.antt =====
-- The order of `Compile` is a strict weak order, so insertion sort does for `sort.Slice`, and the
-- first of the sorted definitions with a key is not outranked by a later one.
use caddy_consul.Base.{
  Bool, true, false, ◌≡◌, List, [], ◌∷◌, some, inl, inr, arith, int_eq, lt_int-ltb, eq_int-eqb,
  Elem, All-Elem, All-filter, filter, find, Bool-cases,
}
use caddy_consul.Base.Bytes.{lt_bytes-asymm, lt_bytes-trans_not}
use caddy_consul.Base.Sorting.{IsSorted, SliceSort, by_insertion}
use caddy_consul.Types.{RouteDefinition}
use caddy_consul.Compiler.{sorts_before}

pub sorts_before-asymm :
    (a b : RouteDefinition) → sorts_before a b ≡ true → sorts_before b a ≡ false
unfolding sorts_before
sorts_before-asymm a b h = ground (
  arith,
  lt_int-ltb a.priority b.priority,
  lt_int-ltb b.priority a.priority,
  eq_int-eqb a.priority b.priority,
  eq_int-eqb b.priority a.priority,
  lt_bytes-asymm a.service_name b.service_name,
)

pub sorts_before-trans_not :
    (a b c : RouteDefinition)
    → sorts_before b a ≡ false
    → sorts_before c b ≡ false
    → sorts_before c a ≡ false
unfolding sorts_before
sorts_before-trans_not a b c h k = ground (
  arith,
  lt_int-ltb a.priority b.priority,
  lt_int-ltb b.priority c.priority,
  lt_int-ltb a.priority c.priority,
  eq_int-eqb b.priority a.priority,
  eq_int-eqb c.priority b.priority,
  eq_int-eqb c.priority a.priority,
  lt_bytes-trans_not a.service_name b.service_name c.service_name,
)

pub sorts_before_irrefl : (a : RouteDefinition) → sorts_before a a ≡ false
sorts_before_irrefl a = elim (Bool-cases (sorts_before a a)) [
  | inl e ↦ sorts_before-asymm a a e
  | inr e ↦ e
]

abbrev pub route_sort : SliceSort sorts_before
route_sort = by_insertion sorts_before sorts_before-asymm sorts_before-trans_not

pub filter-IsSorted :
    {A : Type 0} (less : A → A → Bool) (p : A → Bool) (xs : List A)
    → IsSorted less xs
    → IsSorted less (filter p xs)
unfolding filter
filter-IsSorted less p [] s = tt
filter-IsSorted less p (x ∷ xs) s = elim (Bool-cases (p x)) [
  | inl e ↦ rw e (All-filter (λ y. less y x ≡ false) p xs s.0, filter-IsSorted less p xs s.1)
  | inr e ↦ rw e (filter-IsSorted less p xs s.1)
]

pub find_outranks :
    (p : RouteDefinition → Bool) (xs : List RouteDefinition) (w l : RouteDefinition)
    → IsSorted sorts_before xs
    → find p xs ≡ some w
    → Elem l xs
    → p l ≡ true
    → sorts_before l w ≡ false
unfolding find
find_outranks p [] w l s f m h = elim m [ ]
find_outranks p (x ∷ xs) w l s f m h = elim (Bool-cases (p x)) [
  | inl e ↦
      let same : x ≡ w = cc (rw e at f) in
      rw (← same) (elim m [
        | inl q ↦ rw q (sorts_before_irrefl x)
        | inr n ↦ All-Elem (λ y. sorts_before y x ≡ false) xs l s.0 n
      ])
  | inr e ↦ elim m [
    | inl q ↦ cc (rw q at h, e)
    | inr n ↦ find_outranks p xs w l s.1 (rw e at f) n h
  ]
]
