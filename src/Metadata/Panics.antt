-- ===== src/Metadata/Panics.antt =====
-- metadata.go: when `ParseServiceRoutes` panics, which it does on a blank `urlprefix-` tag.
use caddy_consul.Base.{
  Bool, true, false, not, ◌&&◌, ◌||◌, ◌≡◌, refl, sym, ap, ◌∙◌, ◌⊎◌, List, [], ◌∷◌, ◌++◌, any,
  is_empty, Bool-cases, inl, inr, bytes_eq, ℕ, zero, suc,
}
use caddy_consul.Base.Bytes.{Bytes, str, has_prefix, trim_prefix}
use caddy_consul.Base.Runes.{space_width, fields, fields_from, field_onto}
use caddy_consul.Base.Results.{Result, ok, err, ◌>>=◌}
use caddy_consul.Types.{ServiceInstance, ServiceState}
use caddy_consul.Metadata.{is_eligible, instance_routes, all_routes, parse_service_routes}
use caddy_consul.Metadata.Fabio.{Panic, fabio_parts, parse_fabio_tag, parse_fabio_tags}

unfoldable pub panics {ℓ} : {A : Type ℓ} → Result Panic A → Bool
panics (ok a) = false
panics (err e) = true

-- Every rune is a space; the first argument counts the bytes of one that are still to come.
abbrev pub all_space : ℕ → Bytes → Bool
all_space skip [] = true
all_space (suc k) (c ∷ s) = all_space k s
all_space zero (c ∷ s) = elim (space_width c s) [ zero ↦ false | suc k ↦ all_space k s ]

-- A `urlprefix-` tag with nothing but white space behind the prefix, and some.
unfoldable pub is_blank_tag : Bytes → Bool
is_blank_tag tag =
    has_prefix tag (str "urlprefix-")
    && (not (is_empty (trim_prefix tag (str "urlprefix-")))
        && all_space 0 (trim_prefix tag (str "urlprefix-")))

and_false : (b : Bool) → (b && false) ≡ false
and_false true = refl
and_false false = refl

fields_from_step :
    (word s : Bytes) (c n : ℕ)
    → space_width c s ≡ n
    → fields_from 0 word (c ∷ s) ≡ elim n [
      | zero ↦ fields_from 0 (word ++ c ∷ []) s
      | suc k ↦ field_onto word (fields_from k [] s)
    ]
unfolding fields_from
fields_from_step word s c n h =
    ap
      (λ n. elim n [
        | zero ↦ fields_from 0 (word ++ c ∷ []) s
        | suc k ↦ field_onto word (fields_from k [] s)
      ])
      h

all_space_step :
    (s : Bytes) (c n : ℕ)
    → space_width c s ≡ n
    → all_space 0 (c ∷ s) ≡ elim n [ zero ↦ false | suc k ↦ all_space k s ]
all_space_step s c n h = ap (λ n. elim n [ zero ↦ false | suc k ↦ all_space k s ]) h

is_empty-field_onto :
    (word : Bytes) (rest : List Bytes)
    → is_empty (field_onto word rest) ≡ (is_empty word && is_empty rest)
is_empty-field_onto [] rest = refl
is_empty-field_onto (c ∷ word) rest = refl

is_empty-snoc : (word : Bytes) (c : ℕ) → is_empty (word ++ c ∷ []) ≡ false
is_empty-snoc [] c = refl
is_empty-snoc (d ∷ word) c = refl

zero_or_suc : (n : ℕ) → (n ≡ 0) ⊎ ((k : ℕ) × (n ≡ suc k))
zero_or_suc zero = inl refl
zero_or_suc (suc k) = inr (k, refl)

is_empty-fields_from :
    (k : ℕ) (word s : Bytes) → is_empty (fields_from k word s) ≡ (is_empty word && all_space k s)
unfolding fields_from
is_empty-fields_from k word [] = is_empty-field_onto word []
is_empty-fields_from (suc k) word (c ∷ s) = is_empty-fields_from k word s
is_empty-fields_from zero word (c ∷ s) = elim (zero_or_suc (space_width c s)) [
  | inl h ↦
      rw (fields_from_step word s c 0 h, all_space_step s c 0 h)
        (is_empty-fields_from 0 (word ++ c ∷ []) s
          ∙ rw is_empty-snoc (sym (and_false (is_empty word))))
  | inr (k, h) ↦
      rw (fields_from_step word s c (suc k) h, all_space_step s c (suc k) h)
        (is_empty-field_onto word (fields_from k [] s)
          ∙ ap (λ b. is_empty word && b) (is_empty-fields_from k [] s))
]

panics-fabio_parts : (parts : List Bytes) → panics (fabio_parts parts) ≡ is_empty parts
unfolding fabio_parts panics
panics-fabio_parts [] = refl
panics-fabio_parts (p ∷ parts) = refl

panics-parse_fabio_tag :
    (tag : Bytes)
    → has_prefix tag (str "urlprefix-") ≡ true
    → panics (parse_fabio_tag tag) ≡ is_blank_tag tag
unfolding parse_fabio_tag is_blank_tag fields panics
panics-parse_fabio_tag tag h = elim (Bool-cases (is_empty (trim_prefix tag (str "urlprefix-")))) [
  | inl e ↦ rw (h, e) refl
  | inr e ↦
      rw (h, e)
        (panics-fabio_parts (fields (trim_prefix tag (str "urlprefix-")))
          ∙ is_empty-fields_from 0 [] (trim_prefix tag (str "urlprefix-")))
]

not_blank : (tag : Bytes) → has_prefix tag (str "urlprefix-") ≡ false → is_blank_tag tag ≡ false
unfolding is_blank_tag
not_blank tag h =
    ap
      (λ b.
        b
        && (not (is_empty (trim_prefix tag (str "urlprefix-")))
            && all_space 0 (trim_prefix tag (str "urlprefix-"))))
      h

or_cong : {a b c d : Bool} → a ≡ b → c ≡ d → (a || c) ≡ (b || d)
or_cong p q = cc (p, q)

or_false : (b : Bool) → (b || false) ≡ b
or_false true = refl
or_false false = refl

panics-bind {ℓ κ} :
    {A : Type ℓ} {B : Type κ} (m : Result Panic A) (f : A → Result Panic B) (b : Bool)
    → ((a : A) → panics (f a) ≡ b)
    → panics (m >>= f) ≡ (panics m || b)
unfolding panics
panics-bind (ok a) f b h = h a
panics-bind (err e) f b h = refl

panics-parse_fabio_tags :
    (tags : List Bytes) → panics (parse_fabio_tags tags) ≡ any is_blank_tag tags
unfolding parse_fabio_tags any panics
panics-parse_fabio_tags [] = refl
panics-parse_fabio_tags (tag ∷ tags) = elim (Bool-cases (has_prefix tag (str "urlprefix-"))) [
  | inl h ↦ rw h (
      panics-bind (parse_fabio_tag tag) _ (panics (parse_fabio_tags tags))
        (λ t. panics-bind (parse_fabio_tags tags) _ false (λ acc. refl) ∙ or_false _)
      ∙ or_cong (panics-parse_fabio_tag tag h) (panics-parse_fabio_tags tags))
  | inr h ↦
      rw h (
        panics-parse_fabio_tags tags ∙ sym (ap (λ b. b || any is_blank_tag tags) (not_blank tag h)))
]

panics-instance_routes :
    (name service_tag connect_tag : Bytes) (inst : ServiceInstance)
    → panics (instance_routes name service_tag connect_tag inst)
      ≡ (is_eligible service_tag connect_tag inst && any is_blank_tag inst.tags)
unfolding instance_routes panics
panics-instance_routes name service_tag connect_tag inst =
    elim (Bool-cases (is_eligible service_tag connect_tag inst)) [
      | inl h ↦ rw h (
          panics-bind (parse_fabio_tags inst.tags) _ false (λ acc. refl)
          ∙ or_false _
          ∙ panics-parse_fabio_tags inst.tags)
      | inr h ↦ rw h refl
    ]

panics-all_routes :
    (name service_tag connect_tag : Bytes) (insts : List ServiceInstance)
    → panics (all_routes name service_tag connect_tag insts)
      ≡ any (λ inst. is_eligible service_tag connect_tag inst && any is_blank_tag inst.tags) insts
unfolding all_routes any panics
panics-all_routes name service_tag connect_tag [] = refl
panics-all_routes name service_tag connect_tag (inst ∷ insts) =
    panics-bind (instance_routes name service_tag connect_tag inst) _
      (panics (all_routes name service_tag connect_tag insts))
      (λ routes.
        panics-bind (all_routes name service_tag connect_tag insts) _ false (λ rest. refl)
        ∙ or_false _)
    ∙ or_cong (panics-instance_routes name service_tag connect_tag inst)
        (panics-all_routes name service_tag connect_tag insts)

-- `ParseServiceRoutes` panics exactly if some instance that it does not skip has a `urlprefix-` tag
-- with nothing but white space, of ASCII or of Unicode in UTF-8, behind the prefix, and some of it;
-- for every other service it returns routes.
pub panics-parse_service_routes :
    (svc : ServiceState) (service_tag connect_tag : Bytes)
    → panics (parse_service_routes svc service_tag connect_tag)
      ≡ any
          (λ inst. is_eligible service_tag connect_tag inst && any is_blank_tag inst.tags)
          svc.instances
unfolding parse_service_routes panics
panics-parse_service_routes svc service_tag connect_tag =
    panics-bind (all_routes svc.name service_tag connect_tag svc.instances) _ false (λ routes. refl)
    ∙ or_false _
    ∙ panics-all_routes svc.name service_tag connect_tag svc.instances
