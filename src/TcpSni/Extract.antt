-- ===== src/TcpSni/Extract.antt =====
-- tcp_sni.go, `extractSNI`: its loops end, and it finds the name that a ClientHello carries.
use caddy_consul.Base.{
  ℕ, zero, suc, ◌<◌, ◌≤◌, ◌≡◌, ◌≢◌, ap, [], ◌∷◌, Option, none, some, eqb, length, is_empty,
  if◌then◌else◌, arith, Bool-cases, Option-cases, inl, inr,
}
use caddy_consul.Base.Bytes.{Bytes}
use caddy_consul.Base.Options.{bind-eq-some}
use caddy_consul.TcpSni.{
  CryptoByte, IsCryptoByte, Scan, gave_up, exhausted, out_of_fuel, host_name, next_extension,
  next_name, scan_names, scan_server_name, or_others, scan_extensions, skip_fields, scan_hello,
  extract_sni,
}

module _ (c : CryptoByte) (laws : IsCryptoByte c) where
  next_name-shrinks :
      (s rest name : Bytes) (t : ℕ) → next_name c s ≡ some (t, name, rest) → length rest < length s
  unfolding next_name
  next_name-shrinks s rest name t h =
      let ((n, u), e, h') = bind-eq-some (c.read_uint8 s) _ h in
      let ((p, v), f, h'') = bind-eq-some (c.read_uint16_prefixed u) _ h' in
      ground (arith, h'', laws.shrinks_uint8 s u n e, laws.shrinks_prefixed16 u v p f)

  next_extension-shrinks :
      (s rest ext_data : Bytes) (t : ℕ)
      → next_extension c s ≡ some (t, ext_data, rest)
      → length rest < length s
  unfolding next_extension
  next_extension-shrinks s rest ext_data t h =
      let ((n, u), e, h') = bind-eq-some (c.read_uint16 s) _ h in
      let ((p, v), f, h'') = bind-eq-some (c.read_uint16_prefixed u) _ h' in
      ground (arith, h'', laws.shrinks_uint16 s u n e, laws.shrinks_prefixed16 u v p f)

  pick-ends :
      (t : ℕ) (a b : Scan)
      → a ≢ out_of_fuel
      → b ≢ out_of_fuel
      → (if eqb t 0 then a else b) ≢ out_of_fuel
  pick-ends t a b na nb = elim (Bool-cases (eqb t 0)) [ inl e ↦ rw e na | inr e ↦ rw e nb ]

  unfoldable pub names_step : ℕ → Option (ℕ × Bytes × Bytes) → Scan
  names_step fuel none = gave_up
  names_step fuel (some (name_type, server_name, rest)) =
      if eqb name_type 0 then host_name server_name else scan_names c fuel rest

  pub scan_names-step :
      (fuel : ℕ) (b : ℕ) (s : Bytes) (o : Option (ℕ × Bytes × Bytes))
      → next_name c (b ∷ s) ≡ o
      → scan_names c (suc fuel) (b ∷ s) ≡ names_step fuel o
  unfolding scan_names names_step
  scan_names-step fuel b s o h =
      ap
        (λ x. elim x [
          | none ↦ gave_up
          | some (name_type, server_name, rest) ↦
              if eqb name_type 0 then host_name server_name else scan_names c fuel rest
        ])
        h

  scan_names-ends : (fuel : ℕ) (s : Bytes) → length s ≤ fuel → scan_names c fuel s ≢ out_of_fuel
  unfolding scan_names names_step
  scan_names-ends zero [] h = λ q. cc q
  scan_names-ends zero (b ∷ s) h = absurd (omega arith)
  scan_names-ends (suc fuel) [] h = λ q. cc q
  scan_names-ends (suc fuel) (b ∷ s) h = elim (Option-cases (next_name c (b ∷ s))) [
    | inl e ↦ rw (scan_names-step fuel b s none e) (λ q. cc q)
    | inr ((t, name, rest), e) ↦
        let less = next_name-shrinks (b ∷ s) rest name t e in
        let later = scan_names-ends fuel rest (omega (arith, less, h)) in
        rw (scan_names-step fuel b s (some (t, name, rest)) e)
          (pick-ends t (host_name name) (scan_names c fuel rest) (λ q. cc q) later)
  ]

  unfoldable pub server_name_step : Option (Bytes × Bytes) → Scan
  server_name_step none = gave_up
  server_name_step (some (names, rest)) =
      if is_empty names then gave_up else scan_names c (length names) names

  pub scan_server_name-lem :
      (ext_data : Bytes) (o : Option (Bytes × Bytes))
      → c.read_uint16_prefixed ext_data ≡ o
      → scan_server_name c ext_data ≡ server_name_step o
  unfolding scan_server_name server_name_step
  scan_server_name-lem ext_data o h =
      ap
        (λ x. elim x [
          | none ↦ gave_up
          | some (names, rest) ↦
              if is_empty names then gave_up else scan_names c (length names) names
        ])
        h

  scan_server_name-ends : (ext_data : Bytes) → scan_server_name c ext_data ≢ out_of_fuel
  unfolding server_name_step
  scan_server_name-ends ext_data = elim (Option-cases (c.read_uint16_prefixed ext_data)) [
    | inl e ↦ rw (scan_server_name-lem ext_data none e) (λ q. cc q)
    | inr ((names, rest), e) ↦
        rw (scan_server_name-lem ext_data (some (names, rest)) e)
          (elim (Bool-cases (is_empty names)) [
            | inl f ↦ rw f (λ q. cc q)
            | inr f ↦ rw f (scan_names-ends (length names) names (omega arith))
          ])
  ]

  or_others-ends : (a b : Scan) → a ≢ out_of_fuel → b ≢ out_of_fuel → or_others c a b ≢ out_of_fuel
  unfolding or_others
  or_others-ends exhausted b na nb = nb
  or_others-ends gave_up b na nb = λ q. cc q
  or_others-ends out_of_fuel b na nb = na
  or_others-ends (host_name n) b na nb = λ q. cc q

  unfoldable pub extensions_step : ℕ → Option (ℕ × Bytes × Bytes) → Scan
  extensions_step fuel none = gave_up
  extensions_step fuel (some (ext_type, ext_data, rest)) =
      if eqb ext_type 0
      then or_others c (scan_server_name c ext_data) (scan_extensions c fuel rest)
      else scan_extensions c fuel rest

  pub scan_extensions-step :
      (fuel : ℕ) (b : ℕ) (s : Bytes) (o : Option (ℕ × Bytes × Bytes))
      → next_extension c (b ∷ s) ≡ o
      → scan_extensions c (suc fuel) (b ∷ s) ≡ extensions_step fuel o
  unfolding scan_extensions extensions_step
  scan_extensions-step fuel b s o h =
      ap
        (λ x. elim x [
          | none ↦ gave_up
          | some (ext_type, ext_data, rest) ↦
              if eqb ext_type 0
              then or_others c (scan_server_name c ext_data) (scan_extensions c fuel rest)
              else scan_extensions c fuel rest
        ])
        h

  scan_extensions-ends :
      (fuel : ℕ) (s : Bytes) → length s ≤ fuel → scan_extensions c fuel s ≢ out_of_fuel
  unfolding scan_extensions extensions_step
  scan_extensions-ends zero [] h = λ q. cc q
  scan_extensions-ends zero (b ∷ s) h = absurd (omega arith)
  scan_extensions-ends (suc fuel) [] h = λ q. cc q
  scan_extensions-ends (suc fuel) (b ∷ s) h = elim (Option-cases (next_extension c (b ∷ s))) [
    | inl e ↦ rw (scan_extensions-step fuel b s none e) (λ q. cc q)
    | inr ((t, ext_data, rest), e) ↦
        let less = next_extension-shrinks (b ∷ s) rest ext_data t e in
        let later = scan_extensions-ends fuel rest (omega (arith, less, h)) in
        rw (scan_extensions-step fuel b s (some (t, ext_data, rest)) e) (
          pick-ends t (or_others c (scan_server_name c ext_data) (scan_extensions c fuel rest))
            (scan_extensions c fuel rest)
            (or_others-ends (scan_server_name c ext_data) (scan_extensions c fuel rest)
              (scan_server_name-ends ext_data) later)
            later)
  ]

  unfoldable pub hello_step : Option (Bytes × Bytes) → Scan
  hello_step none = gave_up
  hello_step (some (extensions, rest)) = scan_extensions c (length extensions) extensions

  pub scan_hello-lem :
      (b : ℕ) (s : Bytes) (o : Option (Bytes × Bytes))
      → c.read_uint16_prefixed (b ∷ s) ≡ o
      → scan_hello c (b ∷ s) ≡ hello_step o
  unfolding scan_hello hello_step
  scan_hello-lem b s o h =
      ap
        (λ x. elim x [
          | none ↦ gave_up
          | some (extensions, rest) ↦ scan_extensions c (length extensions) extensions
        ])
        h

  unfoldable pub sni_step : Option Bytes → Scan
  sni_step none = gave_up
  sni_step (some s) = scan_hello c s

  pub extract_sni-lem :
      (hs : Bytes) (o : Option Bytes) → skip_fields c hs ≡ o → extract_sni c hs ≡ sni_step o
  unfolding extract_sni sni_step
  extract_sni-lem hs o h = ap (λ x. elim x [ none ↦ gave_up | some s ↦ scan_hello c s ]) h

  scan_hello-ends : (s : Bytes) → scan_hello c s ≢ out_of_fuel
  unfolding scan_hello hello_step
  scan_hello-ends [] = λ q. cc q
  scan_hello-ends (b ∷ s) = elim (Option-cases (c.read_uint16_prefixed (b ∷ s))) [
    | inl e ↦ rw (scan_hello-lem b s none e) (λ q. cc q)
    | inr ((extensions, rest), e) ↦
        rw (scan_hello-lem b s (some (extensions, rest)) e)
          (scan_extensions-ends (length extensions) extensions (omega arith))
  ]

  -- Whatever the bytes are, the loops of `extractSNI` end within as many rounds as there are bytes,
  -- if every read takes at least a byte.
  pub extract_sni-ends : (hs : Bytes) → extract_sni c hs ≢ out_of_fuel
  unfolding sni_step
  extract_sni-ends hs = elim (Option-cases (skip_fields c hs)) [
    | inl e ↦ rw (extract_sni-lem hs none e) (λ q. cc q)
    | inr (s, e) ↦ rw (extract_sni-lem hs (some s) e) (scan_hello-ends s)
  ]
