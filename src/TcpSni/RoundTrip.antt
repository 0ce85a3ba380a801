-- ===== src/TcpSni/RoundTrip.antt =====
-- tcp_sni.go, `extractSNI` against an encoder of the ClientHello message.
use caddy_consul.Base.{
  ℕ, zero, suc, ◌+◌, ◌*◌, ◌/◌, ◌%◌, ◌<◌, ◌≤◌, false, ◌≡◌, refl, sym, ap, ◌∙◌, List, [], ◌∷◌, ◌++◌,
  some, eqb, length, is_empty, arith, All,
}
use native.Mathlib.Nat.{mod-lt, div-add-mod'}
use caddy_consul.Base.Bytes.{Bytes}
use caddy_consul.Base.Options.{bind-some}
use caddy_consul.TcpSni.{
  CryptoByte, IsCryptoByte, host_name, next_extension, next_name, scan_names, scan_server_name,
  or_others, scan_extensions, skip_fields, extract_sni,
}
use caddy_consul.TcpSni.Extract.{
  names_step, server_name_step, extensions_step, hello_step, sni_step, scan_names-step,
  scan_server_name-lem, scan_extensions-step, scan_hello-lem, extract_sni-lem,
}

-- Bytes behind their length in two bytes, in front of others.
abbrev pub prefixed16 : Bytes → Bytes → Bytes
prefixed16 p s = length p / 256 ∷ length p % 256 ∷ p ++ s

-- An extension has a type of two bytes.
pub record Extension : Type 0 where
  pub high : ℕ
  pub low : ℕ
  pub content : Bytes

abbrev pub extensions_before : List Extension → Bytes → Bytes
extensions_before [] s = s
extensions_before (e ∷ es) s = e.high ∷ e.low ∷ prefixed16 e.content (extensions_before es s)

-- The server_name extension: a name list that starts with a host name.
abbrev pub name_list : Bytes → Bytes → Bytes
name_list name others = 0 ∷ prefixed16 name others

abbrev pub server_name_extension : Bytes → Bytes → Bytes → Bytes
server_name_extension name others s = 0 ∷ 0 ∷ prefixed16 (prefixed16 (name_list name others) []) s

pub record ClientHello : Type 0 where
  pub handshake : Bytes
  pub version : Bytes
  pub random : Bytes
  pub session_id : Bytes
  pub cipher_suites : Bytes
  pub compression_methods : Bytes
  pub before : List Extension
  pub name : Bytes
  pub other_names : Bytes
  pub after : Bytes

abbrev pub extension_block : ClientHello → Bytes
extension_block h = extensions_before h.before (server_name_extension h.name h.other_names h.after)

abbrev pub encode : ClientHello → Bytes
encode h =
    h.handshake
    ++ (h.version
        ++ (h.random
            ++ (length h.session_id ∷ h.session_id
                ++ prefixed16 h.cipher_suites (
                    length h.compression_methods ∷ h.compression_methods
                    ++ prefixed16 (extension_block h) []))))

-- Another extension that fits its length field.
pub record IsOther (e : Extension) : Type 0 where
  pub high_fits : e.high < 256
  pub low_fits : e.low < 256
  pub other : 0 < e.high + e.low
  pub fits : length e.content < 256 * 256

-- The sizes that the format gives and the length fields allow; a host name is not empty.
pub record IsHello (h : ClientHello) : Type 0 where
  pub handshake_4 : length h.handshake ≡ 4
  pub version_2 : length h.version ≡ 2
  pub random_32 : length h.random ≡ 32
  pub session_id_fits : length h.session_id < 256
  pub cipher_suites_fit : length h.cipher_suites < 256 * 256
  pub compression_methods_fit : length h.compression_methods < 256
  pub others : All IsOther h.before
  pub named : is_empty h.name ≡ false
  pub block_fits : length (extension_block h) < 256 * 256
  pub names_fit : length (prefixed16 (name_list h.name h.other_names) []) < 256 * 256

split_length : (n : ℕ) → (n / 256) * 256 + n % 256 ≡ n
split_length n = div-add-mod' n 256

high_fits : (n : ℕ) → n < 256 * 256 → n / 256 < 256
high_fits n h = omega (arith, h, split_length n)

length-append-ge : (a b : Bytes) → length a ≤ length (a ++ b)
length-append-ge [] b = omega arith
length-append-ge (x ∷ a) b = omega (arith, length-append-ge a b)

length-append-ge_right : (a b : Bytes) → length b ≤ length (a ++ b)
length-append-ge_right [] b = omega arith
length-append-ge_right (x ∷ a) b = omega (arith, length-append-ge_right a b)

module _ (c : CryptoByte) (laws : IsCryptoByte c) where
  reads_prefixed :
      (p s : Bytes) → length p < 256 * 256 → c.read_uint16_prefixed (prefixed16 p s) ≡ some (p, s)
  reads_prefixed p s h =
      laws.reads_prefixed16 (length p / 256) (length p % 256) p s (high_fits (length p) h)
        (mod-lt (length p) {m = 256} (omega arith)) (split_length (length p))

  skips_length : (n : ℕ) (p s : Bytes) → length p ≡ n → c.skip n (p ++ s) ≡ some s
  skips_length n p s h = ap (λ k. c.skip k (p ++ s)) (sym h) ∙ laws.skips p s

  next_name-first :
      (name others : Bytes)
      → length name < 256 * 256
      → is_empty name ≡ false
      → next_name c (name_list name others) ≡ some (0, name, others)
  unfolding next_name
  next_name-first name others h k =
      rw
        (laws.reads_uint8 0 (prefixed16 name others) (omega arith), reads_prefixed name others h, k)
        refl

  scan_names-first :
      (fuel : ℕ) (name others : Bytes)
      → length name < 256 * 256
      → is_empty name ≡ false
      → scan_names c (suc fuel) (name_list name others) ≡ host_name name
  unfolding names_step
  scan_names-first fuel name others h k =
      scan_names-step c laws fuel 0 (prefixed16 name others) _ (next_name-first name others h k)

  scan_server_name-first :
      (name others : Bytes)
      → is_empty name ≡ false
      → length (prefixed16 (name_list name others) []) < 256 * 256
      → scan_server_name c (prefixed16 (name_list name others) []) ≡ host_name name
  unfolding server_name_step
  scan_server_name-first name others k h =
      let small : length name < 256 * 256 =
        omega (arith, h, length-append-ge name others, length-append-ge (name ++ others) []) in
      scan_server_name-lem c laws (prefixed16 (name_list name others) []) _ (
        reads_prefixed (name_list name others) []
          (omega (arith, h, length-append-ge (name_list name others) [])))
      ∙ scan_names-first _ name others small k

  -- The server_name extension is found behind any others.
  scan_extensions-found :
      (es : List Extension) (name others after : Bytes) (fuel : ℕ)
      → All IsOther es
      → is_empty name ≡ false
      → length (prefixed16 (name_list name others) []) < 256 * 256
      → length (extensions_before es (server_name_extension name others after)) ≤ fuel
      → scan_extensions c fuel (extensions_before es (server_name_extension name others after))
        ≡ host_name name
  unfolding extensions_step or_others next_extension
  scan_extensions-found [] name others after zero o k h l = absurd (omega (arith, l))
  scan_extensions-found (e ∷ es) name others after zero o k h l = absurd (omega (arith, l))
  scan_extensions-found [] name others after (suc fuel) o k h l =
      let list = prefixed16 (name_list name others) [] in
      scan_extensions-step c laws fuel 0 _ (some (0, list, after)) (
        rw
          (
            laws.reads_uint16 0 0 (prefixed16 list after) (omega arith) (omega arith),
            reads_prefixed list after h,
          )
          refl)
      ∙ rw (scan_server_name-first name others k h) refl
  scan_extensions-found (e ∷ es) name others after (suc fuel) (o, os) k h l =
      let rest = extensions_before es (server_name_extension name others after) in
      let other : eqb (e.high * 256 + e.low) 0 ≡ false = ground (arith, o.other) in
      scan_extensions-step c laws fuel e.high _ (some (e.high * 256 + e.low, e.content, rest)) (
        rw
          (
            laws.reads_uint16 e.high e.low (prefixed16 e.content rest) o.high_fits o.low_fits,
            reads_prefixed e.content rest o.fits,
          )
          refl)
      ∙ rw other (
          scan_extensions-found es name others after fuel os k h
            (omega (arith, l, length-append-ge_right e.content rest)))

  skip_fields-encode :
      (h : ClientHello)
      → IsHello h
      → skip_fields c (encode h) ≡ some (prefixed16 (extension_block h) [])
  unfolding skip_fields
  skip_fields-encode h is =
      let tail_3 = prefixed16 (extension_block h) [] in
      let tail_2 = length h.compression_methods ∷ h.compression_methods ++ tail_3 in
      let tail_1 = prefixed16 h.cipher_suites tail_2 in
      let tail_0 = length h.session_id ∷ h.session_id ++ tail_1 in
      bind-some (c.skip 4 (encode h)) _
        (skips_length 4 h.handshake (h.version ++ (h.random ++ tail_0)) is.handshake_4)
      ∙ bind-some (c.skip 2 (h.version ++ (h.random ++ tail_0))) _
          (skips_length 2 h.version (h.random ++ tail_0) is.version_2)
      ∙ bind-some (c.skip 32 (h.random ++ tail_0)) _ (skips_length 32 h.random tail_0 is.random_32)
      ∙ bind-some (c.read_uint8_prefixed tail_0) _
          (laws.reads_prefixed8 h.session_id tail_1 is.session_id_fits)
      ∙ bind-some (c.read_uint16_prefixed tail_1) _
          (reads_prefixed h.cipher_suites tail_2 is.cipher_suites_fit)
      ∙ bind-some (c.read_uint8_prefixed tail_2) _
          (laws.reads_prefixed8 h.compression_methods tail_3 is.compression_methods_fit)

  -- `extractSNI` gives the host name of every ClientHello whose fields fit their length fields and
  -- whose server_name extension starts with a host name that is not empty, whatever extensions stand
  -- before and behind it and whatever names behind the first.
  pub extract_sni-encode :
      (h : ClientHello) → IsHello h → extract_sni c (encode h) ≡ host_name h.name
  unfolding sni_step hello_step
  extract_sni-encode h is =
      extract_sni-lem c laws (encode h) _ (skip_fields-encode h is)
      ∙ scan_hello-lem c laws _ _ _ (reads_prefixed (extension_block h) [] is.block_fits)
      ∙ scan_extensions-found h.before h.name h.other_names h.after _ is.others is.named
          is.names_fit (omega arith)
