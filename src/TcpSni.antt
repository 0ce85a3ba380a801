-- ===== src/TcpSni.antt =====
-- tcp_sni.go: the server name of a ClientHello, read ahead of the proxy. A connection is the bytes
-- that it still has to give; behind them a read fails. `cryptobyte` is a parameter. The read
-- deadline is left out.
pub mod Peek
pub mod Extract
pub mod RoundTrip
use caddy_consul.Base.{
  ℕ, zero, suc, ◌+◌, ◌*◌, ◌<◌, Bool, true, false, not, ◌&&◌, ◌||◌, ◌≡◌, List, [], ◌∷◌, ◌++◌, Option,
  none, some, leb, ltb, eqb, length, take, drop, is_empty, get_or, if◌then◌else◌,
}
use caddy_consul.Base.Bytes.{Bytes}
use caddy_consul.Base.Options.{◌>>=◌}

-- The methods of `cryptobyte.String` that the program calls, with what is left of the string behind
-- each, and `none` for false.
pub record CryptoByte : Type 0 where
  pub skip : ℕ → Bytes → Option Bytes
  pub read_uint8 : Bytes → Option (ℕ × Bytes)
  pub read_uint16 : Bytes → Option (ℕ × Bytes)
  pub read_uint8_prefixed : Bytes → Option (Bytes × Bytes)
  pub read_uint16_prefixed : Bytes → Option (Bytes × Bytes)

-- What the package documents: big-endian numbers, and bytes behind their length.
pub record IsCryptoByte (c : CryptoByte) : Type 0 where
  pub skips : (p s : Bytes) → c.skip (length p) (p ++ s) ≡ some s
  pub reads_uint8 : (b : ℕ) (s : Bytes) → b < 256 → c.read_uint8 (b ∷ s) ≡ some (b, s)
  pub reads_uint16 :
      (h l : ℕ) (s : Bytes) → h < 256 → l < 256 → c.read_uint16 (h ∷ l ∷ s) ≡ some (h * 256 + l, s)
  pub reads_prefixed8 :
      (p s : Bytes) → length p < 256 → c.read_uint8_prefixed (length p ∷ p ++ s) ≡ some (p, s)
  pub reads_prefixed16 :
      (h l : ℕ) (p s : Bytes)
      → h < 256
      → l < 256
      → h * 256 + l ≡ length p
      → c.read_uint16_prefixed (h ∷ l ∷ p ++ s) ≡ some (p, s)
  pub shrinks_uint8 : (s t : Bytes) (n : ℕ) → c.read_uint8 s ≡ some (n, t) → length t < length s
  pub shrinks_uint16 : (s t : Bytes) (n : ℕ) → c.read_uint16 s ≡ some (n, t) → length t < length s
  pub shrinks_prefixed16 :
      (s t p : Bytes) → c.read_uint16_prefixed s ≡ some (p, t) → length t < length s

-- What a loop comes to: a return of `("", false)`, the end of its condition, a return of a host name
-- and true; `out_of_fuel` stands for a loop that does not end.
pub data Scan : Type 0 where
  gave_up exhausted out_of_fuel : Scan
  host_name : Bytes → Scan

module _ (c : CryptoByte) where
  -- The head of each loop, with `none` where the code gives up: an extension, and a name.
  unfoldable pub next_extension : Bytes → Option (ℕ × Bytes × Bytes)
  next_extension extensions = do
    (ext_type, s) ← c.read_uint16 extensions
    (ext_data, rest) ← c.read_uint16_prefixed s
    some (ext_type, ext_data, rest)

  unfoldable pub next_name : Bytes → Option (ℕ × Bytes × Bytes)
  next_name names = do
    (name_type, s) ← c.read_uint8 names
    (server_name, rest) ← c.read_uint16_prefixed s
    if is_empty server_name then none else some (name_type, server_name, rest)

  -- The loop over the name list.
  unfoldable pub scan_names : ℕ → Bytes → Scan
  unfolding next_name
  scan_names zero names = if is_empty names then exhausted else out_of_fuel
  scan_names (suc fuel) names = if is_empty names then exhausted else elim (next_name names) [
    | none ↦ gave_up
    | some (name_type, server_name, rest) ↦
        if eqb name_type 0 then host_name server_name else scan_names fuel rest
  ]

  -- The server_name extension.
  unfoldable pub scan_server_name : Bytes → Scan
  unfolding scan_names
  scan_server_name ext_data = elim (c.read_uint16_prefixed ext_data) [
    | none ↦ gave_up
    | some (names, rest) ↦ if is_empty names then gave_up else scan_names (length names) names
  ]

  -- Behind a name list without a host name the loop over the extensions goes on.
  unfoldable pub or_others : Scan → Scan → Scan
  or_others exhausted others = others
  or_others gave_up others = gave_up
  or_others out_of_fuel others = out_of_fuel
  or_others (host_name name) others = host_name name

  -- The loop over the extensions.
  unfoldable pub scan_extensions : ℕ → Bytes → Scan
  unfolding next_extension scan_server_name or_others
  scan_extensions zero extensions = if is_empty extensions then exhausted else out_of_fuel
  scan_extensions (suc fuel) extensions =
      if is_empty extensions then exhausted else elim (next_extension extensions) [
        | none ↦ gave_up
        | some (ext_type, ext_data, rest) ↦
            if eqb ext_type 0
            then or_others (scan_server_name ext_data) (scan_extensions fuel rest)
            else scan_extensions fuel rest
      ]

  -- The fields in front of the extensions are skipped.
  unfoldable pub skip_fields : Bytes → Option Bytes
  skip_fields hs = do
    s ← c.skip 4 hs
    s ← c.skip 2 s
    s ← c.skip 32 s
    (session_id, s) ← c.read_uint8_prefixed s
    (cipher_suites, s) ← c.read_uint16_prefixed s
    (compression_methods, s) ← c.read_uint8_prefixed s
    some s

  unfoldable pub scan_hello : Bytes → Scan
  unfolding scan_extensions
  scan_hello s = if is_empty s then gave_up else elim (c.read_uint16_prefixed s) [
    | none ↦ gave_up
    | some (extensions, rest) ↦ scan_extensions (length extensions) extensions
  ]

  -- `extractSNI`
  unfoldable pub extract_sni : Bytes → Scan
  unfolding skip_fields scan_hello
  extract_sni hs = elim (skip_fields hs) [ none ↦ gave_up | some s ↦ scan_hello s ]

  -- The name that a caller sees.
  unfoldable pub sni_of : Scan → Bytes
  sni_of (host_name name) = name
  sni_of gave_up = []
  sni_of exhausted = []
  sni_of out_of_fuel = []
