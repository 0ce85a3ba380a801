-- ===== src/Tests/CryptoBytes.antt =====
-- Functions that do what the documentation of `cryptobyte.String` says.
use caddy_consul.Base.{
  ℕ, zero, suc, ◌+◌, ◌*◌, ◌<◌, ◌≤◌, true, ◌≡◌, refl, ap, ◌∙◌, [], ◌∷◌, ◌++◌, Option, none, some,
  leb, length, take, drop, if◌then◌else◌, arith, Bool-cases, inl, inr,
}
use caddy_consul.Base.Bytes.{Bytes}
use caddy_consul.TcpSni.{CryptoByte, IsCryptoByte}

-- So many bytes and the rest, if there are as many.
abbrev pub read_bytes : ℕ → Bytes → Option (Bytes × Bytes)
read_bytes n s = if leb n (length s) then some (take n s, drop n s) else none

abbrev rest_of : Option (Bytes × Bytes) → Option Bytes
rest_of none = none
rest_of (some (p, s)) = some s

abbrev first_byte : Bytes → Option (ℕ × Bytes)
first_byte [] = none
first_byte (b ∷ s) = some (b, s)

abbrev first_two : Bytes → Option (ℕ × Bytes)
first_two [] = none
first_two (h ∷ []) = none
first_two (h ∷ l ∷ s) = some (h * 256 + l, s)

abbrev prefixed_8 : Bytes → Option (Bytes × Bytes)
prefixed_8 [] = none
prefixed_8 (n ∷ s) = read_bytes n s

abbrev prefixed_16 : Bytes → Option (Bytes × Bytes)
prefixed_16 [] = none
prefixed_16 (h ∷ []) = none
prefixed_16 (h ∷ l ∷ s) = read_bytes (h * 256 + l) s

abbrev pub crypto_byte : CryptoByte
crypto_byte = record {
  skip = λ n s. rest_of (read_bytes n s);
  read_uint8 = first_byte;
  read_uint16 = first_two;
  read_uint8_prefixed = prefixed_8;
  read_uint16_prefixed = prefixed_16;
}

enough : (p s : Bytes) → leb (length p) (length (p ++ s)) ≡ true
enough [] s = ground arith
enough (b ∷ p) s = ground (arith, enough p s)

take-front : (p s : Bytes) → take (length p) (p ++ s) ≡ p
take-front [] s = refl
take-front (b ∷ p) s = ap (◌∷◌ b) (take-front p s)

drop-front : (p s : Bytes) → drop (length p) (p ++ s) ≡ s
drop-front [] s = refl
drop-front (b ∷ p) s = drop-front p s

read_bytes-front : (p s : Bytes) → read_bytes (length p) (p ++ s) ≡ some (p, s)
read_bytes-front p s = rw (enough p s, take-front p s, drop-front p s) refl

length-drop-le : (n : ℕ) (s : Bytes) → length (drop n s) ≤ length s
length-drop-le zero s = omega arith
length-drop-le (suc n) [] = omega arith
length-drop-le (suc n) (b ∷ s) = omega (arith, length-drop-le n s)

read_bytes-le : (n : ℕ) (s t p : Bytes) → read_bytes n s ≡ some (p, t) → length t ≤ length s
read_bytes-le n s t p h = elim (Bool-cases (leb n (length s))) [
  | inl e ↦ ground (arith, rw e at h, length-drop-le n s)
  | inr e ↦ absurd (cc (rw e at h))
]

first_byte-shrinks : (s t : Bytes) (n : ℕ) → first_byte s ≡ some (n, t) → length t < length s
first_byte-shrinks [] t n h = cc
first_byte-shrinks (b ∷ s) t n h = ground (arith, h)

first_two-shrinks : (s t : Bytes) (n : ℕ) → first_two s ≡ some (n, t) → length t < length s
first_two-shrinks [] t n h = cc
first_two-shrinks (b ∷ []) t n h = cc
first_two-shrinks (b ∷ l ∷ s) t n h = ground (arith, h)

prefixed_16-shrinks : (s t p : Bytes) → prefixed_16 s ≡ some (p, t) → length t < length s
prefixed_16-shrinks [] t p h = cc
prefixed_16-shrinks (b ∷ []) t p h = cc
prefixed_16-shrinks (b ∷ l ∷ s) t p h = omega (arith, read_bytes-le (b * 256 + l) s t p h)

pub crypto_byte-IsCryptoByte : IsCryptoByte crypto_byte
crypto_byte-IsCryptoByte = record {
  skips = λ p s. ap rest_of (read_bytes-front p s);
  reads_uint8 = λ b s h. refl;
  reads_uint16 = λ h l s i j. refl;
  reads_prefixed8 = λ p s h. read_bytes-front p s;
  reads_prefixed16 = λ h l p s i j e. ap (λ n. read_bytes n (p ++ s)) e ∙ read_bytes-front p s;
  shrinks_uint8 = first_byte-shrinks;
  shrinks_uint16 = first_two-shrinks;
  shrinks_prefixed16 = prefixed_16-shrinks;
}
