-- ===== src/Tests/Sni.antt =====
-- tcp_sni.go on a small ClientHello.
use caddy_consul.Base.{ℕ, zero, suc, ap, ◌≡◌, ◌≢◌, refl, [], ◌∷◌, ◌++◌, arith, take, drop}
use caddy_consul.Base.Bytes.{Bytes, str}
use caddy_consul.TcpSni.{out_of_fuel, host_name, extract_sni}
use caddy_consul.TcpSni.Extract.{extract_sni-ends}
use caddy_consul.TcpSni.RoundTrip.{ClientHello, Extension, IsHello, encode, extract_sni-encode}
use caddy_consul.TcpSni.Peek.{
  Conn, peek_client_hello_sni, new_prefix_conn, read_all, prefix_pending, peek-append,
  read_all-pending,
}
use caddy_consul.Tests.CryptoBytes.{crypto_byte, crypto_byte-IsCryptoByte}

abbrev zeros : Bytes
zeros = 0 ∷ 0 ∷ 0 ∷ 0 ∷ 0 ∷ 0 ∷ 0 ∷ 0 ∷ []

abbrev grease : Extension
grease = record { high = 10; low = 10; content = 1 ∷ [] }

abbrev hello : ClientHello
hello = record {
  handshake = 1 ∷ 0 ∷ 0 ∷ 80 ∷ [];
  version = 3 ∷ 3 ∷ [];
  random = zeros ++ (zeros ++ (zeros ++ zeros));
  session_id = [];
  cipher_suites = 19 ∷ 1 ∷ [];
  compression_methods = 0 ∷ [];
  before = grease ∷ [];
  name = str "a.test";
  other_names = [];
  after = [];
}

hello-IsHello : IsHello hello
hello-IsHello = record {
  handshake_4 = refl;
  version_2 = refl;
  random_32 = refl;
  session_id_fits = omega arith;
  cipher_suites_fit = omega arith;
  compression_methods_fit = omega arith;
  others = (
    record {
      high_fits = omega arith;
      low_fits = omega arith;
      other = omega arith;
      fits = omega arith;
    },
    tt,
  );
  named = refl;
  block_fits = omega arith;
  names_fit = omega arith;
}

extract_sni-encode_example : extract_sni crypto_byte (encode hello) ≡ host_name (str "a.test")
extract_sni-encode_example =
    extract_sni-encode crypto_byte crypto_byte-IsCryptoByte hello hello-IsHello

extract_sni-ends_example : extract_sni crypto_byte (1 ∷ 2 ∷ 3 ∷ []) ≢ out_of_fuel
extract_sni-ends_example = extract_sni-ends crypto_byte crypto_byte-IsCryptoByte (1 ∷ 2 ∷ 3 ∷ [])

-- Not a TLS record: the five bytes are given back.
abbrev greeting : Bytes
greeting = str "SSH-2.0"

peeks_header : (peek_client_hello_sni crypto_byte greeting).buffered ≡ str "SSH-2"
unfolding peek_client_hello_sni
peeks_header = refl

peek-append_example :
    (peek_client_hello_sni crypto_byte greeting).buffered
      ++ (peek_client_hello_sni crypto_byte greeting).rest
    ≡ greeting
unfolding peek_client_hello_sni
peek-append_example = peek-append crypto_byte greeting refl

take-drop_bytes : (s : Bytes) (n : ℕ) → take n s ++ drop n s ≡ s
take-drop_bytes s zero = refl
take-drop_bytes [] (suc n) = refl
take-drop_bytes (b ∷ s) (suc n) = ap (◌∷◌ b) (take-drop_bytes s n)

abbrev byte_conn : Conn Bytes
byte_conn = record { read = λ s n. (take n s, drop n s); pending = λ s. s; reads = take-drop_bytes }

read_all-pending_example :
    (read_all byte_conn (new_prefix_conn byte_conn (str ".0") (str "SSH-2")) (3 ∷ 3 ∷ [])).0
      ++ prefix_pending byte_conn
          (read_all byte_conn (new_prefix_conn byte_conn (str ".0") (str "SSH-2")) (3 ∷ 3 ∷ [])).1
    ≡ str "SSH-2" ++ str ".0"
read_all-pending_example = read_all-pending byte_conn (3 ∷ 3 ∷ []) (str ".0") (str "SSH-2")
