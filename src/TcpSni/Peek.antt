-- ===== src/TcpSni/Peek.antt =====
-- tcp_sni.go, `peekClientHelloSNI` and `prefixConn`: what is read ahead is replayed.
use caddy_consul.Base.{
  ℕ, zero, suc, ◌+◌, ◌*◌, ◌≤◌, Bool, true, false, not, ◌&&◌, ◌||◌, ◌≡◌, refl, sym, ap, ◌∙◌, subst,
  List, [], ◌∷◌, ◌++◌, Option, none, some, leb, ltb, eqb, length, take, drop, get_or, if◌then◌else◌,
  arith, Bool-cases, inl, inr,
}
use mathlib.Core.List.{append_assoc}
use caddy_consul.Base.Bytes.{Bytes}
use caddy_consul.TcpSni.{CryptoByte, extract_sni, sni_of}

-- `io.ReadFull`: so many bytes, or an error, which leaves nothing.
unfoldable pub read_full : ℕ → Bytes → Option (Bytes × Bytes)
read_full n stream = if leb n (length stream) then some (take n stream, drop n stream) else none

-- What is returned, and what the connection still has.
pub record Peeked : Type 0 where
  pub sni : Bytes
  pub buffered : Bytes
  pub is_tls : Bool
  pub failed : Bool
  pub rest : Bytes

module _ (c : CryptoByte) where
  -- Behind the body of the record.
  unfoldable pub peek_body : Bytes → Bytes → Bytes → Peeked
  peek_body header body rest =
      let is_hello = leb 4 (length body) && eqb (get_or body 0 0) 1 in
      record {
        sni = if is_hello then sni_of c (extract_sni c body) else [];
        buffered = header ++ body;
        is_tls = true;
        failed = false;
        rest = rest;
      }

  -- Behind the second read.
  unfoldable pub after_body : Bytes → Option (Bytes × Bytes) → Peeked
  unfolding peek_body
  after_body header none = record {
    sni = [];
    buffered = header;
    is_tls = true;
    failed = true;
    rest = [];
  }
  after_body header (some (body, rest)) = peek_body header body rest

  unfoldable pub record_size : Bytes → ℕ
  record_size header = get_or header 3 0 * 256 + get_or header 4 0

  -- Behind the first read: another record type, or no plausible size, is not TLS.
  unfoldable pub after_header : Option (Bytes × Bytes) → Peeked
  unfolding read_full after_body record_size
  after_header none = record { sni = []; buffered = []; is_tls = false; failed = true; rest = [] }
  after_header (some (header, stream)) =
      if not (eqb (get_or header 0 0) 22)
        || (eqb (record_size header) 0 || ltb 16384 (record_size header))
      then record { sni = []; buffered = header; is_tls = false; failed = false; rest = stream }
      else after_body header (read_full (record_size header) stream)

  -- `peekClientHelloSNI`
  unfoldable pub peek_client_hello_sni : Bytes → Peeked
  unfolding read_full after_header
  peek_client_hello_sni stream = after_header (read_full 5 stream)

-- A `net.Conn` that has bytes to give: what a read gives comes off the front.
pub record Conn (S : Type 0) : Type 0 where
  pub read : S → ℕ → Bytes × S
  pub pending : S → Bytes
  pub reads : (s : S) (n : ℕ) → (read s n).0 ++ pending (read s n).1 ≡ pending s

module _ {S : Type 0} (conn : Conn S) where
  pub record PrefixConn : Type 0 where
    pub under : S
    pub prefix : Bytes
    pub off : ℕ

  -- `newPrefixConn`; without a prefix the connection itself, which this one then equals.
  unfoldable pub new_prefix_conn : S → Bytes → PrefixConn
  new_prefix_conn s prefix = record { under = s; prefix = prefix; off = 0 }

  -- `prefixConn.Read` into a buffer of the size
  unfoldable pub read_prefix_conn : PrefixConn → ℕ → Bytes × PrefixConn
  read_prefix_conn p size =
      if ltb p.off (length p.prefix)
      then (let out = take size (drop p.off p.prefix) in
          (out, record p { off = p.off + length out }))
      else (let (out, s) = conn.read p.under size in (out, record p { under = s }))

  abbrev pub prefix_pending : PrefixConn → Bytes
  prefix_pending p = drop p.off p.prefix ++ conn.pending p.under

  -- The bytes that reads with these buffer sizes give, and the connection behind them.
  unfoldable pub read_all : PrefixConn → List ℕ → Bytes × PrefixConn
  unfolding read_prefix_conn
  read_all p [] = ([], p)
  read_all p (size ∷ sizes) =
      let (out, q) = read_prefix_conn p size in let (outs, r) = read_all q sizes in (out ++ outs, r)

take-drop : (n : ℕ) (s : Bytes) → take n s ++ drop n s ≡ s
take-drop zero s = refl
take-drop (suc n) [] = refl
take-drop (suc n) (b ∷ s) = ap (◌∷◌ b) (take-drop n s)

read_full-append :
    (n : ℕ) (stream got rest : Bytes) → read_full n stream ≡ some (got, rest) → got ++ rest ≡ stream
unfolding read_full
read_full-append n stream got rest h = elim (Bool-cases (leb n (length stream))) [
  | inl e ↦ ground (arith, rw e at h, take-drop n stream)
  | inr e ↦ absurd (cc (rw e at h))
]

module _ (c : CryptoByte) where
  abbrev Keeps : Bytes → Peeked → Type 0
  Keeps stream p = p.failed ≡ false → p.buffered ++ p.rest ≡ stream

  pick-Keeps :
      (b : Bool) (p q : Peeked) (stream : Bytes)
      → Keeps stream p
      → Keeps stream q
      → Keeps stream (if b then p else q)
  pick-Keeps true p q stream k l = k
  pick-Keeps false p q stream k l = l

  after_body-Keeps :
      (header stream : Bytes) (o : Option (Bytes × Bytes))
      → ((body rest : Bytes) → o ≡ some (body, rest) → body ++ rest ≡ stream)
      → Keeps (header ++ stream) (after_body c header o)
  unfolding after_body peek_body
  after_body-Keeps header stream none parts h = cc
  after_body-Keeps header stream (some (body, rest)) parts h =
      append_assoc header body rest ∙ ap (λ s. header ++ s) (parts body rest refl)

  after_header-Keeps :
      (stream : Bytes) (o : Option (Bytes × Bytes))
      → ((header rest : Bytes) → o ≡ some (header, rest) → header ++ rest ≡ stream)
      → Keeps stream (after_header c o)
  unfolding after_header
  after_header-Keeps stream none parts = λ h. cc h
  after_header-Keeps stream (some (header, rest)) parts =
      subst (λ s. Keeps s (after_header c (some (header, rest)))) (parts header rest refl)
        (pick-Keeps
          (not (eqb (get_or header 0 0) 22)
            || (eqb (record_size c header) 0 || ltb 16384 (record_size c header)))
          _ _ _ (λ h. refl)
          (after_body-Keeps header rest (read_full (record_size c header) rest)
            (read_full-append (record_size c header) rest)))

  -- If no read fails, the bytes that `peekClientHelloSNI` gives back and those that the connection
  -- still has are the bytes of the connection, in order: none is lost and none comes in.
  pub peek-append :
      (stream : Bytes)
      → (peek_client_hello_sni c stream).failed ≡ false
      → (peek_client_hello_sni c stream).buffered ++ (peek_client_hello_sni c stream).rest ≡ stream
  unfolding peek_client_hello_sni
  peek-append stream = after_header-Keeps stream (read_full 5 stream) (read_full-append 5 stream)

drop_past : (n : ℕ) (s : Bytes) → length s ≤ n → drop n s ≡ []
drop_past zero [] h = refl
drop_past zero (b ∷ s) h = absurd (omega (arith, h))
drop_past (suc n) [] h = refl
drop_past (suc n) (b ∷ s) h = drop_past n s (omega (arith, h))

drop-take : (n : ℕ) (s : Bytes) → drop (length (take n s)) s ≡ drop n s
drop-take zero s = refl
drop-take (suc n) [] = refl
drop-take (suc n) (b ∷ s) = drop-take n s

drop-add : (n k : ℕ) (s : Bytes) → drop (n + k) s ≡ drop k (drop n s)
drop-add zero k s = ap (λ n. drop n s) (omega arith)
drop-add (suc n) k [] = drop_past (suc n + k) [] (omega arith) ∙ sym (drop_past k [] (omega arith))
drop-add (suc n) k (b ∷ s) =
    ap (λ m. drop m (b ∷ s)) {y = suc (n + k)} (omega arith) ∙ drop-add n k s

module _ {S : Type 0} (conn : Conn S) where
  read_prefix_conn-pending :
      (p : PrefixConn conn) (size : ℕ)
      → (read_prefix_conn conn p size).0 ++ prefix_pending conn (read_prefix_conn conn p size).1
        ≡ prefix_pending conn p
  unfolding read_prefix_conn
  read_prefix_conn-pending p size = elim (Bool-cases (ltb p.off (length p.prefix))) [
    | inl e ↦
        rw
          (
            e,
            drop-add p.off (length (take size (drop p.off p.prefix))) p.prefix,
            drop-take size (drop p.off p.prefix),
          )
          (sym (append_assoc (take size (drop p.off p.prefix)) _ _)
            ∙ ap (λ s. s ++ conn.pending p.under) (take-drop size (drop p.off p.prefix)))
    | inr e ↦ rw (e, drop_past p.off p.prefix (ground (arith, e))) (conn.reads p.under size)
  ]

  read_all-append :
      (sizes : List ℕ) (p : PrefixConn conn)
      → (read_all conn p sizes).0 ++ prefix_pending conn (read_all conn p sizes).1
        ≡ prefix_pending conn p
  unfolding read_all
  read_all-append [] p = refl
  read_all-append (size ∷ sizes) p =
      let q = (read_prefix_conn conn p size).1 in
      append_assoc (read_prefix_conn conn p size).0 (read_all conn q sizes).0 _
      ∙ ap (λ s. (read_prefix_conn conn p size).0 ++ s) (read_all-append sizes q)
      ∙ read_prefix_conn-pending p size

  -- Reads through a `prefixConn` give, whatever the sizes of their buffers are, first the prefix and
  -- then what the connection gives: what is read and what is still to come is always the prefix and
  -- the bytes of the connection, in order.
  pub read_all-pending :
      (sizes : List ℕ) (s : S) (prefix : Bytes)
      → (read_all conn (new_prefix_conn conn s prefix) sizes).0
          ++ prefix_pending conn (read_all conn (new_prefix_conn conn s prefix) sizes).1
        ≡ prefix ++ conn.pending s
  unfolding new_prefix_conn
  read_all-pending sizes s prefix = read_all-append sizes (new_prefix_conn conn s prefix)
