-- ===== src/Pg/Protocol/Framing.antt =====
-- pgwire framing: a message survives being written and read back, however it is cut up on the way.
use starrocks_shadow_proxy.Net.{Conn, read_full}
use starrocks_shadow_proxy.Net.Arrival.{arriving, stops}
use starrocks_shadow_proxy.Net.Full.{Full, read_full-Full}
use starrocks_shadow_proxy.Pg.Protocol.{
  PgPacket, bytes, be32, pg_max_message_size, read_message, read_message_body,
}
use starrocks_shadow_proxy.Prelude.{
  ℕ, ◌-◌, ◌≤◌, ◌≡◌, sym, ap, ◌∙◌, false, [], ◌∷◌, ◌++◌, append_assoc, Bytes, length, drop, le→ltb,
  if◌then◌else◌, length-append, take-append_self, drop-append_self, take, arith, get_or-take,
  take-append-drop, length-drop, length-take, ◌==◌,
}
use starrocks_shadow_proxy.Prelude.Outcome.{Outcome, ok, err}

-- A regular message: its length field counts itself and the body, within the bound.
pub record IsMessage (p : PgPacket) : Type 0 where
  pub typed : ¬ (p.type_byte ≡ 0)
  pub at_least : 4 ≤ be32 p.payload 0
  pub bounded : be32 p.payload 0 ≤ pg_max_message_size
  pub counted : length p.payload ≡ be32 p.payload 0

abbrev pub ReadsBack : PgPacket → Bytes → Conn → Outcome Conn PgPacket → Type 0
ReadsBack p rest c out = (c' : Conn) × (out ≡ ok p c') × (arriving c' ≡ rest) × (stops c' ≡ stops c)

-- Two texts of one length at the front of one stream are the same.
same_front : (a b x y : Bytes) → length a ≡ length b → a ++ x ≡ b ++ y → (a ≡ b) × (x ≡ y)
same_front a b x y n e = (
  sym (take-append_self a x) ∙ ap (take (length a)) e ∙ rw n (take-append_self b y),
  sym (drop-append_self a x) ∙ ap (drop (length a)) e ∙ rw n (drop-append_self b y),
)

-- `io.ReadFull` on a stream that begins with the bytes wanted.
read_full-append :
    (c : Conn) (n : ℕ) (a rest : Bytes)
    → length a ≡ n
    → arriving c ≡ a ++ rest
    → (c' : Conn) × (read_full n c ≡ ok a c') × (arriving c' ≡ rest) × (stops c' ≡ stops c)
read_full-append c n a rest len e = found (read_full n c) (read_full-Full n c)
  where
    found :
        (out : Outcome Conn Bytes)
        → Full [] n c out
        → (c' : Conn) × (out ≡ ok a c') × (arriving c' ≡ rest) × (stops c' ≡ stops c)
    found (ok bs c') (tail, b, m, f, t) =
        let (g, h) = same_front tail a (arriving c') rest (m ∙ sym len) (f ∙ e) in
        (c', ap (λ x. ok x c') (b ∙ g), h, t)
    found (err x c') few = absurd (omega (arith, ap length e, length-append a rest, len))

module _ (p : PgPacket) (m : IsMessage p) where
  abbrev header : Bytes
  header = p.type_byte ∷ take 4 p.payload

  abbrev body : Bytes
  body = drop 4 p.payload

  header_length : be32 header 1 ≡ be32 p.payload 0
  header_length = omega (
    arith,
    get_or-take 4 0 p.payload 0 (omega arith),
    get_or-take 4 1 p.payload 0 (omega arith),
    get_or-take 4 2 p.payload 0 (omega arith),
    get_or-take 4 3 p.payload 0 (omega arith),
  )

  bytes-split : (rest : Bytes) → bytes p ++ rest ≡ header ++ (body ++ rest)
  unfolding bytes
  bytes-split rest =
      let typed : (p.type_byte == 0) ≡ false = ground (arith, m.typed) in
      rw (typed, if◌then◌else◌)
        (ap (λ x. p.type_byte ∷ (x ++ rest)) (sym (take-append-drop 4 p.payload))
          ∙ ap (λ x. p.type_byte ∷ x) (append_assoc (take 4 p.payload) body rest))

  read_body :
      (rest : Bytes) (c : Conn)
      → arriving c ≡ body ++ rest
      → ReadsBack p rest c (read_message_body header c)
  unfolding read_message_body
  read_body rest c e =
      let (c', got, after, same) =
        read_full-append c (be32 p.payload 0 - 4) body rest
          (omega (arith, length-drop 4 p.payload, m.counted)) e in
      (
        c',
        rw (
          header_length,
          le→ltb (be32 p.payload 0) 4 m.at_least,
          le→ltb pg_max_message_size (be32 p.payload 0) m.bounded,
          got,
          take-append-drop 4 p.payload,
        ),
        after,
        same,
      )

-- `ReadMessage` reads back what `Bytes` wrote of a message with a type, whose length field is
-- right and within the bound, and leaves what follows, however the bytes of the message are cut
-- into segments.
pub read_message-bytes :
    (p : PgPacket) (rest : Bytes) (c : Conn)
    → IsMessage p
    → arriving c ≡ bytes p ++ rest
    → ReadsBack p rest c (read_message c)
unfolding read_message
read_message-bytes p rest c m e =
    let (c1, got, after, same) =
      read_full-append c 5 (header p m) (body p m ++ rest)
        (ground (arith, length-take 4 p.payload, m.at_least, m.counted))
        (e ∙ bytes-split p m rest) in
    let (c2, got2, after2, same2) = read_body p m rest c1 after in
    (c2, rw (got, read_message) got2, after2, same2 ∙ same)
