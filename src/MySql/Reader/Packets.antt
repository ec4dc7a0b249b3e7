-- ===== src/MySql/Reader/Packets.antt =====
-- `ReadPacket` against the stream: whatever the segments, it takes one packet off the front.
use mathlib.Core.Path.{ap₂}
use starrocks_shadow_proxy.MySql.Reader.{Reader, ensure_bytes, read_packet, take_packet, slice}
use starrocks_shadow_proxy.MySql.Reader.Window.{
  Valid, window, stream, length-window, Filled, ensure_bytes-Filled,
}
use starrocks_shadow_proxy.MySql.Wire.{byte, u24}
use starrocks_shadow_proxy.Net.Arrival.{arriving, stops}
use starrocks_shadow_proxy.Prelude.{
  ℕ, ◌+◌, ◌≤◌, ◌<◌, ◌≡◌, sym, ap, ◌∙◌, ◌++◌, Bytes, length, take, drop, ltb, if◌then◌else◌,
  length-append, take-append_le, get_or-append_lt, get_or-drop, get_or-take, Option, none, some,
  arith, drop-drop, take-drop, take-take, drop-append_le, lt→ltb, ltb→lt, ltb→le, length-take,
  Bool-cases, inl, inr, [], take-append-drop, take-append_self, drop-append_self, le→ltb,
}
use starrocks_shadow_proxy.Prelude.Outcome.{net, Outcome, ok, err, continue_with}

-- One packet off the front of a byte stream, if the whole of it is there.
abbrev pub split_packet : Bytes → Option (Bytes × Bytes)
split_packet s =
    if ltb (length s) 4
    then none
    else if ltb (length s) (4 + u24 s 0)
    then none
    else some (take (4 + u24 s 0) s, drop (4 + u24 s 0) s)

abbrev pub Takes : Reader → Outcome Reader Bytes → Type 0
Takes r (ok p r') =
    Valid r' × (split_packet (stream r) ≡ some (p, stream r')) × (stops r'.conn ≡ stops r.conn)
Takes r (err e r') = (split_packet (stream r) ≡ none) × (e ≡ net (stops r.conn))

-- The header's bytes read from the buffer and from the stream are the same.
byte-window :
    (r : Reader) (i : ℕ)
    → Valid r
    → i < length (window r)
    → byte r.buf (r.offset + i) ≡ byte (stream r) i
byte-window r i v h = sym (
    get_or-append_lt (window r) (arriving r.conn) i 0 h
    ∙ get_or-drop r.offset i (take r.limit r.buf) 0
    ∙ get_or-take r.limit (r.offset + i) r.buf 0 (omega (arith, length-window r v)))

u24-window : (r : Reader) → Valid r → 4 ≤ length (window r) → u24 r.buf r.offset ≡ u24 (stream r) 0
u24-window r v h =
    let e : r.offset + 0 ≡ r.offset = omega arith in
    let b : byte r.buf r.offset ≡ byte (stream r) 0 = rw e at (byte-window r 0 v (omega arith)) in
    omega (arith, b, byte-window r 1 v (omega arith), byte-window r 2 v (omega arith))

-- What `ReadPacket` returns and leaves, once the window holds the packet.
module _ (r : Reader) (v : Valid r) (m : ℕ) (h : m ≤ length (window r)) where
  below_limit : r.offset + m ≤ r.limit
  below_limit = omega (arith, length-window r v, v.starts)

  taken_front : slice r.buf r.offset (r.offset + m) ≡ take m (stream r)
  taken_front =
      ap (drop r.offset) (sym (take-take (r.offset + m) r.limit r.buf below_limit))
      ∙ sym (take-drop m r.offset (take r.limit r.buf))
      ∙ sym (take-append_le m (window r) (arriving r.conn) h)

  left_over : stream (record r { offset = r.offset + m }) ≡ drop m (stream r)
  left_over =
      ap (λ w. w ++ arriving r.conn) (sym (drop-drop m r.offset (take r.limit r.buf)))
      ∙ sym (drop-append_le m (window r) (arriving r.conn) h)

split_packet_short : (s : Bytes) → length s < 4 → split_packet s ≡ none
split_packet_short s h = rw (lt→ltb (length s) 4 h)

split_packet_cut : (s : Bytes) → length s < 4 + u24 s 0 → split_packet s ≡ none
split_packet_cut s h = ground arith

split_packet_whole :
    (s : Bytes)
    → 4 + u24 s 0 ≤ length s
    → split_packet s ≡ some (take (4 + u24 s 0) s, drop (4 + u24 s 0) s)
split_packet_whole s h = rw (le→ltb (length s) 4 (omega arith), le→ltb (length s) (4 + u24 s 0) h)

body-Takes :
    (r r1 : Reader) (n : ℕ) (out : Outcome Reader (Unit {0}))
    → n ≡ u24 (stream r) 0
    → stream r1 ≡ stream r
    → stops r1.conn ≡ stops r.conn
    → Filled (4 + n) r1 out
    → Takes r (continue_with out (λ _. take_packet (4 + n)))
body-Takes r r1 n (err e r2) hn s t (why, few) =
    (split_packet_cut (stream r) (omega (arith, ap length s, hn)), rw (← t) why)
body-Takes r r1 n (ok _ r2) hn s t (v, h, s2, t2) =
    let e : stream r2 ≡ stream r = s2 ∙ s in
    let m : 4 + n ≡ 4 + u24 (stream r) 0 = omega (arith, hn) in
    let long : 4 + u24 (stream r) 0 ≤ length (stream r) =
      omega (arith, ap length e, length-append (window r2) (arriving r2.conn)) in
    (
      record { starts = omega (arith, below_limit r2 v (4 + n) h); fits = v.fits },
      split_packet_whole (stream r) long
          ∙ ap₂ (λ a b. some (a, b)) (rw (← m, ← e) (sym (taken_front r2 v (4 + n) h)))
              (rw (← m, ← e) (sym (left_over r2 v (4 + n) h))),
      t2 ∙ t,
    )

header-Takes :
    (r : Reader) (out : Outcome Reader (Unit {0}))
    → Filled 4 r out
    → Takes r (
        continue_with out (λ _ r1.
          continue_with
            (ensure_bytes (4 + u24 r1.buf r1.offset) r1)
            (λ _. take_packet (4 + u24 r1.buf r1.offset))))
header-Takes r (err e r1) (why, few) = (split_packet_short (stream r) few, why)
header-Takes r (ok _ r1) (v, h, s, t) =
    body-Takes r r1 (u24 r1.buf r1.offset) _ (u24-window r1 v h ∙ ap (λ x. u24 x 0) s) s t
      (ensure_bytes-Filled (4 + u24 r1.buf r1.offset) r1 v)

-- `ReadPacket` returns the packet at the front of the stream and leaves the rest, however the
-- bytes are cut into segments; it fails only where the stream ends inside a packet.
pub read_packet-Takes : (r : Reader) → Valid r → Takes r (read_packet r)
unfolding read_packet
read_packet-Takes r v = header-Takes r (ensure_bytes 4 r) (ensure_bytes-Filled 4 r v)

-- A packet as it stands on the wire: a header that states the payload's length, and the payload.
abbrev pub IsPacket : Bytes → Type 0
IsPacket p = length p ≡ 4 + u24 p 0

u24-take : (s : Bytes) (n : ℕ) → 4 ≤ n → u24 (take n s) 0 ≡ u24 s 0
u24-take s n h = omega (
  arith,
  get_or-take n 0 s 0 (omega arith),
  get_or-take n 1 s 0 (omega arith),
  get_or-take n 2 s 0 (omega arith),
)

take-IsPacket : (s : Bytes) → 4 + u24 s 0 ≤ length s → IsPacket (take (4 + u24 s 0) s)
take-IsPacket s h =
    omega (arith, length-take (4 + u24 s 0) s, u24-take s (4 + u24 s 0) (omega arith))

front : Option (Bytes × Bytes) → Bytes
front none = []
front (some x) = x.0

rest_of : Option (Bytes × Bytes) → Bytes
rest_of none = []
rest_of (some x) = x.1

pub some_pair :
    (a b c d : Bytes)
    → ◌≡◌ {A = Option (Bytes × Bytes)} (some (a, b)) (some (c, d))
    → (a ≡ c) × (b ≡ d)
unfolding front rest_of
some_pair a b c d h = (ap front h, ap rest_of h)

pub split_packet-some :
    (s p rest : Bytes) → split_packet s ≡ some (p, rest) → IsPacket p × (p ++ rest ≡ s)
split_packet-some s p rest h = elim (Bool-cases (ltb (length s) 4)) [
  | inl short ↦ cc (split_packet_short s (ltb→lt _ _ short))
  | inr long ↦ elim (Bool-cases (ltb (length s) (4 + u24 s 0))) [
    | inl cut ↦ cc (split_packet_cut s (ltb→lt _ _ cut))
    | inr whole ↦
        let fits : 4 + u24 s 0 ≤ length s = ltb→le _ _ whole in
        let same : some (take (4 + u24 s 0) s, drop (4 + u24 s 0) s) ≡ some (p, rest) =
          sym (split_packet_whole s fits) ∙ h in
        let (a, b) = some_pair _ _ _ _ same in
        (rw (← a) (take-IsPacket s fits), rw (← a, ← b) (take-append-drop (4 + u24 s 0) s))
  ]
]

-- The packet at the front of a stream is the one that is split off.
pub split_packet-append : (p rest : Bytes) → IsPacket p → split_packet (p ++ rest) ≡ some (p, rest)
split_packet-append p rest h =
    let n : 4 + u24 (p ++ rest) 0 ≡ length p = omega (
      arith,
      h,
      get_or-append_lt p rest 0 0 (omega arith),
      get_or-append_lt p rest 1 0 (omega arith),
      get_or-append_lt p rest 2 0 (omega arith),
    ) in
    split_packet_whole (p ++ rest) (omega (arith, n, length-append p rest))
    ∙ rw n (ap₂ (λ a b. some (a, b)) (take-append_self p rest) (drop-append_self p rest))
