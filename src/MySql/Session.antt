-- ===== src/MySql/Session.antt =====
-- The response readers of mysql_protocol.go over a MySQLPacketReader: what holds of a connection
-- whatever the segments that its bytes come in.
use starrocks_shadow_proxy.MySql.Forward.{read_and_forward_response}
use starrocks_shadow_proxy.MySql.Forward.Conserve.{forward-Moved, MovedBytes}
use starrocks_shadow_proxy.MySql.Reader.{Reader, read_packet}
use starrocks_shadow_proxy.MySql.Reader.Packets.{
  split_packet, split_packet-some, read_packet-Takes, Takes, IsPacket, split_packet-append,
  some_pair,
}
use starrocks_shadow_proxy.MySql.Reader.Window.{Valid, stream}
use starrocks_shadow_proxy.MySql.Response.{read_full_response}
use starrocks_shadow_proxy.MySql.Response.Fuel.{EndsBelow, read_full_response-ends}
use starrocks_shadow_proxy.MySql.Response.Related.{Counted, read_full_response-Same}
use starrocks_shadow_proxy.Net.Arrival.{stops}
use starrocks_shadow_proxy.Prelude.{
  ℕ, ◌<◌, ◌≡◌, ◌≢◌, sym, ap, ◌∙◌, ◌++◌, Bytes, length, length-append, some, arith,
}
use starrocks_shadow_proxy.Prelude.Outcome.{net, out_of_fuel, Outcome, ok, err, M}
use starrocks_shadow_proxy.Prelude.Rules.{Post, Post-mono, Sim}

-- A packet read from a reader stands at the front of its stream.
abbrev pub Fronts : Reader → Outcome Reader Bytes → Type 0
Fronts r =
    Post (λ p r'. Valid r' × IsPacket p × (p ++ stream r' ≡ stream r))
      (λ e _. e ≡ net (stops r.conn))

fronts : (r : Reader) (out : Outcome Reader Bytes) → Takes r out → Fronts r out
fronts r (ok p r') (v, s, _) =
    let (k, e) = split_packet-some (stream r) p (stream r') s in (v, k, e)
fronts r (err e r') (_, why) = why

pub read_packet-Fronts : (r : Reader) → Valid r → Fronts r (read_packet r)
read_packet-Fronts r v = fronts r (read_packet r) (read_packet-Takes r v)

-- `ReadPacket` by a well-formed reader on a stream that begins with a packet returns it and leaves
-- what follows, however the bytes are cut into segments.
pub read_packet-append :
    (r : Reader) (p rest : Bytes)
    → Valid r
    → IsPacket p
    → stream r ≡ p ++ rest
    → (r' : Reader) × (read_packet r ≡ ok p r') × Valid r' × (stream r' ≡ rest)
read_packet-append r p rest v k h = found (read_packet r) (read_packet-Takes r v)
  where
    whole : split_packet (stream r) ≡ some (p, rest)
    whole = ap split_packet h ∙ split_packet-append p rest k

    found :
        (out : Outcome Reader Bytes)
        → Takes r out
        → (r' : Reader) × (out ≡ ok p r') × Valid r' × (stream r' ≡ rest)
    found (ok q r') (v', s, _) =
        let (a, b) = some_pair q (stream r') p rest (sym s ∙ whole) in
        (r', ap (λ x. ok x r') a, v', b)
    found (err e r') (none_there, _) = cc whole

-- Two readers with the same bytes to come, however they are cut up.
abbrev pub SameStream : Reader → Reader → Type 0
SameStream r q = Valid r × Valid q × (stream r ≡ stream q) × (stops r.conn ≡ stops q.conn)

read_packet-SameStream :
    (r q : Reader)
    → SameStream r q
    → Sim SameStream (λ _ _. Unit {0}) (read_packet r) (read_packet q)
read_packet-SameStream r q (v, w, h, k) =
    both (read_packet r) (read_packet q) (read_packet-Takes r v) (read_packet-Takes q w)
  where
    both :
        (x y : Outcome Reader Bytes) → Takes r x → Takes q y → Sim SameStream (λ _ _. Unit {0}) x y
    both (ok a r') (ok b q') (v', s, t) (w', s', t') =
        let (e, f) = some_pair a (stream r') b (stream q') (sym s ∙ ap split_packet h ∙ s') in
        (e, (v', w', f, t ∙ k ∙ sym t'))
    both (err e r') (err f q') (_, t) (_, t') = (t ∙ ap net k ∙ sym t', tt)
    both (ok a r') (err f q') (_, s, _) (s', _) = cc (ap split_packet h)
    both (err e r') (ok b q') (s, _) (_, s', _) = cc (ap split_packet h)

-- How TCP cuts the server's bytes up does not show: with two well-formed readers whose connections
-- deliver the same bytes and end the same way, `ReadFullResponse` gives the same error or success
-- and the same count of bytes, and after success the same bytes are left to read.
pub read_full_response-SameStream :
    (fuel : ℕ) (r q : Reader)
    → SameStream r q
    → Sim
        (Counted SameStream)
        (Counted (λ _ _. Unit {0}))
        (read_full_response read_packet fuel r)
        (read_full_response read_packet fuel q)
read_full_response-SameStream =
    read_full_response-Same read_packet read_packet SameStream (λ _ _. Unit {0})
      read_packet-SameStream (λ _ _ _. tt)

front_shorter : (p a b : Bytes) → IsPacket p → p ++ a ≡ b → length a < length b
front_shorter p a b k e = omega (arith, ap length e, length-append p a, k)

read_packet-shrinks :
    (r : Reader)
    → Valid r
    → Post
        (λ _ r'. Valid r' × (length (stream r') < length (stream r)))
        (λ e _. e ≢ out_of_fuel)
        (read_packet r)
read_packet-shrinks r v = shorter (read_packet r) (read_packet-Fronts r v)
  where
    shorter :
        (out : Outcome Reader Bytes)
        → Fronts r out
        → Post
            (λ _ r'. Valid r' × (length (stream r') < length (stream r)))
            (λ e _. e ≢ out_of_fuel)
            out
    shorter (ok p r') (v', k, e) = (v', front_shorter p (stream r') (stream r) k e)
    shorter (err e r') why = λ h. cc

-- `ReadFullResponse` ends on every stream of a well-formed reader: with fuel above the number of
-- bytes to come its loops never run out, whatever the server sends.
pub read_full_response_ends :
    (fuel : ℕ) (r : Reader)
    → Valid r
    → length (stream r) < fuel
    → EndsBelow Valid (λ q. length (stream q)) fuel (read_full_response read_packet fuel r)
read_full_response_ends =
    read_full_response-ends read_packet Valid (λ q. length (stream q)) read_packet-shrinks

-- A writer that has taken all the bytes of a write that it reports as done, as `io.Writer` asks.
pub record Sink : Type 1 where
  pub D : Type 0
  pub write : Bytes → M D (Unit {0})
  pub written : D → Bytes
  pub appends :
      (bs : Bytes) (d : D)
      → Post (λ _ d'. written d' ≡ written d ++ bs) (λ _ _. Unit {0}) (write bs d)

-- With a well-formed reader and a writer that takes all of each write that it reports as done,
-- when `ReadAndForwardResponse` succeeds, the client has been sent exactly the bytes that were
-- taken from the primary's stream, in order and nothing else, and the count returned is their
-- number; the reader stays well formed.
pub read_and_forward_response-MovedBytes :
    (k : Sink) (fuel : ℕ) (r : Reader) (d : k.D)
    → Valid r
    → Post
        (λ _ t. MovedBytes stream k.written Valid r d t)
        (λ _ _. Unit {0})
        (read_and_forward_response read_packet k.write fuel r d)
read_and_forward_response-MovedBytes k fuel r d =
    forward-Moved read_packet k.write stream k.written Valid
      (λ s v.
        Post-mono _ _ _ _ (read_packet s) (λ p s' h. (h.0, h.2)) (λ _ _ _. tt)
          (read_packet-Fronts s v))
      k.appends r d fuel
