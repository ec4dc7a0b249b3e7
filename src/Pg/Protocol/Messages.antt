-- ===== src/Pg/Protocol/Messages.antt =====
-- What ReadMessage and ReadStartupMessage take off a connection, and messages in a row.
use starrocks_shadow_proxy.MySql.Wire.{byte}
use starrocks_shadow_proxy.Net.{Conn, read_full}
use starrocks_shadow_proxy.Net.Arrival.{arriving}
use starrocks_shadow_proxy.Net.Full.{Full, read_full-Full, read_full-fuel}
use starrocks_shadow_proxy.Pg.Protocol.{
  PgPacket, bytes, be32, pg_max_message_size, read_startup_message, read_message, read_message_body,
}
use starrocks_shadow_proxy.Prelude.{
  ◌-◌, ◌≤◌, ◌≡◌, ◌≢◌, refl, sym, ap, ◌∙◌, Bool, true, false, ◌||◌, List, [], ◌∷◌, ◌++◌,
  append_assoc, Bytes, length, length-append, drop, ltb, if◌then◌else◌, arith,
}
use starrocks_shadow_proxy.Prelude.Outcome.{
  out_of_fuel, Outcome, ok, err, invalid_length, continue_with, pure, fail,
}
use starrocks_shadow_proxy.Prelude.Rules.{Post}

-- A message as it stands on the wire: its type, also if that is zero, and [length:4][body].
unfoldable pub wire : PgPacket → Bytes
wire p = p.type_byte ∷ p.payload

unfoldable pub wires : List PgPacket → Bytes
wires [] = []
wires (p ∷ ps) = wire p ++ wires ps

-- The messages as `Bytes` writes them.
unfoldable pub written : List PgPacket → Bytes
written [] = []
written (p ∷ ps) = bytes p ++ written ps

-- One message is taken off the front of the stream; an error is not the model's.
abbrev pub TakesMessage : Conn → Outcome Conn PgPacket → Type 0
TakesMessage c = Post (λ p c'. arriving c ≡ wire p ++ arriving c') (λ e _. e ≢ out_of_fuel)

abbrev pub TakesStartup : Conn → Outcome Conn PgPacket → Type 0
TakesStartup c =
    Post
      (λ p c'. (arriving c ≡ p.payload ++ arriving c') × (p.type_byte ≡ 0) × (4 ≤ length p.payload))
      (λ e _. e ≢ out_of_fuel)

-- The parts of a message: `h` was read, then `b` with the rest of its bytes.
parts :
    (c : Conn) (h : Bytes) (c1 : Conn) (b : Bytes) (c2 : Conn)
    → h ++ arriving c1 ≡ arriving c
    → b ++ arriving c2 ≡ arriving c1
    → arriving c ≡ (h ++ b) ++ arriving c2
parts c h c1 b c2 e f = sym e ∙ ap (λ z. h ++ z) (sym f) ∙ sym (append_assoc h b (arriving c2))

head_and_rest : (h b : Bytes) → 1 ≤ length h → h ++ b ≡ byte h 0 ∷ (drop 1 h ++ b)
head_and_rest [] b n = absurd (omega arith)
head_and_rest (x ∷ h) b n = refl

read_message_body-Takes :
    (c : Conn) (h : Bytes) (c1 : Conn)
    → h ++ arriving c1 ≡ arriving c
    → length h ≡ 5
    → TakesMessage c (read_message_body h c1)
unfolding read_message_body wire
read_message_body-Takes c h c1 e n =
    by_length (ltb (be32 h 1) 4 || ltb pg_max_message_size (be32 h 1)) (read_full (be32 h 1 - 4) c1)
      (read_full-Full (be32 h 1 - 4) c1) (read_full-fuel (be32 h 1 - 4) c1)
  where
    by_length :
        (unfit : Bool) (out : Outcome Conn Bytes)
        → Full [] (be32 h 1 - 4) c1 out
        → Post (λ _ _. Unit {0}) (λ x _. x ≢ out_of_fuel) out
        → TakesMessage c (
            if unfit
            then err (invalid_length (be32 h 1)) c1
            else continue_with out
                (λ b c'. ok (record { type_byte = byte h 0; payload = drop 1 h ++ b }) c'))
    by_length true out f k = λ x. cc
    by_length false (err x c2) f k = k
    by_length false (ok b c2) (tail, is, _, front, _) k =
        parts c h c1 b c2 e (ap (λ z. z ++ arriving c2) is ∙ front)
        ∙ ap (λ z. z ++ arriving c2) (head_and_rest h b (omega (arith, n)))

pub read_message-Takes : (c : Conn) → TakesMessage c (read_message c)
unfolding read_message wire
read_message-Takes c = header (read_full 5 c) (read_full-Full 5 c) (read_full-fuel 5 c)
  where
    header :
        (out : Outcome Conn Bytes)
        → Full [] 5 c out
        → Post (λ _ _. Unit {0}) (λ x _. x ≢ out_of_fuel) out
        → TakesMessage c (continue_with out read_message_body)
    header (err x c1) f k = k
    header (ok h c1) (tail, is, n, front, _) k =
        read_message_body-Takes c h c1 (ap (λ z. z ++ arriving c1) is ∙ front) (ap length is ∙ n)

pub read_startup_message-Takes : (c : Conn) → TakesStartup c (read_startup_message c)
unfolding read_startup_message
read_startup_message-Takes c = header (read_full 4 c) (read_full-Full 4 c) (read_full-fuel 4 c)
  where
    by_length :
        (h : Bytes) (c1 : Conn) (unfit : Bool) (out : Outcome Conn Bytes)
        → h ++ arriving c1 ≡ arriving c
        → length h ≡ 4
        → Full [] (be32 h 0 - 4) c1 out
        → Post (λ _ _. Unit {0}) (λ x _. x ≢ out_of_fuel) out
        → TakesStartup c (
            if unfit
            then err (invalid_length (be32 h 0)) c1
            else continue_with out (λ b. pure (record { type_byte = 0; payload = h ++ b })))
    by_length h c1 true out e n f k = λ x. cc
    by_length h c1 false (err x c2) e n f k = k
    by_length h c1 false (ok b c2) e n (tail, is, m, front, _) k = (
      parts c h c1 b c2 e (ap (λ z. z ++ arriving c2) is ∙ front),
      refl,
      omega (arith, length-append h b, n),
    )

    by_if :
        (h : Bytes) (c1 : Conn) (unfit : Bool)
        → TakesStartup c (
            if unfit
            then err (invalid_length (be32 h 0)) c1
            else continue_with
                (read_full (be32 h 0 - 4) c1)
                (λ b. pure (record { type_byte = 0; payload = h ++ b })))
        → TakesStartup c (
            (if unfit then fail (invalid_length (be32 h 0)) else (λ c'.
                continue_with
                  (read_full (be32 h 0 - 4) c')
                  (λ b. pure (record { type_byte = 0; payload = h ++ b }))))
              c1)
    by_if h c1 true t = t
    by_if h c1 false t = t

    header :
        (out : Outcome Conn Bytes)
        → Full [] 4 c out
        → Post (λ _ _. Unit {0}) (λ x _. x ≢ out_of_fuel) out
        → TakesStartup c (
            continue_with out (λ h.
              let length_field = be32 h 0 in
              if ltb length_field 8 || ltb pg_max_message_size length_field
              then fail (invalid_length length_field)
              else (λ c'.
                  continue_with
                    (read_full (length_field - 4) c')
                    (λ b. pure (record { type_byte = 0; payload = h ++ b })))))
    header (err x c1) f k = k
    header (ok h c1) (tail, is, n, front, _) k =
        let b = ltb (be32 h 0) 8 || ltb pg_max_message_size (be32 h 0) in
        by_if h c1 b (
          by_length h c1 b (read_full (be32 h 0 - 4) c1) (ap (λ z. z ++ arriving c1) is ∙ front)
            (ap length is ∙ n) (read_full-Full (be32 h 0 - 4) c1)
            (read_full-fuel (be32 h 0 - 4) c1))
