-- ===== src/MySql/Handshake/Relayed.antt =====
-- What the handshake passes on.
use starrocks_shadow_proxy.MySql.Auth.{remove_unsupported_capabilities}
use starrocks_shadow_proxy.MySql.Handshake.{
  Link, responds, from_client, from_primary, to_client, to_primary, switch_auth, conclude,
  forward_mysql_handshake,
}
use starrocks_shadow_proxy.MySql.Reader.Packets.{IsPacket}
use starrocks_shadow_proxy.MySql.Wire.{u24, read_mysql_packet}
use starrocks_shadow_proxy.Net.{Conn, read_full}
use starrocks_shadow_proxy.Net.Arrival.{arriving}
use starrocks_shadow_proxy.Net.Full.{Full, read_full-Full}
use starrocks_shadow_proxy.Prelude.{
  ◌≡◌, refl, sym, ap, ◌∙◌, true, false, Bytes, [], ◌++◌, append_assoc, append-nil, length,
  length-append, get_or-append_lt, arith, if◌then◌else◌,
}
use starrocks_shadow_proxy.Prelude.Outcome.{
  Outcome, ok, err, authentication_failed, M, continue_with, pure, fail,
}
use starrocks_shadow_proxy.Prelude.Rules.{Post, Post-bind, Post-mono}

-- A packet is taken off the front.
abbrev pub Taken : Conn → Outcome Conn Bytes → Type 0
Taken c = Post (λ p c'. (arriving c ≡ p ++ arriving c') × IsPacket p) (λ _ _. Unit {0})

header-IsPacket : (h b : Bytes) → length h ≡ 4 → length b ≡ u24 h 0 → IsPacket (h ++ b)
header-IsPacket h b m n = omega (
  arith,
  m,
  n,
  length-append h b,
  get_or-append_lt h b 0 0 (omega arith),
  get_or-append_lt h b 1 0 (omega arith),
  get_or-append_lt h b 2 0 (omega arith),
)

pub read_mysql_packet-Taken : (c : Conn) → Taken c (read_mysql_packet c)
unfolding read_mysql_packet
read_mysql_packet-Taken c = header (read_full 4 c) (read_full-Full 4 c)
  where
    payload :
        (h : Bytes) (c1 : Conn) (out : Outcome Conn Bytes)
        → arriving c ≡ h ++ arriving c1
        → length h ≡ 4
        → Full [] (u24 h 0) c1 out
        → Taken c (continue_with out (λ b. pure (h ++ b)))
    payload h c1 (ok b c2) e m (tail, is, n, front, _) = (
      e
          ∙ ap (λ z. h ++ z) (sym front)
          ∙ sym (append_assoc h tail (arriving c2))
          ∙ ap (λ z. (h ++ z) ++ arriving c2) (sym is),
      header-IsPacket h b m (ap length is ∙ n),
    )
    payload h c1 (err x c2) e m f = tt

    header :
        (out : Outcome Conn Bytes)
        → Full [] 4 c out
        → Taken c (
            continue_with out (λ h c1. continue_with (read_full (u24 h 0) c1) (λ b. pure (h ++ b))))
    header (ok h c1) (tail, is, n, front, _) =
        payload h c1 (read_full (u24 h 0) c1) (sym front ∙ ap (λ z. z ++ arriving c1) (sym is))
          (ap length is ∙ n) (read_full-Full (u24 h 0) c1)
    header (err x c1) f = tt

module _ {P D : Type 0} (write_client : Bytes → M D (Unit {0}))
    (write_primary : Bytes → M P (Unit {0})) (sent_c : D → Bytes) (sent_p : P → Bytes)
    (client_takes : (bs : Bytes) (d : D)
      → Post (λ _ d'. sent_c d' ≡ sent_c d ++ bs) (λ _ _. Unit {0}) (write_client bs d))
    (primary_takes : (bs : Bytes) (p : P)
      → Post (λ _ p'. sent_p p' ≡ sent_p p ++ bs) (λ _ _. Unit {0}) (write_primary bs p))
    (start : Link P D) where
  -- Since `start`: `x` was read from the primary and `w` written to the client, `a` was read from
  -- the client and `b` written to the primary.
  abbrev pub Passed : Bytes → Bytes → Bytes → Bytes → Link P D → Type 0
  Passed x w a b l =
      (arriving start.primary_in ≡ x ++ arriving l.primary_in)
      × (sent_c l.client_out ≡ sent_c start.client_out ++ w)
      × (arriving start.client_in ≡ a ++ arriving l.client_in)
      × (sent_p l.primary_out ≡ sent_p start.primary_out ++ b)

  abbrev pub Good : {A : Type 0} → (A → Link P D → Type 0) → Outcome (Link P D) A → Type 0
  Good Q = Post Q (λ _ _. Unit {0})

  more_front : (s x p r r' : Bytes) → s ≡ x ++ r → r ≡ p ++ r' → s ≡ (x ++ p) ++ r'
  more_front s x p r r' e f = e ∙ ap (λ z. x ++ z) f ∙ sym (append_assoc x p r')

  more_sent : (t s w bs t' : Bytes) → t ≡ s ++ w → t' ≡ t ++ bs → t' ≡ s ++ (w ++ bs)
  more_sent t s w bs t' e f = f ∙ ap (λ z. z ++ bs) e ∙ append_assoc s w bs

  module _ (x w a b : Bytes) (l : Link P D) (h : Passed x w a b l) where
    pub from_primary-Passed :
        Good (λ p l'. Passed (x ++ p) w a b l') (from_primary write_client write_primary l)
    unfolding from_primary
    from_primary-Passed =
        got (read_mysql_packet l.primary_in) (read_mysql_packet-Taken l.primary_in)
      where
        got :
            (out : Outcome Conn Bytes)
            → Taken l.primary_in out
            → Good
                (λ p l'. Passed (x ++ p) w a b l')
                (elim out [
                  | ok p c ↦ ok p (record l { primary_in = c })
                  | err e c ↦ err e (record l { primary_in = c })
                ])
        got (ok p c) (t, k) = (more_front _ x p _ _ h.0 t, h.1, h.2, h.3)
        got (err e c) t = tt

    pub from_client-Passed :
        Good
          (λ p l'. Passed x w (a ++ p) b l' × IsPacket p)
          (from_client write_client write_primary l)
    unfolding from_client
    from_client-Passed = got (read_mysql_packet l.client_in) (read_mysql_packet-Taken l.client_in)
      where
        got :
            (out : Outcome Conn Bytes)
            → Taken l.client_in out
            → Good
                (λ p l'. Passed x w (a ++ p) b l' × IsPacket p)
                (elim out [
                  | ok p c ↦ ok p (record l { client_in = c })
                  | err e c ↦ err e (record l { client_in = c })
                ])
        got (ok p c) (t, k) = ((h.0, h.1, more_front _ a p _ _ h.2 t, h.3), k)
        got (err e c) t = tt

    pub to_client-Passed :
        (bs : Bytes)
        → Good (λ _ l'. Passed x (w ++ bs) a b l') (to_client write_client write_primary bs l)
    unfolding to_client
    to_client-Passed bs = done (write_client bs l.client_out) (client_takes bs l.client_out)
      where
        done :
            (out : Outcome D (Unit {0}))
            → Post (λ _ d'. sent_c d' ≡ sent_c l.client_out ++ bs) (λ _ _. Unit {0}) out
            → Good
                (λ _ l'. Passed x (w ++ bs) a b l')
                (elim out [
                  | ok _ d ↦ ok tt (record l { client_out = d })
                  | err e d ↦ err e (record l { client_out = d })
                ])
        done (ok _ d) t = (h.0, more_sent _ _ w bs _ h.1 t, h.2, h.3)
        done (err e d) t = tt

    pub to_primary-Passed :
        (bs : Bytes)
        → Good (λ _ l'. Passed x w a (b ++ bs) l') (to_primary write_client write_primary bs l)
    unfolding to_primary
    to_primary-Passed bs = done (write_primary bs l.primary_out) (primary_takes bs l.primary_out)
      where
        done :
            (out : Outcome P (Unit {0}))
            → Post (λ _ d'. sent_p d' ≡ sent_p l.primary_out ++ bs) (λ _ _. Unit {0}) out
            → Good
                (λ _ l'. Passed x w a (b ++ bs) l')
                (elim out [
                  | ok _ d ↦ ok tt (record l { primary_out = d })
                  | err e d ↦ err e (record l { primary_out = d })
                ])
        done (ok _ d) t = (h.0, h.1, h.2, more_sent _ _ b bs _ h.3 t)
        done (err e d) t = tt

  module _ (w a b : Bytes) (l : Link P D) where
    pub conclude-Passed :
        (x r : Bytes)
        → Passed x w a b l
        → Good (λ _ l'. Passed x (w ++ r) a b l') (conclude write_client write_primary r l)
    unfolding conclude
    conclude-Passed x r h =
        Post-bind _ _ _ (to_client write_client write_primary r l) _
          (to_client-Passed x w a b l h r) (λ _ l' k. answer (responds 0xff r) l' k)
      where
        answer :
            (refused : _) (l' : Link P D)
            → Passed x (w ++ r) a b l'
            → Good
                (λ _ l''. Passed x (w ++ r) a b l'')
                ((if refused then fail authentication_failed else pure tt) l')
        answer true l' k = tt
        answer false l' k = k

    -- The last answer has been read and not yet written.
    abbrev pub Pending : Bytes → Link P D → Type 0
    Pending last l' = (v : Bytes) × (s : Bytes) × Passed (v ++ last) v (a ++ s) (b ++ s) l'

    switch_auth-Pending :
        (r : Bytes)
        → Passed (w ++ r) w a b l
        → Good Pending (switch_auth write_client write_primary r l)
    unfolding switch_auth
    switch_auth-Pending r h =
        Post-bind _ _ _ (to_client write_client write_primary r l) _
          (to_client-Passed (w ++ r) w a b l h r)
          (λ _ l1 h1.
            Post-bind _ _ _ (from_client write_client write_primary l1) _
              (from_client-Passed (w ++ r) (w ++ r) a b l1 h1)
              (λ s l2 (h2, _).
                Post-bind _ _ _ (to_primary write_client write_primary s l2) _
                  (to_primary-Passed (w ++ r) (w ++ r) (a ++ s) b l2 h2 s)
                  (λ _ l3 h3.
                    Post-mono _ Pending _ _ (from_primary write_client write_primary l3)
                      (λ p l4 h4. (w ++ r, s, h4)) (λ _ _ _. tt)
                      (from_primary-Passed (w ++ r) (w ++ r) (a ++ s) (b ++ s) l3 h3))))

    pub last_answer-Pending :
        (r : Bytes)
        → Passed (w ++ r) w a b l
        → Good Pending
            ((if responds 0xfe r then switch_auth write_client write_primary r else pure r) l)
    last_answer-Pending r h = by_kind (responds 0xfe r)
      where
        by_kind :
            (switched : _)
            → Good Pending
                ((if switched then switch_auth write_client write_primary r else pure r) l)
        by_kind true = switch_auth-Pending r h
        by_kind false = (w, [], (h.0, h.1, rw (append-nil a) h.2, rw (append-nil b) h.3))

  -- The whole login.
  abbrev pub LoggedIn : Link P D → Type 0
  LoggedIn l =
      (x : Bytes) × (auth : Bytes) × (s : Bytes) × IsPacket auth
      × Passed x x (auth ++ s) (remove_unsupported_capabilities auth ++ s) l

  -- When the login succeeds, with writers that take all of each write that they report as done,
  -- the client has been sent exactly the bytes that were read from the primary, in order, and the
  -- primary exactly those that were read from the client, but for the first packet, the login, out
  -- of which the unsupported capabilities are taken. That holds with and without a switch of the
  -- authentication method.
  pub forward_mysql_handshake-LoggedIn :
      Good (λ _ l. LoggedIn l) (forward_mysql_handshake write_client write_primary start)
  unfolding forward_mysql_handshake
  forward_mysql_handshake-LoggedIn =
      Post-bind _ _ _ (from_primary write_client write_primary start) _
        (from_primary-Passed [] [] [] [] start (
          refl,
          sym (append-nil (sent_c start.client_out)),
          refl,
          sym (append-nil (sent_p start.primary_out)),
        ))
        (λ x l1 h1.
          Post-bind _ _ _ (to_client write_client write_primary x l1) _
            (to_client-Passed x [] [] [] l1 h1 x)
            (λ _ l2 h2.
              Post-bind _ _ _ (from_client write_client write_primary l2) _
                (from_client-Passed x x [] [] l2 h2)
                (λ auth l3 (h3, k).
                  let cleaned = remove_unsupported_capabilities auth in
                  Post-bind _ _ _ (to_primary write_client write_primary cleaned l3) _
                    (to_primary-Passed x x auth [] l3 h3 cleaned)
                    (λ _ l4 h4.
                      Post-bind _ _ _ (from_primary write_client write_primary l4) _
                        (from_primary-Passed x x auth cleaned l4 h4)
                        (λ r l5 h5.
                          Post-bind _ _ _
                            ((if responds 0xfe r
                                then switch_auth write_client write_primary r
                                else pure r)
                              l5)
                            _ (last_answer-Pending x auth cleaned l5 r h5)
                            (λ last l6 (v, s, h6).
                              Post-mono _ _ _ _ (conclude write_client write_primary last l6)
                                (λ _ l7 h7. (v ++ last, auth, s, k, h7)) (λ _ _ _. tt)
                                (conclude-Passed v (auth ++ s) (cleaned ++ s) l6 (v ++ last) last
                                  h6)))))))
