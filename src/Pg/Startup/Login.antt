-- ===== src/Pg/Startup/Login.antt =====
-- forwardAuthPhase: it ends, and it relays messages, one of the client's for each
-- challenge of the primary.
use starrocks_shadow_proxy.Net.{Conn, read_full}
use starrocks_shadow_proxy.Net.Refusals.{NoRefusal, read_full-NoRefusal}
use starrocks_shadow_proxy.Net.Arrival.{arriving}
use starrocks_shadow_proxy.Pg.Protocol.{
  PgPacket, bytes, be32, pg_max_message_size, read_message_body, read_message,
}
use starrocks_shadow_proxy.Pg.Protocol.Messages.{wire, wires, TakesMessage, read_message-Takes}
use starrocks_shadow_proxy.Pg.Session.Forwarded.{length-wire}
use starrocks_shadow_proxy.Pg.Startup.{
  Link, Ends, on_client, on_primary, written_client, written_primary, to_client, to_primary,
  expects_none, relay_password, refuse, after_auth, forward_auth_phase,
}
use starrocks_shadow_proxy.Pg.Startup.Probes.{ToPrimary, ToClient}
use starrocks_shadow_proxy.Prelude.{
  ℕ, zero, suc, ◌-◌, ◌<◌, ◌≡◌, ◌≢◌, ◌||◌, Bool-cases, inl, inr, refl, sym, ap, ◌∙◌, Bool, true,
  false, Bytes, List, [], ◌∷◌, ◌++◌, append-nil, length, length-append, ltb, ◌==◌, if◌then◌else◌,
  arith,
}
use starrocks_shadow_proxy.Prelude.Outcome.{
  authentication_failed, malformed, Outcome, ok, err, continue_with,
}
use starrocks_shadow_proxy.Prelude.Rules.{Post-bind}
use starrocks_shadow_proxy.Pg.Startup.Exchange.{
  is_challenge, is_inner, LogsIn, Relays, Relays-last, Relays-LogsIn, counting,
}

read_message-NoRefusal : (c : Conn) → NoRefusal (read_message c)
unfolding read_message read_message_body
read_message-NoRefusal c =
    Post-bind (λ _ _. Unit {0}) (λ _ _. Unit {0}) (λ e _. e ≢ authentication_failed) (read_full 5 c)
      read_message_body (read_full-NoRefusal 5 c)
      (λ header c1 _.
        let n = be32 header 1 in
        elim (Bool-cases (ltb n 4 || ltb pg_max_message_size n)) [
          | inl off ↦ rw (off, if◌then◌else◌) (λ h. cc)
          | inr fits ↦
              rw (fits, if◌then◌else◌)
                (Post-bind (λ _ _. Unit {0}) (λ _ _. Unit {0}) (λ e _. e ≢ authentication_failed)
                  (read_full (n - 4) c1) _ (read_full-NoRefusal (n - 4) c1) (λ body c2 _. tt))
        ])

module _ {P D : Type 0} (ends : Ends P D) (sent : P → List Bytes) (got : D → Bytes)
    (writes : (bs : Bytes) (c : P) → ToPrimary ends sent got bs c (ends.write_primary bs c))
    (replies : (bs : Bytes) (d : D) → ToClient ends sent got bs d (ends.write_client bs d))
    (unlike : (bs : Bytes) (c : P) → NoRefusal (ends.write_primary bs c))
    (unlike_client : (bs : Bytes) (d : D) → NoRefusal (ends.write_client bs d)) where
  -- The message `m` was read from the primary, which left `c`, and written to the client.
  abbrev Handed : Link P D → PgPacket → Conn → D → Type 0
  Handed l m c d =
      (arriving l.primary_in ≡ wire m ++ arriving c) × (got d ≡ got l.client_out ++ bytes m)

  -- The login goes on once it is done with the message.
  abbrev Resumes : Conn → (Link P D → Outcome (Link P D) (Unit {0})) → Type 0
  Resumes c more = (q : Link P D) → q.primary_in ≡ c → LogsIn sent got q (more q)

  unanswered :
      (l : Link P D) (m : PgPacket) (c : Conn) (d : D)
      → Handed l m c d
      → is_challenge m ≡ false
      → Relays sent got l m (record l { primary_in = c; client_out = d })
  unfolding wires
  unanswered l m c d (t, g) quiet = record {
    answers = [];
    heard = t;
    passed = g;
    read = refl;
    answered = sym (append-nil (sent l.primary_out));
    counted = rw (quiet) refl;
    unrefused = refl;
  }

  relay_password-LogsIn :
      (l : Link P D) (m : PgPacket) (c : Conn) (d : D)
      (more : Link P D → Outcome (Link P D) (Unit {0}))
      → Handed l m c d
      → is_challenge m ≡ true
      → is_inner m ≡ true
      → Resumes c more
      → LogsIn sent got l (relay_password ends more (record l { primary_in = c; client_out = d }))
  unfolding relay_password to_primary wires
  relay_password-LogsIn l m c d more (t, g) asks is ih =
      by_read (read_message l.client_in) (read_message-Takes l.client_in)
        (read_message-NoRefusal l.client_in)
    where
      l1 : Link P D
      l1 = record l { primary_in = c; client_out = d }

      by_write :
          (p : PgPacket) (c' : Conn) (out : Outcome P (Unit {0}))
          → arriving l.client_in ≡ wire p ++ arriving c'
          → ToPrimary ends sent got (bytes p) l.primary_out out
          → NoRefusal out
          → LogsIn sent got l
              (continue_with (written_primary (record l1 { client_in = c' }) out) (λ _. more))
      by_write p c' (err e q) r (_, k) other = (k, inr (other, refl))
      by_write p c' (ok _ q) r k _ =
          let l2 : Link P D = record l1 { client_in = c'; primary_out = q } in
          Relays-LogsIn sent got l l2 m (more l2) is
            (record {
              answers = p ∷ [];
              heard = t;
              passed = g;
              read = r ∙ ap (λ z. z ++ arriving c') (sym (append-nil (wire p)));
              answered = k;
              counted = rw (asks) refl;
              unrefused = refl;
            })
            (ih l2 refl)

      by_read :
          (out : Outcome Conn PgPacket)
          → TakesMessage l.client_in out
          → NoRefusal out
          → LogsIn sent got l (
              continue_with
                (on_client l1 out)
                (λ p q. continue_with (to_primary ends (bytes p) q) (λ _. more)))
      by_read (err e c') k other = (k, inr (other, refl))
      by_read (ok p c') r _ =
          by_write p c' (ends.write_primary (bytes p) l.primary_out) r
            (writes (bytes p) l.primary_out) (unlike (bytes p) l.primary_out)

  after_auth-LogsIn :
      (l : Link P D) (m : PgPacket) (c : Conn) (d : D)
      (more : Link P D → Outcome (Link P D) (Unit {0}))
      → Handed l m c d
      → Resumes c more
      → LogsIn sent got l (after_auth ends m more (record l { primary_in = c; client_out = d }))
  unfolding after_auth refuse
  after_auth-LogsIn l m c d more handed ih =
      decide (m.type_byte == b'R') (ltb (length m.payload) 8) (expects_none (be32 m.payload 4))
        (m.type_byte == b'Z') (m.type_byte == b'E') refl refl refl refl refl
    where
      q : Link P D
      q = record l { primary_in = c; client_out = d }

      further : is_challenge m ≡ false → is_inner m ≡ true → LogsIn sent got l (more q)
      further quiet is =
          Relays-LogsIn sent got l q m (more q) is (unanswered l m c d handed quiet) (ih q refl)

      decide :
          (auth short none_wanted ready refused : Bool)
          → (m.type_byte == b'R') ≡ auth
          → ltb (length m.payload) 8 ≡ short
          → expects_none (be32 m.payload 4) ≡ none_wanted
          → (m.type_byte == b'Z') ≡ ready
          → (m.type_byte == b'E') ≡ refused
          → LogsIn sent got l (
              (if auth
                  then (if short
                      then err malformed
                      else if none_wanted
                      then more
                      else relay_password ends more)
                  else if ready
                  then ok tt
                  else if refused
                  then refuse ends
                  else more)
                q)
      decide true true b3 b4 b5 h1 h2 h3 h4 h5 = ((λ x. cc), inr ((λ x. cc), refl))
      decide true false true b4 b5 h1 h2 h3 h4 h5 = further (ground arith) (ground arith)
      decide true false false b4 b5 h1 h2 h3 h4 h5 =
          relay_password-LogsIn l m c d more handed (ground arith) (ground arith) ih
      decide false b2 b3 true b5 h1 h2 h3 h4 h5 = record {
        before = [];
        last = m;
        exchange = Relays-last sent got l q m (unanswered l m c d handed (ground arith));
        inner = tt;
        ready = ground arith;
        unrefused = refl;
      }
      decide false b2 b3 false true h1 h2 h3 h4 h5 = (
        (λ x. cc),
        inl (
          refl,
          record {
            before = [];
            last = m;
            exchange =
                counting sent got l q (m ∷ []) (suc l.auth_failures)
                  (Relays-last sent got l q m (unanswered l m c d handed (ground arith)));
            inner = tt;
            refuses = ground arith;
            counted_once = refl;
          },
        ),
      )
      decide false b2 b3 false false h1 h2 h3 h4 h5 = further (ground arith) (ground arith)

  -- Of writers that, where they fail, send nothing, and fail neither with the model's own error nor
  -- with a refused authentication: with more fuel than bytes arrive from the primary,
  -- forwardAuthPhase ends. Where it succeeds, the messages up to the primary's first ReadyForQuery,
  -- with no ErrorResponse before it, were written to the client, and messages of the client's to
  -- the primary, as many as there are challenges among them, all in order and as Bytes writes them:
  -- a message whose type byte is zero goes without that byte. Where it fails, either the error is a
  -- refused authentication, authFailures went up by one, and the same holds with the primary's
  -- first ErrorResponse as the last message, or it is another error and authFailures is as it was.
  pub forward_auth_phase-LogsIn :
      (fuel : ℕ) (l : Link P D)
      → length (arriving l.primary_in) < fuel
      → LogsIn sent got l (forward_auth_phase ends fuel l)
  unfolding forward_auth_phase to_client
  forward_auth_phase-LogsIn zero l h = absurd (omega arith)
  forward_auth_phase-LogsIn (suc fuel) l h =
      by_message (read_message l.primary_in) (read_message-Takes l.primary_in)
        (read_message-NoRefusal l.primary_in) (λ q k. forward_auth_phase-LogsIn fuel q k)
    where
      by_message :
          (out : Outcome Conn PgPacket)
          → TakesMessage l.primary_in out
          → NoRefusal out
          → ((q : Link P D)
              → length (arriving q.primary_in) < fuel
              → LogsIn sent got q (forward_auth_phase ends fuel q))
          → LogsIn sent got l (
              continue_with (on_primary l out) (λ m q.
                continue_with
                  (to_client ends (bytes m) q)
                  (λ _. after_auth ends m (λ z. forward_auth_phase ends fuel z))))
      by_message (err e c) k other ih = (k, inr (other, refl))
      by_message (ok m c) t _ ih =
          by_write (ends.write_client (bytes m) l.client_out) (replies (bytes m) l.client_out)
            (unlike_client (bytes m) l.client_out)
        where
          by_write :
              (out : Outcome D (Unit {0}))
              → ToClient ends sent got (bytes m) l.client_out out
              → NoRefusal out
              → LogsIn sent got l (
                  continue_with
                    (written_client (record l { primary_in = c }) out)
                    (λ _. after_auth ends m (λ z. forward_auth_phase ends fuel z)))
          by_write (err e d) k other = (k, inr (other, refl))
          by_write (ok _ d) k _ =
              after_auth-LogsIn l m c d (λ z. forward_auth_phase ends fuel z) (t, k)
                (λ q is. ih q (
                  rw (is) (
                    omega
                      (arith, ap length t, length-append (wire m) (arriving c), length-wire m))))
