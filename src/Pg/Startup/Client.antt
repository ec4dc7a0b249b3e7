-- ===== src/Pg/Startup/Client.antt =====
-- forwardStartup: it ends, and the primary is sent one message.
use starrocks_shadow_proxy.Net.{Conn}
use starrocks_shadow_proxy.Net.Arrival.{arriving}
use starrocks_shadow_proxy.Pg.Protocol.{
  PgPacket, read_startup_message, is_ssl_request, is_gssenc_request, is_cancel_request,
}
use starrocks_shadow_proxy.Pg.Protocol.Messages.{TakesStartup, read_startup_message-Takes}
use starrocks_shadow_proxy.Pg.Startup.{
  Link, Ends, on_client, written_client, written_primary, accepted, count_tls_failure, to_client,
  to_primary, upgrade_client_tls, answer_probe, answer_ssl, forward_last, after_startup,
  forward_startup,
}
use starrocks_shadow_proxy.Prelude.{
  ℕ, zero, suc, ◌≤◌, ◌<◌, ◌≡◌, refl, sym, ap, ◌∙◌, Bool, true, false, Bytes, List, [], ◌∷◌, ◌++◌,
  append-nil, length, length-append, if◌then◌else◌, Option, none, some, arith,
}
use starrocks_shadow_proxy.Prelude.Outcome.{Outcome, ok, err, continue_with}
use starrocks_shadow_proxy.Pg.Startup.Probes.{
  is_probe, ToPrimary, ToClient, Shakes, Accepts, Starts, Probed-Starts,
}

module _ {P D : Type 0} (ends : Ends P D) (sent : P → List Bytes) (got : D → Bytes)
    (writes : (bs : Bytes) (c : P) → ToPrimary ends sent got bs c (ends.write_primary bs c))
    (replies : (bs : Bytes) (d : D) → ToClient ends sent got bs d (ends.write_client bs d))
    (accepts : Accepts ends sent got ends.accept) where
  -- The round goes on in a state where fewer bytes arrive.
  abbrev Resumes : Conn → (Link P D → Outcome (Link P D) (Option PgPacket)) → Type 0
  Resumes c more =
      (q : Link P D)
      → length (arriving q.client_in) ≤ length (arriving c)
      → Starts ends sent got q (more q)

  answer_probe-Starts :
      (l : Link P D) (p : PgPacket) (c : Conn)
      (more : Link P D → Outcome (Link P D) (Option PgPacket))
      → arriving l.client_in ≡ p.payload ++ arriving c
      → is_probe p ≡ true
      → Resumes c more
      → Starts ends sent got l (answer_probe ends more (record l { client_in = c }))
  unfolding answer_probe to_client
  answer_probe-Starts l p c more t is ih =
      by_write (ends.write_client (b'N' ∷ []) l.client_out) (replies (b'N' ∷ []) l.client_out)
    where
      by_write :
          (out : Outcome D (Unit {0}))
          → ToClient ends sent got (b'N' ∷ []) l.client_out out
          → Starts ends sent got l
              (continue_with (written_client (record l { client_in = c }) out) (λ _. more))
      by_write (err e d) k = (refl, refl, k)
      by_write (ok _ d) k =
          Probed-Starts ends sent got l p (record l { client_in = c; client_out = d })
            (more (record l { client_in = c; client_out = d })) is (refl, refl, λ plain. (t, k))
            (ih (record l { client_in = c; client_out = d }) (omega arith))

  answer_tls-Starts :
      (handshake : Conn × D → Outcome (Conn × D) (Unit {0}))
      → ((s : Conn × D) → Shakes ends sent got s (handshake s))
      → ends.accept ≡ some handshake
      → (l : Link P D) (p : PgPacket) (c : Conn)
        (more : Link P D → Outcome (Link P D) (Option PgPacket))
      → is_probe p ≡ true
      → Resumes c more
      → Starts ends sent got l (answer_ssl ends (some handshake) more (record l { client_in = c }))
  unfolding answer_ssl upgrade_client_tls to_client
  answer_tls-Starts handshake shakes on l p c more is ih =
      by_write (ends.write_client (b'S' ∷ []) l.client_out) (replies (b'S' ∷ []) l.client_out)
    where
      l1 : Link P D
      l1 = record l { client_in = c }

      by_handshake :
          (d : D) (out : Outcome (Conn × D) (Unit {0}))
          → Shakes ends sent got (c, d) out
          → Starts ends sent got l (
              continue_with
                (count_tls_failure (accepted (record l1 { client_out = d }) out))
                (λ _. more))
      by_handshake d (err e (c', d')) k = (refl, refl, k)
      by_handshake d (ok _ (c', d')) k =
          Probed-Starts ends sent got l p (record l { client_in = c'; client_out = d' })
            (more (record l { client_in = c'; client_out = d' })) is
            (refl, refl, λ plain. absurd (none_some (sym plain ∙ on)))
            (ih (record l { client_in = c'; client_out = d' }) k)
        where
          none_some : none ≡ some handshake → ⊥
          none_some h = cc

      by_write :
          (out : Outcome D (Unit {0}))
          → ToClient ends sent got (b'S' ∷ []) l.client_out out
          → Starts ends sent got l (
              continue_with
                (count_tls_failure (
                  continue_with
                    (written_client l1 out)
                    (λ _ m. accepted m (handshake (m.client_in, m.client_out)))))
                (λ _. more))
      by_write (err e d) k = (refl, refl, k)
      by_write (ok _ d) k = by_handshake d (handshake (c, d)) (shakes (c, d))

  forward_last-Starts :
      (l : Link P D) (p : PgPacket) (c : Conn) (r : Option PgPacket)
      → arriving l.client_in ≡ p.payload ++ arriving c
      → is_probe p ≡ false
      → r ≡ (if is_cancel_request p then none else some p)
      → Starts ends sent got l (forward_last ends p r (record l { client_in = c }))
  unfolding forward_last to_primary
  forward_last-Starts l p c r t is which =
      by_write (ends.write_primary p.payload l.primary_out) (writes p.payload l.primary_out)
    where
      by_write :
          (out : Outcome P (Unit {0}))
          → ToPrimary ends sent got p.payload l.primary_out out
          → Starts ends sent got l
              (continue_with (written_primary (record l { client_in = c }) out) (λ _. ok r))
      by_write (err e q) (k, m) = (k, refl, m)
      by_write (ok _ q) k = record {
        last = p;
        no_probe = is;
        told = k;
        unread = refl;
        result = which;
        declined = λ plain. record {
          probes = [];
          probing = tt;
          taken = t;
          answered = sym (append-nil (got l.client_out));
        };
      }

  after_startup-Starts :
      (l : Link P D) (p : PgPacket) (c : Conn)
      (more : Link P D → Outcome (Link P D) (Option PgPacket))
      → arriving l.client_in ≡ p.payload ++ arriving c
      → Resumes c more
      → Starts ends sent got l (after_startup ends p more (record l { client_in = c }))
  unfolding after_startup answer_ssl
  after_startup-Starts l p c more t ih =
      decide (is_ssl_request p) (is_gssenc_request p) (is_cancel_request p) refl refl refl
    where
      by_config :
          (a : Option (Conn × D → Outcome (Conn × D) (Unit {0})))
          → Accepts ends sent got a
          → ends.accept ≡ a
          → is_probe p ≡ true
          → Starts ends sent got l (answer_ssl ends a more (record l { client_in = c }))
      by_config none k on is = answer_probe-Starts l p c more t is ih
      by_config (some h) k on is = answer_tls-Starts h k on l p c more is ih

      decide :
          (b1 b2 b3 : Bool)
          → is_ssl_request p ≡ b1
          → is_gssenc_request p ≡ b2
          → is_cancel_request p ≡ b3
          → Starts ends sent got l (
              (if b1
                  then answer_ssl ends ends.accept more
                  else if b2
                  then answer_probe ends more
                  else if b3
                  then forward_last ends p none
                  else forward_last ends p (some p))
                (record l { client_in = c }))
      decide true b2 b3 h1 h2 h3 = by_config ends.accept accepts refl (ground arith)
      decide false true b3 h1 h2 h3 = answer_probe-Starts l p c more t (ground arith) ih
      decide false false true h1 h2 h3 =
          forward_last-Starts l p c none t (ground arith) (rw (h3) refl)
      decide false false false h1 h2 h3 =
          forward_last-Starts l p c (some p) t (ground arith) (rw (h3) refl)

  pub forward_startup-Starts :
      (fuel : ℕ) (l : Link P D)
      → length (arriving l.client_in) < fuel
      → Starts ends sent got l (forward_startup ends fuel l)
  unfolding forward_startup
  forward_startup-Starts zero l h = absurd (omega arith)
  forward_startup-Starts (suc fuel) l h =
      by_message (read_startup_message l.client_in) (read_startup_message-Takes l.client_in)
        (λ q k. forward_startup-Starts fuel q k)
    where
      by_message :
          (out : Outcome Conn PgPacket)
          → TakesStartup l.client_in out
          → ((q : Link P D)
              → length (arriving q.client_in) < fuel
              → Starts ends sent got q (forward_startup ends fuel q))
          → Starts ends sent got l (
              continue_with
                (on_client l out)
                (λ p. after_startup ends p (λ q. forward_startup ends fuel q)))
      by_message (err e c) k ih = (refl, refl, k)
      by_message (ok p c) (t, zero_type, long) ih =
          after_startup-Starts l p c (λ q. forward_startup ends fuel q) t
            (λ q k.
              ih q (omega (arith, ap length t, length-append p.payload (arriving c), long, k)))
