-- ===== src/Pg/Connection/Lifetime.antt =====
-- handleConnection as a whole: it ends.
use starrocks_shadow_proxy.Net.{Conn, read_full}
use starrocks_shadow_proxy.Net.Refusals.{NoRefusal}
use starrocks_shadow_proxy.Net.Full.{read_full-fuel}
use starrocks_shadow_proxy.Pg.Connection.{
  Shadow, Counters, End, undialled, upgrade_failed, startup_failed, login_failed, cancelled, looped,
  dbname_of, unwinds, start_shadow_worker, session_of, after_login, after_startup_phase,
  after_upgrade, handle_connection,
}
use starrocks_shadow_proxy.Net.Arrival.{arriving}
use starrocks_shadow_proxy.MySql.Wire.{byte}
use starrocks_shadow_proxy.Pg.Protocol.{PgPacket}
use starrocks_shadow_proxy.Pg.Session.{Peers, goes_on, returns}
use starrocks_shadow_proxy.Pg.Session.Forwarded.{Replied}
use starrocks_shadow_proxy.Pg.Session.Loop.{run_query_loop-Ends}
use starrocks_shadow_proxy.Pg.Session.Rounds.{Delivered}
use starrocks_shadow_proxy.Pg.Startup.{
  Link, Ends, on_primary, written_primary, connected, ssl_request, to_primary, upgrade_backend_tls,
  forward_startup, forward_auth_phase,
}
use starrocks_shadow_proxy.Pg.Startup.Client.{forward_startup-Starts}
use starrocks_shadow_proxy.Pg.Startup.Probes.{ToPrimary, ToClient, Accepts, Starts}
use starrocks_shadow_proxy.Pg.Startup.Exchange.{LogsIn}
use starrocks_shadow_proxy.Pg.Startup.Login.{forward_auth_phase-LogsIn}
use starrocks_shadow_proxy.Prelude.{
  ℕ, suc, ◌-◌, ◌≡◌, ◌≢◌, refl, Bool, true, false, Bytes, List, length, ◌==◌, if◌then◌else◌, Option,
  none, some, Bool-cases, inl, inr, arith,
}
use starrocks_shadow_proxy.Prelude.Outcome.{
  out_of_fuel, tls_refused, Outcome, ok, err, continue_with, fail,
}
use starrocks_shadow_proxy.Prelude.Rules.{Post}

-- A TLS handshake of the backend that does not fail with the model's error.
abbrev pub Connects : {P : Type 0} → Outcome (Conn × P) (Unit {0}) → Type 0
Connects = Post (λ _ _. Unit {0}) (λ e _. e ≢ out_of_fuel)

module _ {P D : Type 0} where
  -- No loop was cut short.
  abbrev pub InTime : End P D → Type 0
  InTime undialled = Unit {0}
  InTime (upgrade_failed e l) = e ≢ out_of_fuel
  InTime (startup_failed e l) = e ≢ out_of_fuel
  InTime (login_failed e l) = e ≢ out_of_fuel
  InTime (cancelled l) = Unit {0}
  InTime (looped b (next, s)) = (next ≢ goes_on) × (next ≢ returns (some out_of_fuel))

  -- And the connection was counted, and is active no more than before.
  abbrev Counted : Counters → End P D × Counters → Type 0
  Counted m (end, m') =
      InTime end
      × (m'.active_connections ≡ m.active_connections)
      × (m'.total_connections ≡ m.total_connections)

module _ {P D : Type 0} (ends : Ends P D) (shadow : Shadow) (peers : Peers P D)
    (sent : P → List Bytes) (got : D → Bytes)
    (writes : (bs : Bytes) (c : P) → ToPrimary ends sent got bs c (ends.write_primary bs c))
    (replies : (bs : Bytes) (d : D) → ToClient ends sent got bs d (ends.write_client bs d))
    (unlike : (bs : Bytes) (c : P) → NoRefusal (ends.write_primary bs c))
    (unlike_client : (bs : Bytes) (d : D) → NoRefusal (ends.write_client bs d))
    (accepts : Accepts ends sent got ends.accept)
    (connects : (s : Conn × P) → Connects (ends.connect s))
    (delivers : (bs : Bytes) (c : P) → Delivered peers sent got bs c (peers.write bs c))
    (answers : (bs : Bytes) (d : D) → Replied peers got bs d (peers.reply bs d)) where
  -- The counters of a connection that is being served.
  abbrev counted : Counters → Counters
  counted m = record m {
    active_connections = suc m.active_connections;
    total_connections = suc m.total_connections;
  }

  start_shadow_worker-counters :
      (startup : PgPacket) (m : Counters)
      → let m' = (start_shadow_worker shadow startup m).1 in
        (m'.active_connections ≡ m.active_connections)
        × (m'.total_connections ≡ m.total_connections)
  unfolding start_shadow_worker
  start_shadow_worker-counters startup m = elim (Bool-cases shadow.has_host) [
    | inr off ↦ rw (off, if◌then◌else◌) (refl, refl)
    | inl on ↦ elim (Bool-cases shadow.samples) [
      | inl out ↦ rw (on, out, if◌then◌else◌) (refl, refl)
      | inr kept ↦ elim (Bool-cases (shadow.initialize (dbname_of startup))) [
        | inl up ↦ rw (on, kept, up, if◌then◌else◌) (refl, refl)
        | inr down ↦ rw (on, kept, down, if◌then◌else◌) (refl, refl)
      ]
    ]
  ]

  after_login-Counted :
      (startup : PgPacket) (m : Counters) (l : Link P D) (out : Outcome (Link P D) (Unit {0}))
      → LogsIn sent got l out
      → Counted m (after_login ends shadow peers startup m out)
  after_login-Counted startup m l (err e q) (k, _) = (k, refl, refl)
  after_login-Counted startup m l (ok _ q) k =
      let worker = (start_shadow_worker shadow startup m).0 in
      let (active, total) = start_shadow_worker-counters startup m in
      (
        run_query_loop-Ends (record peers { has_shadow = worker }) sent got answers delivers
            (suc (length (arriving q.client_in))) (session_of ends shadow peers q) (omega arith),
        active,
        total,
      )

  after_startup_phase-Counted :
      (m : Counters) (l : Link P D) (out : Outcome (Link P D) (Option PgPacket))
      → Starts ends sent got l out
      → Counted m (after_startup_phase ends shadow peers m out)
  after_startup_phase-Counted m l (err e q) (_, _, k) = (k, refl, refl)
  after_startup_phase-Counted m l (ok none q) k = (tt, refl, refl)
  after_startup_phase-Counted m l (ok (some startup) q) k =
      after_login-Counted startup m q
        (forward_auth_phase ends (suc (length (arriving q.primary_in))) q)
        (forward_auth_phase-LogsIn ends sent got writes replies unlike unlike_client
          (suc (length (arriving q.primary_in))) q (omega arith))

  startup-Counted :
      (m : Counters) (l : Link P D)
      → Counted m (
          after_startup_phase ends shadow peers m
            (forward_startup ends (suc (length (arriving l.client_in))) l))
  startup-Counted m l =
      after_startup_phase-Counted m l (forward_startup ends (suc (length (arriving l.client_in))) l)
        (forward_startup-Starts ends sent got writes replies accepts
          (suc (length (arriving l.client_in))) l (omega arith))

  after_upgrade-Counted :
      (m : Counters) (out : Outcome (Link P D) (Unit {0}))
      → Post (λ _ _. Unit {0}) (λ e _. e ≢ out_of_fuel) out
      → Counted m (after_upgrade ends shadow peers m out)
  after_upgrade-Counted m (err e l) k = (k, refl, refl)
  after_upgrade-Counted m (ok _ l) k = startup-Counted m l

  upgrade_backend_tls-fuel :
      (l : Link P D) → Post (λ _ _. Unit {0}) (λ e _. e ≢ out_of_fuel) (upgrade_backend_tls ends l)
  unfolding upgrade_backend_tls to_primary
  upgrade_backend_tls-fuel l =
      by_write (ends.write_primary ssl_request l.primary_out) (writes ssl_request l.primary_out)
    where
      by_connect :
          (q : Link P D) (out : Outcome (Conn × P) (Unit {0}))
          → Connects out
          → Post (λ _ _. Unit {0}) (λ e _. e ≢ out_of_fuel) (connected q out)
      by_connect q (ok _ (c, d)) k = tt
      by_connect q (err e (c, d)) k = k

      by_answer :
          (q : Link P D) (n : ℕ) (b : Bool)
          → Post
              (λ _ _. Unit {0})
              (λ e _. e ≢ out_of_fuel)
              ((if b
                  then (λ l'. connected l' (ends.connect (l'.primary_in, l'.primary_out)))
                  else fail (tls_refused n))
                q)
      by_answer q n true = by_connect q (ends.connect (q.primary_in, q.primary_out)) (connects _)
      by_answer q n false = λ h. cc

      by_read :
          (q : Link P D) (out : Outcome Conn Bytes)
          → Post (λ _ _. Unit {0}) (λ e _. e ≢ out_of_fuel) out
          → Post
              (λ _ _. Unit {0})
              (λ e _. e ≢ out_of_fuel)
              (continue_with (on_primary q out) (λ resp.
                if byte resp 0 == b'S'
                then (λ l'. connected l' (ends.connect (l'.primary_in, l'.primary_out)))
                else fail (tls_refused (byte resp 0))))
      by_read q (err e c) k = k
      by_read q (ok resp c) k =
          by_answer (record q { primary_in = c }) (byte resp 0) (byte resp 0 == b'S')

      by_write :
          (out : Outcome P (Unit {0}))
          → ToPrimary ends sent got ssl_request l.primary_out out
          → Post
              (λ _ _. Unit {0})
              (λ e _. e ≢ out_of_fuel)
              (continue_with (written_primary l out) (λ _ q.
                continue_with (on_primary q (read_full 1 q.primary_in)) (λ resp.
                  if byte resp 0 == b'S'
                  then (λ l'. connected l' (ends.connect (l'.primary_in, l'.primary_out)))
                  else fail (tls_refused (byte resp 0)))))
      by_write (err e c) (_, k) = k
      by_write (ok _ c) k =
          by_read (record l { primary_out = c }) (read_full 1 l.primary_in)
            (read_full-fuel 1 l.primary_in)

  -- What is left of the gauge once the connection's function is done, or is not.
  unwound :
      (m : Counters) (out : End P D × Counters) (b : Bool)
      → Counted (counted m) out
      → let m' =
          if b
          then record (out.1) { active_connections = out.1.active_connections - 1 }
          else out.1 in
        InTime out.0
        × (m'.active_connections ≡ (if b then m.active_connections else suc m.active_connections))
        × (m'.total_connections ≡ suc m.total_connections)
  unwound m (end, m') true (k, a, t) = (k, omega (arith, a), t)
  unwound m (end, m') false (k, a, t) = (k, a, t)

  -- Of writers that, where they fail, send nothing, TLS handshakes that do not decrypt more bytes
  -- than arrived, and none of these failing with the model's own error or a refused
  -- authentication: with or without a primary, TLS and a shadow worker, no loop of the startup,
  -- login or query phase of a connection is cut short, up to copyFallback or the deferred Close of
  -- the worker. One connection was counted, and the gauge of active connections is back where it
  -- was where these two come to an end, and otherwise one higher.
  pub handle_connection-InTime :
      (backend_tls : Bool) (dial : Option (Link P D)) (m : Counters)
      → let (end, m') = handle_connection ends shadow peers backend_tls dial m in
        InTime end
        × (m'.active_connections ≡ (
            if unwinds ends shadow peers end
            then m.active_connections
            else suc m.active_connections))
        × (m'.total_connections ≡ suc m.total_connections)
  unfolding handle_connection unwinds
  handle_connection-InTime backend_tls none m = (tt, omega arith, refl)
  handle_connection-InTime true (some l) m =
      let out = after_upgrade ends shadow peers (counted m) (upgrade_backend_tls ends l) in
      unwound m out (unwinds ends shadow peers out.0) (
        after_upgrade-Counted (counted m) (upgrade_backend_tls ends l) (upgrade_backend_tls-fuel l))
  handle_connection-InTime false (some l) m =
      let out =
        after_startup_phase ends shadow peers (counted m)
          (forward_startup ends (suc (length (arriving l.client_in))) l) in
      unwound m out (unwinds ends shadow peers out.0) (startup-Counted (counted m) l)
