-- ===== src/MySql/Shadow/Steps.antt =====
-- The steps of authenticateWithShadow: what each sends and counts.
use starrocks_shadow_proxy.MySql.Auth.{scramble_is, extract_scramble_from_handshake}
use starrocks_shadow_proxy.MySql.Handshake.{responds}
use starrocks_shadow_proxy.MySql.Handshake.Relayed.{Taken, read_mysql_packet-Taken}
use starrocks_shadow_proxy.MySql.Shadow.{
  ShadowLink, ShadowEnd, is_some, got_packet, wrote, shaken, ssl_packet, read_from_shadow,
  write_to_shadow, upgrade_shadow, login_packet, refused_by_shadow, judge_response,
}
use starrocks_shadow_proxy.MySql.Wire.{u24, read_mysql_packet}
use starrocks_shadow_proxy.Net.{Conn, read_full}
use starrocks_shadow_proxy.Net.Refusals.{NoRefusal, read_full-NoRefusal}
use starrocks_shadow_proxy.MySql.Reader.Packets.{IsPacket}
use starrocks_shadow_proxy.Net.Arrival.{arriving}
use starrocks_shadow_proxy.Prelude.{
  suc, ◌≡◌, ◌≢◌, ◌⊎◌, inl, inr, refl, sym, ap, ◌∙◌, Bool, true, false, Bytes, List, [], ◌∷◌, ◌++◌,
  append-nil, if◌then◌else◌, Option, none, some,
}
use starrocks_shadow_proxy.Prelude.Outcome.{
  Error, authentication_failed, Outcome, ok, err, continue_with, pure,
}
use starrocks_shadow_proxy.Prelude.Rules.{Post, Post-bind}

read_mysql_packet-NoRefusal : (c : Conn) → NoRefusal (read_mysql_packet c)
unfolding read_mysql_packet
read_mysql_packet-NoRefusal c =
    Post-bind (λ _ _. Unit {0}) (λ _ _. Unit {0}) (λ e _. e ≢ authentication_failed) (read_full 4 c)
      (λ h c1. continue_with (read_full (u24 h 0) c1) (λ b. pure (h ++ b)))
      (read_full-NoRefusal 4 c)
      (λ h c1 _.
        Post-bind (λ _ _. Unit {0}) (λ _ _. Unit {0}) (λ e _. e ≢ authentication_failed)
          (read_full (u24 h 0) c1) (λ b. pure (h ++ b)) (read_full-NoRefusal (u24 h 0) c1)
          (λ b c2 _. tt))

module _ {P : Type 0} (shadow : ShadowEnd P) (sent : P → List Bytes) where
  -- A shadow that has taken what is written without an error, and a handshake that is no packet;
  -- neither fails the way a refused login does.
  abbrev pub Takes : Bytes → P → Outcome P (Unit {0}) → Type 0
  Takes bs p = Post (λ _ q. sent q ≡ sent p ++ (bs ∷ [])) (λ e _. e ≢ authentication_failed)

  abbrev pub Shakes : P → Outcome (Conn × P) (Unit {0}) → Type 0
  Shakes p = Post (λ _ q. sent q.1 ≡ sent p) (λ e _. e ≢ authentication_failed)

  abbrev pub Upgrades : Option (Conn × P → Outcome (Conn × P) (Unit {0})) → Type 0
  Upgrades none = Unit {0}
  Upgrades (some h) = (s : Conn × P) → Shakes s.1 (h s)

  -- The request for TLS, if it is configured.
  abbrev pub opening : List Bytes
  opening = if is_some shadow.tls then ssl_packet ∷ [] else []

  abbrev pub SameCounts : ShadowLink P → ShadowLink P → Type 0
  SameCounts l q = (q.auth_failures ≡ l.auth_failures) × (q.tls_failures ≡ l.tls_failures)

  -- The connection of which the response is read: that of the TLS handshake, if it is configured.
  abbrev pub Reached : Option (Conn × P → Outcome (Conn × P) (Unit {0})) → Conn → Conn → Type 0
  Reached none c c' = c' ≡ c
  Reached (some h) c c' = (p : P) × (p' : P) × (h (c, p) ≡ ok tt (c', p'))

  -- A login that the shadow did not refuse, with the scramble of its greeting, behind which
  -- `behind` arrives; the response is the next packet there.
  pub record Accepted (greeting : Bytes) (behind : Conn) (l q : ShadowLink P) : Type 0 where
    pub scramble : Bytes
    pub response : Bytes
    pub extracted : extract_scramble_from_handshake greeting ≡ scramble_is scramble
    pub told : sent q.conn ≡ sent l.conn ++ (opening ++ login_packet shadow scramble ∷ [])
    pub reached : Conn
    pub reaches : Reached shadow.tls behind reached
    pub answered : arriving reached ≡ response ++ arriving q.conn_in
    pub whole : IsPacket response
    pub no_error : responds 0xff response ≡ false
    pub no_switch : responds 0xfe response ≡ false
    pub auth_unchanged : q.auth_failures ≡ l.auth_failures
    pub tls_unchanged : q.tls_failures ≡ l.tls_failures

  -- A refusal is counted once, a failed handshake once, another failure not at all.
  abbrev pub Failed : ShadowLink P → Error → ShadowLink P → Type 0
  Failed l e q =
      ((e ≡ authentication_failed)
        × (q.auth_failures ≡ suc l.auth_failures)
        × (q.tls_failures ≡ l.tls_failures))
      ⊎ ((e ≢ authentication_failed)
          × (q.auth_failures ≡ l.auth_failures)
          × ((q.tls_failures ≡ l.tls_failures)
              ⊎ ((is_some shadow.tls ≡ true) × (q.tls_failures ≡ suc l.tls_failures))))

  module _ (takes : (bs : Bytes) (p : P) → Takes bs p (shadow.write bs p))
      (upgrades : Upgrades shadow.tls) where
    pub read_from_shadow-Post :
        (l : ShadowLink P)
        → Post
            (λ p q.
              (q.conn ≡ l.conn)
              × SameCounts l q
              × (arriving l.conn_in ≡ p ++ arriving q.conn_in)
              × IsPacket p)
            (λ e q. Failed l e q)
            (read_from_shadow shadow l)
    unfolding read_from_shadow
    read_from_shadow-Post l =
        by_read (read_mysql_packet l.conn_in) (read_mysql_packet-Taken l.conn_in)
          (read_mysql_packet-NoRefusal l.conn_in)
      where
        by_read :
            (out : Outcome Conn Bytes)
            → Taken l.conn_in out
            → NoRefusal out
            → Post
                (λ p q.
                  (q.conn ≡ l.conn)
                  × SameCounts l q
                  × (arriving l.conn_in ≡ p ++ arriving q.conn_in)
                  × IsPacket p)
                (λ e q. Failed l e q)
                (got_packet l out)
        by_read (ok p c) (t, k) _ = (refl, (refl, refl), t, k)
        by_read (err e c) t other = inr (other, refl, inl refl)

    pub write_to_shadow-Post :
        (bs : Bytes) (l : ShadowLink P)
        → Post
            (λ _ q.
              (sent q.conn ≡ sent l.conn ++ (bs ∷ [])) × SameCounts l q × (q.conn_in ≡ l.conn_in))
            (λ e q. Failed l e q)
            (write_to_shadow shadow bs l)
    unfolding write_to_shadow
    write_to_shadow-Post bs l = by_write (shadow.write bs l.conn) (takes bs l.conn)
      where
        by_write :
            (out : Outcome P (Unit {0}))
            → Takes bs l.conn out
            → Post
                (λ _ q.
                  (sent q.conn ≡ sent l.conn ++ (bs ∷ []))
                  × SameCounts l q
                  × (q.conn_in ≡ l.conn_in))
                (λ e q. Failed l e q)
                (wrote l out)
        by_write (ok _ p) k = (k, (refl, refl), refl)
        by_write (err e p) k = inr (k, refl, inl refl)

    pub Failed-after :
        (l m : ShadowLink P) (e : Error) (q : ShadowLink P)
        → SameCounts l m
        → Failed m e q
        → Failed l e q
    Failed-after l m e q (a, t) (inl (is, b, u)) = inl (is, b ∙ ap suc a, u ∙ t)
    Failed-after l m e q (a, t) (inr (other, b, inl u)) = inr (other, b ∙ a, inl (u ∙ t))
    Failed-after l m e q (a, t) (inr (other, b, inr (on, u))) =
        inr (other, b ∙ a, inr (on, u ∙ ap suc t))

    pub upgrade_shadow-Post :
        (l : ShadowLink P)
        → Post
            (λ _ q.
              (sent q.conn ≡ sent l.conn ++ opening)
              × SameCounts l q
              × Reached shadow.tls l.conn_in q.conn_in)
            (λ e q. Failed l e q)
            (upgrade_shadow shadow shadow.tls l)
    unfolding upgrade_shadow
    upgrade_shadow-Post l = by_config shadow.tls upgrades refl
      where
        Upgraded : Option (Conn × P → Outcome (Conn × P) (Unit {0})) → ShadowLink P → Type 0
        Upgraded tls q =
            (sent q.conn ≡ sent l.conn ++ (if is_some tls then ssl_packet ∷ [] else []))
            × SameCounts l q
            × Reached tls l.conn_in q.conn_in

        shaken-Post :
            (m : ShadowLink P) (h : Conn × P → Outcome (Conn × P) (Unit {0}))
            (out : Outcome (Conn × P) (Unit {0}))
            → is_some shadow.tls ≡ true
            → (sent m.conn ≡ sent l.conn ++ (ssl_packet ∷ []))
              × SameCounts l m
              × (m.conn_in ≡ l.conn_in)
            → h (m.conn_in, m.conn) ≡ out
            → Shakes m.conn out
            → Post (λ _ q. Upgraded (some h) q) (λ e q. Failed l e q) (shaken m out)
        shaken-Post m h (ok _ (c, p)) on (k, (a, t), i) e kept =
            (kept ∙ k, (a, t), (m.conn, p, ap (λ z. h (z, m.conn)) (sym i) ∙ e))
        shaken-Post m h (err x (c, p)) on (k, (a, t), i) e other =
            inr (other, a, inr (on, ap suc t))

        by_config :
            (tls : Option (Conn × P → Outcome (Conn × P) (Unit {0})))
            → Upgrades tls
            → shadow.tls ≡ tls
            → Post (λ _ q. Upgraded tls q) (λ e q. Failed l e q) (upgrade_shadow shadow tls l)
        by_config none h on = (sym (append-nil (sent l.conn)), (refl, refl), refl)
        by_config (some handshake) h on =
            Post-bind _ _ _ (write_to_shadow shadow ssl_packet l)
              (λ _ m. shaken m (handshake (m.conn_in, m.conn))) (write_to_shadow-Post ssl_packet l)
              (λ _ m k.
                shaken-Post m handshake (handshake (m.conn_in, m.conn)) (ap is_some on) k refl
                  (h (m.conn_in, m.conn)))

    -- A response that is neither an error nor a request for another method.
    pub judge_response-Post :
        (l : ShadowLink P) (response : Bytes)
        → Post
            (λ _ q. (q ≡ l) × (responds 0xff response ≡ false) × (responds 0xfe response ≡ false))
            (λ e q. Failed l e q)
            (judge_response shadow response l)
    unfolding judge_response refused_by_shadow
    judge_response-Post l response =
        decide (responds 0xff response) (responds 0xfe response) refl refl
      where
        decide :
            (b1 b2 : Bool)
            → responds 0xff response ≡ b1
            → responds 0xfe response ≡ b2
            → Post
                (λ _ q.
                  (q ≡ l) × (responds 0xff response ≡ false) × (responds 0xfe response ≡ false))
                (λ e q. Failed l e q)
                ((if b1
                    then refused_by_shadow shadow
                    else if b2
                    then refused_by_shadow shadow
                    else ok tt)
                  l)
        decide true b2 h k = inl (refl, refl, refl)
        decide false true h k = inl (refl, refl, refl)
        decide false false h k = (refl, h, k)
