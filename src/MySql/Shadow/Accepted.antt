-- ===== src/MySql/Shadow/Accepted.antt =====
-- authenticateWithShadow as a whole: what it sends, what it counts, and what is not sent in clear.
use starrocks_shadow_proxy.MySql.Auth.{
  Scramble, none_found, crashed, scramble_is, extract_scramble_from_handshake,
}
use starrocks_shadow_proxy.MySql.Shadow.{
  ShadowLink, ShadowEnd, read_from_shadow, write_to_shadow, upgrade_shadow, login_packet,
  judge_response, log_in, authenticate_with_shadow,
}
use starrocks_shadow_proxy.MySql.Reader.Packets.{IsPacket}
use starrocks_shadow_proxy.Net.{Conn}
use starrocks_shadow_proxy.Net.Arrival.{arriving}
use starrocks_shadow_proxy.Prelude.{
  ◌≡◌, inl, inr, refl, sym, ap, ◌∙◌, Bytes, List, [], ◌∷◌, ◌++◌, append_assoc,
}
use starrocks_shadow_proxy.Prelude.Outcome.{continue_with}
use starrocks_shadow_proxy.Prelude.Rules.{Post, Post-bind, Post-mono}
use starrocks_shadow_proxy.MySql.Shadow.Steps.{
  Takes, Upgrades, Reached, opening, SameCounts, Accepted, Failed, read_from_shadow-Post,
  write_to_shadow-Post, Failed-after, upgrade_shadow-Post, judge_response-Post,
}

module _ {P : Type 0} (shadow : ShadowEnd P) (sent : P → List Bytes)
    (takes : (bs : Bytes) (p : P) → Takes shadow sent bs p (shadow.write bs p))
    (upgrades : Upgrades shadow sent shadow.tls) where
  SameCounts-trans :
      (l m q : ShadowLink P)
      → SameCounts shadow sent l m
      → SameCounts shadow sent m q
      → SameCounts shadow sent l q
  SameCounts-trans l m q (a, t) (b, u) = (b ∙ a, u ∙ t)

  answer-Post :
      (start l : ShadowLink P) (behind : Conn) (greeting scramble : Bytes)
      → extract_scramble_from_handshake greeting ≡ scramble_is scramble
      → (sent l.conn
          ≡ sent start.conn ++ ((opening shadow sent) ++ login_packet shadow scramble ∷ []))
        × SameCounts shadow sent start l
        × Reached shadow sent shadow.tls behind l.conn_in
      → Post
          (λ _ q. Accepted shadow sent greeting behind start q)
          (λ e q. Failed shadow sent start e q)
          (continue_with (read_from_shadow shadow l) (judge_response shadow))
  answer-Post start l behind greeting scramble is (k, same, reaches) =
      Post-bind
        (λ p q.
          (q.conn ≡ l.conn)
          × SameCounts shadow sent l q
          × (arriving l.conn_in ≡ p ++ arriving q.conn_in)
          × IsPacket p)
        (λ _ q. Accepted shadow sent greeting behind start q) (λ e q. Failed shadow sent start e q)
        (read_from_shadow shadow l) (judge_response shadow)
        (Post-mono _ _ _ _ (read_from_shadow shadow l) (λ _ q h. h)
          (λ e q h. Failed-after shadow sent takes upgrades start l e q same h)
          (read_from_shadow-Post shadow sent takes upgrades l))
        (λ response m (conn, kept, next, whole).
          let all = SameCounts-trans start l m same kept in
          Post-mono _ _ _ _ (judge_response shadow response m)
            (λ _ q (stays, no_error, no_switch). record {
              scramble = scramble;
              response = response;
              extracted = is;
              told = ap (λ z. sent z.conn) stays ∙ ap sent conn ∙ k;
              reached = l.conn_in;
              reaches = reaches;
              answered = next ∙ ap (λ z. response ++ arriving z.conn_in) (sym stays);
              whole = whole;
              no_error = no_error;
              no_switch = no_switch;
              auth_unchanged = ap (λ z. z.auth_failures) stays ∙ all.0;
              tls_unchanged = ap (λ z. z.tls_failures) stays ∙ all.1;
            })
            (λ e q h. Failed-after shadow sent takes upgrades start m e q all h)
            (judge_response-Post shadow sent takes upgrades m response))

  log_in-Post :
      (l : ShadowLink P) (greeting : Bytes) (found : Scramble)
      → extract_scramble_from_handshake greeting ≡ found
      → Post
          (λ _ q. Accepted shadow sent greeting l.conn_in l q)
          (λ e q. Failed shadow sent l e q)
          (log_in shadow found l)
  unfolding log_in
  log_in-Post l greeting none_found is = inr ((λ h. cc), refl, inl refl)
  log_in-Post l greeting crashed is = inr ((λ h. cc), refl, inl refl)
  log_in-Post l greeting (scramble_is scramble) is =
      Post-bind _ (λ _ q. Accepted shadow sent greeting l.conn_in l q) _
        (upgrade_shadow shadow shadow.tls l)
        (λ _ m.
          continue_with (write_to_shadow shadow (login_packet shadow scramble) m)
            (λ _ q. continue_with (read_from_shadow shadow q) (judge_response shadow)))
        (upgrade_shadow-Post shadow sent takes upgrades l)
        (λ _ m (k, same, reaches).
          Post-bind
            (λ _ q.
              (sent q.conn ≡ sent m.conn ++ (login_packet shadow scramble ∷ []))
              × SameCounts shadow sent m q
              × (q.conn_in ≡ m.conn_in))
            (λ _ q. Accepted shadow sent greeting l.conn_in l q) (λ e q. Failed shadow sent l e q)
            (write_to_shadow shadow (login_packet shadow scramble) m)
            (λ _ q. continue_with (read_from_shadow shadow q) (judge_response shadow))
            (Post-mono _ _ _ _ (write_to_shadow shadow (login_packet shadow scramble) m)
              (λ _ q h. h) (λ e q h. Failed-after shadow sent takes upgrades l m e q same h)
              (write_to_shadow-Post shadow sent takes upgrades (login_packet shadow scramble) m))
            (λ _ q (wrote_it, kept, i). answer-Post l q l.conn_in greeting scramble is (
              wrote_it
                  ∙ ap (λ z. z ++ (login_packet shadow scramble ∷ [])) k
                  ∙ append_assoc (sent l.conn) (opening shadow sent)
                      (login_packet shadow scramble ∷ []),
              SameCounts-trans l m q same kept,
              rw (i) reaches,
            )))

  -- Of a shadow that has taken what is written to it without an error, and a TLS handshake that
  -- sends no packet, neither failing with a refused authentication: where authenticateWithShadow
  -- succeeds, the shadow was sent the request for TLS, if it is configured, and behind it the login
  -- packet made with the scramble of the packet that arrived first, the greeting; the packet that
  -- arrived next, on the connection of the TLS handshake if there was one, is neither an error nor
  -- a request for another method, and no counter has moved. Where it fails, the error is a refused
  -- authentication and authFailures alone went up, by one; or it is another, and tlsFailures went
  -- up by one, which needs TLS to be configured, or no counter has moved.
  pub authenticate_with_shadow-Accepted :
      (l : ShadowLink P)
      → Post
          (λ _ q.
            (greeting : Bytes) × (behind : Conn) × (arriving l.conn_in
              ≡ greeting ++ arriving behind)
            × IsPacket greeting
            × Accepted shadow sent greeting behind l q)
          (λ e q. Failed shadow sent l e q)
          (authenticate_with_shadow shadow l)
  unfolding authenticate_with_shadow
  authenticate_with_shadow-Accepted l =
      Post-bind _
        (λ _ q.
          (greeting : Bytes) × (behind : Conn) × (arriving l.conn_in ≡ greeting ++ arriving behind)
          × IsPacket greeting
          × Accepted shadow sent greeting behind l q)
        _ (read_from_shadow shadow l)
        (λ greeting. log_in shadow (extract_scramble_from_handshake greeting))
        (read_from_shadow-Post shadow sent takes upgrades l)
        (λ greeting m (conn, same, front, whole).
          Post-mono _ _ _ _ (log_in shadow (extract_scramble_from_handshake greeting) m)
            (λ _ q a. (
              greeting,
              m.conn_in,
              front,
              whole,
              record {
                scramble = a.scramble;
                response = a.response;
                extracted = a.extracted;
                told =
                    a.told
                    ∙ ap
                        (λ z.
                          sent z ++ ((opening shadow sent) ++ login_packet shadow a.scramble ∷ []))
                        conn;
                reached = a.reached;
                reaches = a.reaches;
                answered = a.answered;
                whole = a.whole;
                no_error = a.no_error;
                no_switch = a.no_switch;
                auth_unchanged = a.auth_unchanged ∙ same.0;
                tls_unchanged = a.tls_unchanged ∙ same.1;
              },
            ))
            (λ e q h. Failed-after shadow sent takes upgrades l m e q same h)
            (log_in-Post m greeting (extract_scramble_from_handshake greeting) refl))
