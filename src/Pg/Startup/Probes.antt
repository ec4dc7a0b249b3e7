-- ===== src/Pg/Startup/Probes.antt =====
-- What forwardStartup may do with the probes of a client before its startup message.
use starrocks_shadow_proxy.Net.{Conn}
use starrocks_shadow_proxy.Net.Arrival.{arriving}
use starrocks_shadow_proxy.Pg.Protocol.{
  PgPacket, is_ssl_request, is_gssenc_request, is_cancel_request,
}
use starrocks_shadow_proxy.Pg.Startup.{Link, Ends}
use starrocks_shadow_proxy.Prelude.{
  ◌≤◌, ◌≡◌, ◌≢◌, sym, ap, ◌∙◌, Bool, true, false, ◌||◌, Bytes, List, [], ◌∷◌, ◌++◌, append_assoc,
  length, All, if◌then◌else◌, Option, none, some,
}
use starrocks_shadow_proxy.Prelude.Outcome.{out_of_fuel, Outcome, ok, err}

abbrev pub is_probe : PgPacket → Bool
is_probe p = is_ssl_request p || is_gssenc_request p

-- The startup messages as they arrive, and the answer that refuses each.
abbrev pub payloads : List PgPacket → Bytes
payloads [] = []
payloads (p ∷ ps) = p.payload ++ payloads ps

abbrev pub refusals : List PgPacket → Bytes
refusals [] = []
refusals (p ∷ ps) = b'N' ∷ refusals ps

module _ {P D : Type 0} (ends : Ends P D) (sent : P → List Bytes) (got : D → Bytes) where
  -- A primary whose failed writes send nothing, a client that takes what it is written, and a
  -- handshake that does not decrypt more bytes than arrived.
  abbrev pub ToPrimary : Bytes → P → Outcome P (Unit {0}) → Type 0
  ToPrimary bs c (ok _ c') = sent c' ≡ sent c ++ (bs ∷ [])
  ToPrimary bs c (err e c') = (sent c' ≡ sent c) × (e ≢ out_of_fuel)

  abbrev pub ToClient : Bytes → D → Outcome D (Unit {0}) → Type 0
  ToClient bs d (ok _ d') = got d' ≡ got d ++ bs
  ToClient bs d (err e d') = e ≢ out_of_fuel

  abbrev pub Shakes : Conn × D → Outcome (Conn × D) (Unit {0}) → Type 0
  Shakes (c, d) (ok _ (c', d')) = length (arriving c') ≤ length (arriving c)
  Shakes (c, d) (err e s) = e ≢ out_of_fuel

  abbrev pub Accepts : Option (Conn × D → Outcome (Conn × D) (Unit {0})) → Type 0
  Accepts none = Unit {0}
  Accepts (some h) = (s : Conn × D) → Shakes s (h s)

  -- Without a listener configuration: which probes the client sent before `last`, all refused.
  pub record Declined (l : Link P D) (last : PgPacket) (l' : Link P D) : Type 0 where
    pub probes : List PgPacket
    pub probing : All (λ p. is_probe p ≡ true) probes
    pub taken : arriving l.client_in ≡ payloads probes ++ (last.payload ++ arriving l'.client_in)
    pub answered : got l'.client_out ≡ got l.client_out ++ refusals probes

  -- The message that ends the phase is all that the primary is sent.
  pub record Started (l : Link P D) (r : Option PgPacket) (l' : Link P D) : Type 0 where
    pub last : PgPacket
    pub no_probe : is_probe last ≡ false
    pub told : sent l'.primary_out ≡ sent l.primary_out ++ (last.payload ∷ [])
    pub unread : l'.primary_in ≡ l.primary_in
    pub result : r ≡ (if is_cancel_request last then none else some last)
    pub declined : ends.accept ≡ none → Declined l last l'

  abbrev pub Starts : Link P D → Outcome (Link P D) (Option PgPacket) → Type 0
  Starts l (ok r l') = Started l r l'
  Starts l (err e l') =
      (sent l'.primary_out ≡ sent l.primary_out)
      × (l'.primary_in ≡ l.primary_in)
      × (e ≢ out_of_fuel)

  -- From `l` to `q` a probe was answered.
  abbrev pub Probed : Link P D → PgPacket → Link P D → Type 0
  Probed l p q =
      (q.primary_out ≡ l.primary_out)
      × (q.primary_in ≡ l.primary_in)
      × (ends.accept ≡ none
          → (arriving l.client_in ≡ p.payload ++ arriving q.client_in)
            × (got q.client_out ≡ got l.client_out ++ (b'N' ∷ [])))

  pub Probed-Starts :
      (l : Link P D) (p : PgPacket) (q : Link P D) (out : Outcome (Link P D) (Option PgPacket))
      → is_probe p ≡ true
      → Probed l p q
      → Starts q out
      → Starts l out
  Probed-Starts l p q (err e l') is (out_same, in_same, _) (a, b, c) =
      (a ∙ ap sent out_same, b ∙ in_same, c)
  Probed-Starts l p q (ok r l') is (out_same, in_same, steps) s = record {
    last = s.last;
    no_probe = s.no_probe;
    told = s.told ∙ ap (λ z. sent z ++ (s.last.payload ∷ [])) out_same;
    unread = s.unread ∙ in_same;
    result = s.result;
    declined = λ plain.
        let d = s.declined plain in
        let (took, gave) = steps plain in
        record {
          probes = p ∷ d.probes;
          probing = (is, d.probing);
          taken =
              took
              ∙ ap (λ z. p.payload ++ z) d.taken
              ∙ sym (
                  append_assoc p.payload (payloads d.probes)
                    (s.last.payload ++ arriving l'.client_in));
          answered =
              d.answered
              ∙ ap (λ z. z ++ refusals d.probes) gave
              ∙ append_assoc (got l.client_out) (b'N' ∷ []) (refusals d.probes);
        };
  }
