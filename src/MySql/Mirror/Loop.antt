-- ===== src/MySql/Mirror/Loop.antt =====
-- What the loop sends to the shadow, compared with what it sends to the primary.
use starrocks_shadow_proxy.MySql.Command.{
  get_mysql_command, is_no_response_command, is_simple_response_command, com_quit,
}
use starrocks_shadow_proxy.MySql.Forward.{Relay}
use starrocks_shadow_proxy.MySql.Log.{QueryRequest, new_query_request}
use starrocks_shadow_proxy.MySql.Mirror.{
  Proxy, Peers, Next, goes_on, returns, filter_verdict, mirror_request, forward_response,
  after_simple, after_whole, after_read, continue_loop, after_forward, after_primary, serve, round,
  proxy_loop,
}
use starrocks_shadow_proxy.MySql.Reader.{Reader, read_packet}
use starrocks_shadow_proxy.MySql.Reader.Window.{stream}
use starrocks_shadow_proxy.MySql.Response.{read_multi_packet}
use starrocks_shadow_proxy.Prelude.{
  ℕ, zero, suc, ◌≡◌, refl, sym, ap, ◌∙◌, Bool, true, false, not, ◌&&◌, Bytes, List, [], ◌∷◌, ◌++◌,
  append_assoc, append_if, append-nil, map, length, ◌==◌, if◌then◌else◌, Option, none, some, arith,
  Bool-cases, inl, inr,
}
use starrocks_shadow_proxy.Prelude.Outcome.{Error, Outcome, ok, err}

abbrev pub packets : List QueryRequest → List Bytes
packets = map (λ r. r.packet)

packets-append : (xs ys : List QueryRequest) → packets (xs ++ ys) ≡ packets xs ++ packets ys
packets-append [] ys = refl
packets-append (x ∷ xs) ys = ap (λ z. x.packet ∷ z) (packets-append xs ys)

module _ {P D : Type 0} (peers : Peers P D) where
  -- The command behind the first `n`, `packet`, is for the shadow too.
  abbrev pub for_shadow : ℕ → Bytes → Bool
  for_shadow n packet =
      not ((get_mysql_command packet).0 == com_quit)
      && (filter_verdict peers (suc n)
          (new_query_request peers.md5 (peers.uuid n) packet peers.client_addr)).0

  -- Of the commands behind the first `n`, those that are.
  unfoldable pub to_mirror : ℕ → List Bytes → List Bytes
  to_mirror n [] = []
  to_mirror n (x ∷ xs) =
      let rest = to_mirror (suc n) xs in if for_shadow n x then x ∷ rest else rest

  -- A peer that takes commands: `sent` lists those that were written to it whole.
  abbrev pub Delivered : (P → List Bytes) → Bytes → P → ℕ × (Option Error × P) → Type 0
  Delivered sent packet c (n, (none, c')) = sent c' ≡ sent c ++ (packet ∷ [])
  Delivered sent packet c (n, (some e, c')) = sent c' ≡ sent c

  -- What is left alone behind the write and the mirroring.
  abbrev Keeps : Proxy P D → Proxy P D → Type 0
  Keeps p q = (q.primary_conn ≡ p.primary_conn) × (q.mirrored ≡ p.mirrored) × (q.served ≡ p.served)

  after_simple-Keeps :
      (p : Proxy P D) (out : Outcome (Relay Reader D) ℕ) → Keeps p (after_simple peers p out).1.1
  unfolding after_simple
  after_simple-Keeps p (ok n t) = (refl, refl, refl)
  after_simple-Keeps p (err e t) = (refl, refl, refl)

  after_whole-Keeps :
      (p : Proxy P D) (out : Outcome (Relay Reader D) (Unit {0}))
      → Keeps p (after_whole peers p out).1.1
  unfolding after_whole
  after_whole-Keeps p (ok n t) = (refl, refl, refl)
  after_whole-Keeps p (err e t) = (refl, refl, refl)

  forward_response-Keeps : (cmd : ℕ) (p : Proxy P D) → Keeps p (forward_response peers cmd p).1.1
  unfolding forward_response
  forward_response-Keeps cmd p = elim (Bool-cases (is_simple_response_command cmd)) [
    | inl on ↦ rw (on, if◌then◌else◌) (after_simple-Keeps p _)
    | inr off ↦ rw (off, if◌then◌else◌) (after_whole-Keeps p _)
  ]

  after_forward-Keeps :
      (req : QueryRequest) (sent : ℕ) (out : ℕ × (Option Error × Proxy P D))
      → Keeps out.1.1 (after_forward peers req sent out).1
  unfolding after_forward
  after_forward-Keeps req sent (recv, (none, p)) = (refl, refl, refl)
  after_forward-Keeps req sent (recv, (some e, p)) = (refl, refl, refl)

  Keeps-trans : (p q r : Proxy P D) → Keeps p q → Keeps q r → Keeps p r
  Keeps-trans p q r (a, b, c) (x, y, z) = (x ∙ a, y ∙ b, z ∙ c)

  abbrev mirrors : QueryRequest → Proxy P D → Bool
  mirrors req p =
      not ((get_mysql_command req.packet).0 == com_quit) && (filter_verdict peers p.served req).0

  mirror_request_sends :
      (req : QueryRequest) (p : Proxy P D)
      → mirrors req p ≡ true
      → mirror_request peers req p ≡ record p { mirrored = p.mirrored ++ (req ∷ []) }
  unfolding mirror_request
  mirror_request_sends req p h = ground arith

  mirror_request_holds :
      (req : QueryRequest) (p : Proxy P D)
      → mirrors req p ≡ false
      → Keeps p (mirror_request peers req p)
  unfolding mirror_request
  mirror_request_holds req p h = ground arith

  -- After a write to the primary that succeeded, the shadow gets the request or does not.
  abbrev Mirrored : QueryRequest → Proxy P D → Proxy P D → Type 0
  Mirrored req p q =
      (q.primary_conn ≡ p.primary_conn)
      × (packets q.mirrored ≡ packets p.mirrored ++ (if mirrors req p then req.packet ∷ [] else []))
      × (q.served ≡ p.served)

  mirror_request-Mirrored :
      (req : QueryRequest) (p : Proxy P D) → Mirrored req p (mirror_request peers req p)
  mirror_request-Mirrored req p = elim (Bool-cases (mirrors req p)) [
    | inl on ↦
        rw (mirror_request_sends req p on, on, if◌then◌else◌)
          (refl, packets-append p.mirrored (req ∷ []), refl)
    | inr off ↦
        let (a, b, c) = mirror_request_holds req p off in
        (a, rw (off, if◌then◌else◌) (ap packets b ∙ sym (append-nil (packets p.mirrored))), c)
  ]

  Mirrored-Keeps :
      (req : QueryRequest) (p q r : Proxy P D) → Mirrored req p q → Keeps q r → Mirrored req p r
  Mirrored-Keeps req p q r (a, b, c) (x, y, z) = (x ∙ a, ap packets y ∙ b, z ∙ c)

  after_primary-Mirrored :
      (req : QueryRequest) (n : ℕ) (c : P) (p : Proxy P D)
      → Mirrored req (record p { primary_conn = c }) (after_primary peers req (n, (none, c)) p).1
  unfolding after_primary
  after_primary-Mirrored req n c p =
      elim (Bool-cases (is_no_response_command (get_mysql_command req.packet).0)) [
        | inl on ↦
            rw (on, if◌then◌else◌) (mirror_request-Mirrored req (record p { primary_conn = c }))
        | inr off ↦
            let p1 = record p { primary_conn = c } in
            let q = mirror_request peers req p1 in
            let out = forward_response peers (get_mysql_command req.packet).0 q in
            rw (off, if◌then◌else◌)
              (Mirrored-Keeps req p1 q (after_forward peers req n out).1
                (mirror_request-Mirrored req p1)
                (Keeps-trans q out.1.1 (after_forward peers req n out).1
                  (forward_response-Keeps _ q) (after_forward-Keeps req n out)))
      ]

  module _ (sent : P → List Bytes)
      (delivers : (bs : Bytes) (c : P) → Delivered sent bs c (peers.write bs c)) where
    -- Between two states the primary was sent the commands `xs`, and the shadow those of them that
    -- are for it.
    abbrev pub Sent : Proxy P D → List Bytes → Proxy P D → Type 0
    Sent p xs q =
        (sent q.primary_conn ≡ sent p.primary_conn ++ xs)
        × (packets q.mirrored ≡ packets p.mirrored ++ to_mirror p.served xs)

    abbrev RoundSent : Proxy P D → Next × Proxy P D → Type 0
    RoundSent p out =
        (xs : List Bytes) × Sent p xs out.1
        × (out.0 ≡ goes_on → (x : Bytes) × (xs ≡ x ∷ []) × (out.1.served ≡ suc p.served))

    after_primary-RoundSent :
        (packet : Bytes) (p : Proxy P D) (out : ℕ × (Option Error × P))
        → Delivered sent packet p.primary_conn out
        → RoundSent p (
            after_primary peers
              (new_query_request peers.md5 (peers.uuid p.served) packet peers.client_addr)
              out
              (record p { served = suc p.served }))
    unfolding after_primary to_mirror new_query_request
    after_primary-RoundSent packet p (n, (some e, c)) h = (
      [],
      (h ∙ sym (append-nil (sent p.primary_conn)), sym (append-nil (packets p.mirrored))),
      (λ k. cc),
    )
    after_primary-RoundSent packet p (n, (none, c)) h =
        let (a, b, s) =
          after_primary-Mirrored
            (new_query_request peers.md5 (peers.uuid p.served) packet peers.client_addr) n c
            (record p { served = suc p.served }) in
        (packet ∷ [], (ap sent a ∙ h, b), (λ k. (packet, refl, s)))

    round-RoundSent : (p : Proxy P D) → RoundSent p (round peers p)
    unfolding round after_read serve to_mirror
    round-RoundSent p =
        by_read
          (read_multi_packet read_packet (suc (length (stream p.client_reader))) p.client_reader)
      where
        by_read : (out : Outcome Reader Bytes) → RoundSent p (after_read peers p out)
        by_read (err e r) = (
          [],
          (sym (append-nil (sent p.primary_conn)), sym (append-nil (packets p.mirrored))),
          (λ k. cc),
        )
        by_read (ok packet r) =
            after_primary-RoundSent packet (record p { client_reader = r })
              (peers.write packet p.primary_conn) (delivers packet p.primary_conn)

    abbrev AllSent : Proxy P D → Proxy P D → Type 0
    AllSent p q = (xs : List Bytes) × Sent p xs q

    continue_loop-AllSent :
        (p : Proxy P D) (out : Next × Proxy P D) (rest : Option Error × Proxy P D)
        → RoundSent p out
        → AllSent out.1 rest.1
        → AllSent p (continue_loop peers out.0 out.1 rest).1
    unfolding continue_loop to_mirror
    continue_loop-AllSent p (returns e, q) rest (xs, s, k) more = (xs, s)
    continue_loop-AllSent p (goes_on, q) rest (xs, (a, b), k) (ys, (c, d)) =
        let (x, e, n) = k refl in
        (
          x ∷ ys,
          (
            c
                ∙ ap (λ z. z ++ ys) (a ∙ ap (λ z. sent p.primary_conn ++ z) e)
                ∙ append_assoc (sent p.primary_conn) (x ∷ []) ys,
            d
                ∙ ap (λ z. z ++ to_mirror q.served ys)
                    (b ∙ ap (λ z. packets p.mirrored ++ to_mirror p.served z) e)
                ∙ ap (λ m. (packets p.mirrored ++ to_mirror p.served (x ∷ [])) ++ to_mirror m ys) n
                ∙ append_if (for_shadow p.served x) (packets p.mirrored) x
                    (to_mirror (suc p.served) ys),
          ),
        )

    -- The loop mirrors what it sends to the primary: it writes a list of commands to the primary,
    -- and calls Send with those of them that are not COM_QUIT and that the filter allows, each
    -- once, unchanged and in the same order, no matter how the loop ends. A command whose write to
    -- the primary failed is not mirrored.
    pub proxy_loop-Sent :
        (fuel : ℕ) (p : Proxy P D) → (xs : List Bytes) × Sent p xs (proxy_loop peers fuel p).1
    unfolding proxy_loop to_mirror
    proxy_loop-Sent zero p =
        ([], (sym (append-nil (sent p.primary_conn)), sym (append-nil (packets p.mirrored))))
    proxy_loop-Sent (suc fuel) p =
        continue_loop-AllSent p (round peers p) (proxy_loop peers fuel (round peers p).1)
          (round-RoundSent p) (proxy_loop-Sent fuel (round peers p).1)
