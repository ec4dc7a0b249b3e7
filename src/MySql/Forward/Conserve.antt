-- ===== src/MySql/Forward/Conserve.antt =====
-- What the client gets: forwarding moves bytes from the server's stream to the client, in order.
use starrocks_shadow_proxy.MySql.Forward.{
  Relay, relay, forward_columns, forward_rows, forward_result_set, forward_body, forward_loop,
  read_and_forward_response,
}
use starrocks_shadow_proxy.MySql.Response.{ends_rows, is_ok_packet}
use starrocks_shadow_proxy.MySql.Wire.{byte}
use starrocks_shadow_proxy.Prelude.{
  ℕ, zero, suc, ◌+◌, ◌≡◌, refl, ap, ◌∙◌, Bool, Bytes, length, length-append, append_assoc, ◌++◌,
  ltb, ◌==◌, if◌then◌else◌, arith,
}
use starrocks_shadow_proxy.Prelude.Outcome.{Outcome, ok, err, forward_failed, M, continue_with}
use starrocks_shadow_proxy.Prelude.Rules.{Post, Post-bind, Post-if, Post-if_at}

-- An invariant of one relayed packet is one of the whole response.
module _ {S D : Type 0} (read_packet : M S Bytes) (write : Bytes → M D (Unit {0}))
    (J : Relay S D → Type 0) where
  abbrev Keeps : {A : Type 0} → Outcome (Relay S D) A → Type 0
  Keeps = Post (λ _ t. J t) (λ _ _. Unit {0})

  Keeps-bind :
      {A B : Type 0} (x : Outcome (Relay S D) A) (f : A → Relay S D → Outcome (Relay S D) B)
      → Keeps x
      → ((a : A) (t : Relay S D) → J t → Keeps (f a t))
      → Keeps (continue_with x f)
  Keeps-bind = Post-bind (λ _ t. J t) (λ _ t. J t) (λ _ _. Unit {0})

  module _ (relay-Keeps : (t : Relay S D) → J t → Keeps (relay read_packet write t)) where
    columns-Keeps : (n : ℕ) (t : Relay S D) → J t → Keeps (forward_columns read_packet write n t)
    unfolding forward_columns
    columns-Keeps zero t j = j
    columns-Keeps (suc n) t j = Keeps-bind _ _ (relay-Keeps t j) (λ _ t' j'. columns-Keeps n t' j')

    rows-Keeps : (fuel : ℕ) (t : Relay S D) → J t → Keeps (forward_rows read_packet write fuel t)
    unfolding forward_rows
    rows-Keeps zero t j = tt
    rows-Keeps (suc fuel) t j = Keeps-bind _ _ (relay-Keeps t j) (λ pkt t' j'.
        Post-if (λ _ t. J t) (λ _ _. Unit {0}) (ends_rows pkt) _ _ j' (rows-Keeps fuel t' j'))

    result_set-Keeps :
        (fuel : ℕ) (packet : Bytes) (t : Relay S D)
        → J t
        → Keeps (forward_result_set read_packet write fuel packet t)
    unfolding forward_result_set
    result_set-Keeps fuel packet t j = Keeps-bind _ _ (columns-Keeps _ t j) (λ _ t1 j1.
        Keeps-bind _ _ (relay-Keeps t1 j1) (λ pkt t2 j2.
          Post-if_at (λ _ t. J t) (λ _ _. Unit {0}) (is_ok_packet pkt) _ _ t2 j2
            (rows-Keeps fuel t2 j2)))

    body-Keeps :
        (fuel : ℕ) (packet : Bytes) (t : Relay S D)
        → J t
        → Keeps (forward_body read_packet write fuel packet t)
    unfolding forward_body
    body-Keeps fuel packet t j = if_at (ltb (length packet) 5) _ _ tt (
        if_at (byte packet 4 == 0x00) _ _ j (
          if_at (byte packet 4 == 0xff) _ _ j (
            if_at (byte packet 4 == 0xfb) _ _ j
              (if_at (byte packet 4 == 0xfe) _ _ j (result_set-Keeps fuel packet t j)))))
      where
        if_at :
            (b : Bool) (m n : M (Relay S D) Bool)
            → Keeps (m t)
            → Keeps (n t)
            → Keeps ((if b then m else n) t)
        if_at b m n = Post-if_at (λ _ t. J t) (λ _ _. Unit {0}) b m n t

    loop-Keeps : (fuel : ℕ) (t : Relay S D) → J t → Keeps (forward_loop read_packet write fuel t)
    unfolding forward_loop
    loop-Keeps zero t j = tt
    loop-Keeps (suc fuel) t j = Keeps-bind _ _ (relay-Keeps t j) (λ packet t1 j1.
        Keeps-bind _ _ (body-Keeps fuel packet t1 j1) (λ more t2 j2.
          Post-if (λ _ t. J t) (λ _ _. Unit {0}) more _ _ (loop-Keeps fuel t2 j2) j2))

-- What the client has been sent, followed by what the stream still holds, is what it was; `total`
-- counts the bytes sent.
abbrev pub MovedBytes :
    {S D : Type 0} → (S → Bytes) → (D → Bytes) → (S → Type 0) → S → D → Relay S D → Type 0
MovedBytes stream written V s d t =
    V t.source
    × (written t.dest ++ stream t.source ≡ written d ++ stream s)
    × (t.total + length (written d) ≡ length (written t.dest))

-- `stream` is what a source still holds and `written` what a writer has taken. A read takes its
-- packet off the front of the stream; a write that succeeds has appended all of its bytes.
module _ {S D : Type 0} (read_packet : M S Bytes) (write : Bytes → M D (Unit {0}))
    (stream : S → Bytes) (written : D → Bytes) (V : S → Type 0)
    (takes : (s : S)
      → V s
      → Post (λ p s'. V s' × (p ++ stream s' ≡ stream s)) (λ _ _. Unit {0}) (read_packet s))
    (appends : (bs : Bytes) (d : D)
      → Post (λ _ d'. written d' ≡ written d ++ bs) (λ _ _. Unit {0}) (write bs d)) where
  abbrev Moved : S → D → Relay S D → Type 0
  Moved = MovedBytes stream written V

  module _ (s : S) (d : D) where
    relay-Moved :
        (t : Relay S D)
        → Moved s d t
        → Keeps read_packet write (Moved s d) (relay read_packet write t)
    unfolding relay
    relay-Moved t (v, m, n) = answered (read_packet t.source) (takes t.source v)
      where
        sent :
            (pkt : Bytes) (s' : S) (out : Outcome D (Unit {0}))
            → V s'
            → pkt ++ stream s' ≡ stream t.source
            → Post (λ _ d'. written d' ≡ written t.dest ++ pkt) (λ _ _. Unit {0}) out
            → Keeps read_packet write (Moved s d) (elim out [
              | err e d' ↦ err forward_failed (record t { source = s'; dest = d' })
              | ok _ d' ↦ ok pkt (record { source = s'; dest = d'; total = t.total + length pkt })
            ])
        sent pkt s' (err e d') v' h w = tt
        sent pkt s' (ok _ d') v' h w = (
          v',
          rw w (append_assoc (written t.dest) pkt (stream s') ∙ rw h m),
          omega (arith, ap length w, length-append (written t.dest) pkt, n),
        )

        answered :
            (out : Outcome S Bytes)
            → Post (λ p s'. V s' × (p ++ stream s' ≡ stream t.source)) (λ _ _. Unit {0}) out
            → Keeps read_packet write (Moved s d) (elim out [
              | err e s' ↦ err e (record t { source = s' })
              | ok pkt s' ↦ elim (write pkt t.dest) [
                | err e d' ↦ err forward_failed (record t { source = s'; dest = d' })
                | ok _ d' ↦ ok pkt (record { source = s'; dest = d'; total = t.total + length pkt })
              ]
            ])
        answered (err e s') h = tt
        answered (ok pkt s') (v', h) = sent pkt s' (write pkt t.dest) v' h (appends pkt t.dest)

    -- A response that is read and forwarded with success: what the client was sent, followed by
    -- what the server's stream still holds, is what they were before, so exactly the bytes taken
    -- from the stream were sent, in order; and the count returned is their number.
    pub forward-Moved :
        (fuel : ℕ)
        → V s
        → Post
            (λ _ t. MovedBytes stream written V s d t)
            (λ _ _. Unit {0})
            (read_and_forward_response read_packet write fuel s d)
    unfolding read_and_forward_response
    forward-Moved fuel v =
        loop-Keeps read_packet write (Moved s d) relay-Moved fuel _ (v, refl, omega arith)
