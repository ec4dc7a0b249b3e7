-- ===== src/MySql/Reader/Window.antt =====
-- The buffer as a window on the stream: `ensureBytes` moves, grows and fills it, and the bytes
-- still to be read stay what they are.
use starrocks_shadow_proxy.MySql.Reader.{Reader, compact, grow, received, fill, ensure_bytes, slice}
use starrocks_shadow_proxy.Net.{Conn, size}
use starrocks_shadow_proxy.Net.Arrival.{arriving, stops, read-Reads, Reads}
use starrocks_shadow_proxy.Prelude.{
  ℕ, zero, suc, ◌+◌, ◌-◌, ◌*◌, ◌≤◌, ◌<◌, ◌≡◌, refl, sym, ap, ◌∙◌, ◌++◌, append_assoc, append-nil,
  Bytes, length, take, drop, ltb, leb, write_at, replicate, length-write_at, take-write_at,
  length-take, length-drop, length-replicate, drop-append_le, nil_of_length, Bool-cases, inl, inr,
  if◌then◌else◌, ltb→lt, ltb→le, leb→le, arith,
}
use mathlib.Core.Path.{ap₂}
use starrocks_shadow_proxy.Prelude.Outcome.{Outcome, ok, err, net}

pub record Valid (r : Reader) : Type 0 where
  pub starts : r.offset ≤ r.limit
  pub fits : r.limit ≤ length r.buf

-- The unread part of the buffer, and all that can still be read.
abbrev pub window : Reader → Bytes
window r = slice r.buf r.offset r.limit

abbrev pub stream : Reader → Bytes
stream r = window r ++ arriving r.conn

pub length-window : (r : Reader) → Valid r → length (window r) ≡ r.limit - r.offset
length-window r v =
    omega (arith, length-drop r.offset (take r.limit r.buf), length-take r.limit r.buf)

window-received :
    (r : Reader) (bs : Bytes) (c : Conn)
    → Valid r
    → r.limit + length bs ≤ length r.buf
    → window (received r bs c) ≡ window r ++ bs
window-received r bs c v h =
    ap (drop r.offset) (take-write_at r.buf bs r.limit h)
    ∙ drop-append_le r.offset (take r.limit r.buf) bs
        (omega (arith, length-take r.limit r.buf, v.starts, v.fits))

-- What filling up to `n` bytes establishes.
abbrev pub Filled {ℓ} : {A : Type ℓ} → ℕ → Reader → Outcome Reader A → Type 0
Filled n r (ok _ r') =
    Valid r' × (n ≤ length (window r')) × (stream r' ≡ stream r) × (stops r'.conn ≡ stops r.conn)
Filled n r (err e r') = (e ≡ net (stops r.conn)) × (length (stream r) < n)

-- The postcondition depends on the reader's stream alone.
Filled-same {ℓ} :
    {A : Type ℓ} (n : ℕ) (r q : Reader) (out : Outcome Reader A)
    → stream q ≡ stream r
    → stops q.conn ≡ stops r.conn
    → Filled n q out
    → Filled n r out
Filled-same n r q (ok _ r') s t (v, m, s', t') = (v, m, s' ∙ s, t' ∙ t)
Filled-same n r q (err e r') s t (why, few) = (rw (← t) why, rw (← s) few)

module _ (fuel n : ℕ) (r : Reader) (v : Valid r) (o : r.offset ≡ 0) (b : n ≤ length r.buf) where
  stream-received :
      (bs : Bytes) (c : Conn)
      → r.limit + length bs ≤ length r.buf
      → arriving r.conn ≡ bs ++ arriving c
      → stream (received r bs c) ≡ stream r
  stream-received bs c h arr = rw (window-received r bs c v h, append_assoc, arr)

  fill_read :
      ((q : Reader)
        → Valid q
        → q.offset ≡ 0
        → n ≤ length q.buf
        → size q.conn < fuel
        → Filled n q (fill fuel n q))
      → (out : Outcome Conn Bytes) → r.limit < n
      → size r.conn < suc fuel
      → Reads (length r.buf - r.limit) r.conn out
      → Filled n r (elim out [
        | ok bs c ↦ fill fuel n (received r bs c)
        | err e c ↦ err e (record r { conn = c })
      ])
  fill_read ih (err e c) short enough (arr, why) =
      (why, rw (arr, append-nil) (omega (arith, length-window r v)))
  fill_read ih (ok bs c) short enough (arr, same, room, less) =
      let h : r.limit + length bs ≤ length r.buf = omega (arith, v.fits) in
      let wide : length (received r bs c).buf ≡ length r.buf = length-write_at r.buf bs r.limit h in
      Filled-same n r (received r bs c) _ (stream-received bs c h arr) same (
        ih (received r bs c)
          (record { starts = omega (arith, v.starts); fits = omega (arith, wide) }) o
          (omega (arith, wide)) (omega (arith, less (omega arith))))

fill-Filled :
    (fuel n : ℕ) (r : Reader)
    → Valid r
    → r.offset ≡ 0
    → n ≤ length r.buf
    → size r.conn < fuel
    → Filled n r (fill fuel n r)
unfolding fill
fill-Filled zero n r v o b h = absurd (omega arith)
fill-Filled (suc fuel) n r v o b h = elim (Bool-cases (ltb r.limit n)) [
  | inl short ↦
      rw (short, fill)
        (fill_read fuel n r v o b (fill-Filled fuel n) _ (ltb→lt _ _ short) h
          (read-Reads (length r.buf - r.limit) r.conn))
  | inr done ↦ rw (done, fill) (v, omega (arith, length-window r v, ltb→le _ _ done), refl, refl)
]

-- Compacting and growing change where the unread bytes stand, and nothing else.
record Kept (r q : Reader) : Type 0 where
  valid : Valid q
  same_window : window q ≡ window r
  same_conn : q.conn ≡ r.conn

take-write_at_start :
    (buf bs : Bytes) → length bs ≤ length buf → take (length bs) (write_at buf 0 bs) ≡ bs
take-write_at_start buf bs h =
    let e : 0 + length bs ≡ length bs = omega arith in
    rw (← e) (take-write_at buf bs 0 (omega arith))

compact-Kept : (r : Reader) → Valid r → Kept r (compact r) × ((compact r).offset ≡ 0)
unfolding compact
compact-Kept r v = elim (Bool-cases (ltb 0 r.offset)) [
  | inl moved ↦ elim (Bool-cases (ltb 0 (r.limit - r.offset))) [
    | inl some_left ↦
        rw (moved, some_left, if◌then◌else◌)
          (
            record {
              valid = record {
                starts = omega arith;
                fits = omega (arith, v.fits, length-write_at r.buf (window r) 0 room);
              };
              same_window =
                  rw (← length-window r v)
                    (take-write_at_start r.buf (window r) (omega (arith, room)));
              same_conn = refl;
            },
            refl,
          )
    | inr none_left ↦
        rw (moved, none_left, if◌then◌else◌)
          (
            record {
              valid = record { starts = omega arith; fits = omega (arith, v.fits) };
              same_window =
                  let e : r.limit - r.offset ≡ 0 = omega (arith, ltb→le _ _ none_left) in
                  rw e (sym (nil_of_length (window r) (length-window r v ∙ e)));
              same_conn = refl;
            },
            refl,
          )
  ]
  | inr put ↦
      rw (put, if◌then◌else◌)
        (record { valid = v; same_window = refl; same_conn = refl }, omega (arith, ltb→le _ _ put))
]
  where
    room : 0 + length (window r) ≤ length r.buf
    room = omega (arith, length-window r v, v.fits)

module _ (n : ℕ) (r : Reader) (v : Valid r) (small : length r.buf < n) where
  abbrev new_buf : Bytes
  new_buf = replicate (n * 2) 0

  abbrev old : Bytes
  old = take r.limit r.buf

  length-old : length old ≡ r.limit
  length-old = omega (arith, length-take r.limit r.buf, v.fits)

  old_fits : length old ≤ length new_buf
  old_fits = omega (arith, length-old, length-replicate {A = ℕ} (n * 2) 0, v.fits)

  length-grown : length (write_at new_buf 0 old) ≡ n * 2
  length-grown =
      length-write_at new_buf old 0 (omega (arith, old_fits)) ∙ length-replicate (n * 2) 0

  grown_front : take r.limit (write_at new_buf 0 old) ≡ old
  grown_front = rw length-old at (take-write_at_start new_buf old old_fits)

grow-Kept :
    (n : ℕ) (r : Reader)
    → Valid r
    → Kept r (grow n r) × ((grow n r).offset ≡ r.offset) × (n ≤ length (grow n r).buf)
unfolding grow
grow-Kept n r v = elim (Bool-cases (ltb (length r.buf) n)) [
  | inl small ↦
      let h : length r.buf < n = ltb→lt _ _ small in
      rw (small, if◌then◌else◌)
        (
          record {
            valid = record {
              starts = v.starts;
              fits = omega (arith, length-grown n r v h, v.fits, h);
            };
            same_window = ap (drop r.offset) (grown_front n r v h);
            same_conn = refl;
          },
          refl,
          omega (arith, length-grown n r v h),
        )
  | inr large ↦
      rw (large, if◌then◌else◌)
        (record { valid = v; same_window = refl; same_conn = refl }, refl, ltb→le _ _ large)
]

-- On a well-formed reader `ensureBytes(n)` makes the next `n` bytes of the stream stand in the
-- window, however they arrive; it fails only if fewer than `n` are still to come.
pub ensure_bytes-Filled : (n : ℕ) (r : Reader) → Valid r → Filled n r (ensure_bytes n r)
unfolding ensure_bytes
ensure_bytes-Filled n r v = elim (Bool-cases (leb n (r.limit - r.offset))) [
  | inl there ↦
      rw (there, if◌then◌else◌) (v, omega (arith, length-window r v, leb→le _ _ there), refl, refl)
  | inr more ↦
      rw (more, if◌then◌else◌)
        (let (c, start) = compact-Kept r v in
          let (g, kept, wide) = grow-Kept n (compact r) c.valid in
          let w : window (grow n (compact r)) ≡ window r = g.same_window ∙ c.same_window in
          let k : (grow n (compact r)).conn ≡ r.conn = g.same_conn ∙ c.same_conn in
          Filled-same n r (grow n (compact r)) _ (ap₂ (λ a b. a ++ arriving b) w k) (ap stops k) (
            fill-Filled (suc (size (grow n (compact r)).conn)) n (grow n (compact r)) g.valid
              (kept ∙ start) wide (omega arith)))
]
