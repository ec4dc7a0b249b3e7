-- ===== src/MySql/Commands.antt =====
-- mysql_protocol.go: what ReadMultiPacket returns from a MySQLPacketReader.
use starrocks_shadow_proxy.MySql.Reader.{Reader, read_packet}
use starrocks_shadow_proxy.MySql.Reader.Packets.{IsPacket}
use starrocks_shadow_proxy.MySql.Reader.Window.{Valid, stream}
use starrocks_shadow_proxy.MySql.Response.{multi_loop, read_multi_packet}
use starrocks_shadow_proxy.MySql.Session.{Fronts, read_packet-Fronts}
use starrocks_shadow_proxy.MySql.Wire.{u24}
use starrocks_shadow_proxy.Prelude.{
  ℕ, zero, suc, ◌≤◌, ◌<◌, ◌≡◌, ◌≢◌, refl, ap, ◌∙◌, ◌++◌, append_assoc, Bytes, length, length-append,
  ltb, ltb→lt, ltb→le, Bool-cases, inl, inr, if◌then◌else◌, arith, [],
}
use starrocks_shadow_proxy.Prelude.Outcome.{out_of_fuel, Outcome, ok, err, continue_with}
use starrocks_shadow_proxy.Prelude.Rules.{Post}

-- A command: packets with the full payload of 0xFFFFFF bytes, and a last one that is shorter.
pub data IsCommand : Bytes → Type 0 where
  last : (p : Bytes) → IsPacket p → u24 p 0 < 0xffffff → IsCommand p
  more :
      (p c whole : Bytes)
      → IsPacket p
      → 0xffffff ≤ u24 p 0
      → IsCommand c
      → whole ≡ p ++ c
      → IsCommand whole

-- `tail` is the command that stands at the front of `r`'s stream, behind what was read before.
pub record Reads (result : Bytes) (r : Reader) (c : Bytes) (r' : Reader) : Type 0 where
  pub tail : Bytes
  pub is_command : IsCommand tail
  pub result_is : c ≡ result ++ tail
  pub front : tail ++ stream r' ≡ stream r
  pub valid : Valid r'

abbrev pub ReadsCommand : Bytes → Reader → Outcome Reader Bytes → Type 0
ReadsCommand result r = Post (Reads result r) (λ e _. e ≢ out_of_fuel)

module _ (result : Bytes) (r : Reader) (p : Bytes) (r1 : Reader) (k : IsPacket p)
    (f : p ++ stream r1 ≡ stream r) where
  last_read : Valid r1 → u24 p 0 < 0xffffff → Reads result r (result ++ p) r1
  last_read v h = record {
    tail = p;
    is_command = last p k h;
    result_is = refl;
    front = f;
    valid = v;
  }

  more_read :
      (out : Outcome Reader Bytes)
      → 0xffffff ≤ u24 p 0
      → ReadsCommand (result ++ p) r1 out
      → ReadsCommand result r out
  more_read (ok c r2) h m = record {
    tail = p ++ m.tail;
    is_command = more p m.tail (p ++ m.tail) k h m.is_command refl;
    result_is = m.result_is ∙ append_assoc result p m.tail;
    front = append_assoc p m.tail (stream r2) ∙ ap (λ b. p ++ b) m.front ∙ f;
    valid = m.valid;
  }
  more_read (err e r2) h m = m

multi_loop-ReadsCommand :
    (fuel : ℕ) (result : Bytes) (r : Reader)
    → Valid r
    → length (stream r) < fuel
    → ReadsCommand result r (multi_loop read_packet fuel result r)
unfolding multi_loop
multi_loop-ReadsCommand zero result r v h = absurd (omega arith)
multi_loop-ReadsCommand (suc fuel) result r v h =
    step (read_packet r) (read_packet-Fronts r v) (λ res q w. multi_loop-ReadsCommand fuel res q w)
  where
    step :
        (out : Outcome Reader Bytes)
        → Fronts r out
        → ((res : Bytes) (q : Reader)
            → Valid q
            → length (stream q) < fuel
            → ReadsCommand res q (multi_loop read_packet fuel res q))
        → ReadsCommand result r (
            continue_with out (λ packet s'.
              if ltb (u24 packet 0) 0xffffff
              then ok (result ++ packet) s'
              else multi_loop read_packet fuel (result ++ packet) s'))
    step (err e r1) why ih = λ x. cc
    step (ok p r1) (w, k, f) ih = elim (Bool-cases (ltb (u24 p 0) 0xffffff)) [
      | inl done ↦ rw (done, if◌then◌else◌) (last_read result r p r1 k f w (ltb→lt _ _ done))
      | inr on ↦
          rw (on, if◌then◌else◌)
            (more_read result r p r1 k f _ (ltb→le _ _ on)
              (ih (result ++ p) r1 w (omega (arith, ap length f, length-append p (stream r1), k))))
    ]

-- `ReadMultiPacket` by a well-formed reader returns one whole command off the front of the stream,
-- its packets in order and unchanged, and leaves the rest; with fuel above the bytes to come the
-- loop ends by itself, so an error is never the model's.
pub read_multi_packet-ReadsCommand :
    (fuel : ℕ) (r : Reader)
    → Valid r
    → length (stream r) < fuel
    → ReadsCommand [] r (read_multi_packet read_packet fuel r)
unfolding read_multi_packet
read_multi_packet-ReadsCommand fuel r v h = multi_loop-ReadsCommand fuel [] r v h
