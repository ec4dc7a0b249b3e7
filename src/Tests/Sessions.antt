-- ===== src/Tests/Sessions.antt =====
-- pg_protocol.go and pg_proxy.go on short messages.
use starrocks_shadow_proxy.Pg.Worker.{PgShadowFrame, PgShadowWorker, send_frame, process_frame}
use starrocks_shadow_proxy.Pg.Worker.Goroutine.{PgRunning, serving, with_worker}
use starrocks_shadow_proxy.Filter.Decision.{Verdict, allowed, sql_operation}
use starrocks_shadow_proxy.Net.{segment}
use starrocks_shadow_proxy.Pg.Protocol.{
  PgPacket, bytes, read_message, extract_pg_parse_stmt_name, extract_pg_bind_stmt_name, index_null,
  extract_pg_close_target, target_of,
}
use starrocks_shadow_proxy.Pg.Protocol.Framing.{ReadsBack, read_message-bytes}
use starrocks_shadow_proxy.Pg.Sticky.{
  Tracker, insert, mirror_session, mirror_frame, should_mirror_pg_frame, remember, delete,
  pg_sticky_stmt_map_cap,
}
use starrocks_shadow_proxy.Pg.Sticky.Sessions.{
  any_frame, only_frames, mirror_session-length, mirror_session-hides, mirror_session-passes,
  mirror_session-all,
}
use starrocks_shadow_proxy.Pg.Sticky.Tracking.{refers}
use starrocks_shadow_proxy.Prelude.{
  ℕ, ◌≤◌, ◌≡◌, refl, true, false, not, Bytes, List, [], ◌∷◌, ◌++◌, Option, none, some, length, ◌==◌,
  arith,
}
use starrocks_shadow_proxy.Prelude.Outcome.{Error}
use starrocks_shadow_proxy.Prelude.Text.{codes, is_empty, contains, bytes_eq}

-- `Parse "s" "x"`, and a Bind and a Sync behind it.
abbrev parse : PgPacket
parse = record { type_byte = b'P'; payload = 0 ∷ 0 ∷ 0 ∷ 10 ∷ b's' ∷ 0 ∷ b'x' ∷ 0 ∷ 0 ∷ 0 ∷ [] }

abbrev bind : PgPacket
bind = record { type_byte = b'B'; payload = 0 ∷ 0 ∷ 0 ∷ 8 ∷ 0 ∷ b's' ∷ 0 ∷ 0 ∷ [] }

abbrev sync : PgPacket
sync = record { type_byte = b'S'; payload = 0 ∷ 0 ∷ 0 ∷ 4 ∷ [] }

abbrev fresh : Tracker
fresh = record { names = []; resets = 0 }

-- A filter that drops everything.
abbrev nothing : Bytes → Verdict
nothing q = (false, sql_operation)

abbrev everything : Bytes → Verdict
everything q = allowed

read_message-bytes_example :
    ReadsBack sync
      (1 ∷ [])
      (segment (b'S' ∷ 0 ∷ []) ∷ segment (0 ∷ 0 ∷ 4 ∷ 1 ∷ []) ∷ [])
      (read_message (segment (b'S' ∷ 0 ∷ []) ∷ segment (0 ∷ 0 ∷ 4 ∷ 1 ∷ []) ∷ []))
unfolding bytes
read_message-bytes_example =
    read_message-bytes sync (1 ∷ []) (segment (b'S' ∷ 0 ∷ []) ∷ segment (0 ∷ 0 ∷ 4 ∷ 1 ∷ []) ∷ [])
      (record {
        typed = ground arith;
        at_least = omega arith;
        bounded = omega arith;
        counted = refl;
      })
      refl

mirror_session-length_example :
    length (mirror_session nothing (parse ∷ bind ∷ []) fresh).1.names ≤ pg_sticky_stmt_map_cap
mirror_session-length_example =
    mirror_session-length nothing (parse ∷ bind ∷ []) fresh (omega arith)

abbrev close : PgPacket
close = record { type_byte = b'C'; payload = 0 ∷ 0 ∷ 0 ∷ 7 ∷ b'S' ∷ b's' ∷ 0 ∷ [] }

mirror_session-hides_example :
    any_frame
      (refers (codes "s"))
      (mirror_session nothing (parse ∷ (bind ∷ sync ∷ []) ++ close ∷ []) fresh).0
    ≡ false
unfolding mirror_session mirror_frame should_mirror_pg_frame remember any_frame is_empty bytes_eq
    extract_pg_parse_stmt_name index_null extract_pg_bind_stmt_name contains insert
    extract_pg_close_target delete target_of
mirror_session-hides_example =
    mirror_session-hides nothing (codes "s") refl parse (bind ∷ sync ∷ []) close fresh refl refl
      refl

mirror_session-passes_example :
    only_frames (refers (codes "s")) (mirror_session everything (parse ∷ bind ∷ sync ∷ []) fresh).0
    ≡ only_frames (refers (codes "s")) (parse ∷ bind ∷ sync ∷ [])
unfolding any_frame contains bytes_eq extract_pg_parse_stmt_name index_null
mirror_session-passes_example =
    mirror_session-passes everything (codes "s") (parse ∷ bind ∷ sync ∷ []) fresh refl refl

mirror_session-all_example :
    ((mirror_session everything (parse ∷ bind ∷ sync ∷ []) fresh).0
      ≡ only_frames (λ f. not (f.type_byte == b'X')) (parse ∷ bind ∷ sync ∷ []))
    × ((mirror_session everything (parse ∷ bind ∷ sync ∷ []) fresh).1.names ≡ [])
mirror_session-all_example =
    mirror_session-all everything (λ q. refl) (parse ∷ bind ∷ sync ∷ []) fresh refl

abbrev write : Bytes → List Bytes → ℕ × (Option Error × List Bytes)
write bs c = (length bs, (none, c ++ (bs ∷ [])))

abbrev worker : PgShadowWorker (List Bytes)
worker = record {
  queue = [];
  queue_size = 1;
  closed = false;
  forced = false;
  dead = false;
  conn = [];
  conn_open = true;
  conn_in = [];
  log = some [];
  dropped = 0;
  queue_drops = 0;
}

-- A frame whose response never comes.
abbrev frame : PgShadowFrame
frame = record {
  req = record {
    id = 7 ∷ [];
    packet = [];
    query_text = [];
    query_hash = [];
    command = codes "Sync";
    client_addr = [];
  };
  payload = bytes sync;
  expects_response = true;
}

abbrev running : PgRunning (List Bytes)
running = record { worker = worker; registered = true; closing = false; phase = serving }

-- One frame is accepted and taken, and the worker is closed.
abbrev queued : PgRunning (List Bytes)
queued = with_worker running (send_frame frame worker).1

abbrev handled : PgRunning (List Bytes)
handled = with_worker queued (process_frame write frame (record (queued.worker) { queue = [] }))
