-- ===== src/Pg/Sticky.antt =====
-- pg_proxy.go: which frames are mirrored to the shadow. A frame is dropped by the filter, or since
-- it names a prepared statement whose Parse was dropped.
pub mod Sessions
pub mod Tracking
use starrocks_shadow_proxy.Filter.Decision.{Reason, no_reason, sticky_stmt, Verdict, allowed}
use starrocks_shadow_proxy.Pg.Protocol.{
  PgPacket, extract_pg_query_text, extract_pg_parse_stmt_name, extract_pg_bind_stmt_name,
  extract_pg_close_target, extract_pg_describe_target,
}
use starrocks_shadow_proxy.Prelude.{
  ℕ, suc, ◌+◌, Bool, true, false, not, ◌&&◌, List, [], ◌∷◌, Bytes, length, leb, ◌==◌, if◌then◌else◌,
}
use starrocks_shadow_proxy.Prelude.Text.{bytes_eq, contains, is_empty}

abbrev pub pg_sticky_stmt_map_cap : ℕ
pg_sticky_stmt_map_cap = 4096

-- `filteredStmtNames`: a set, as a list in which no name stands twice.
unfoldable pub insert : Bytes → List Bytes → List Bytes
insert n names = if contains names n then names else n ∷ names

unfoldable pub delete : Bytes → List Bytes → List Bytes
delete n [] = []
delete n (m ∷ names) = if bytes_eq m n then delete n names else m ∷ delete n names

-- The names and `pgStickyStmtMapResets`.
pub record Tracker : Type 0 where
  pub names : List Bytes
  pub resets : ℕ

-- What is done with the name of a Parse that the filter dropped.
unfoldable pub remember : Bytes → Tracker → Tracker
remember n t =
    if is_empty n
    then t
    else if leb pg_sticky_stmt_map_cap (length t.names)
    then record { names = insert n []; resets = t.resets + 1 }
    else record t { names = insert n t.names }

-- A frame that names statement `n`, if `n` is tracked.
abbrev pub is_tracked : Bytes → Tracker → Bool
is_tracked n t = not (is_empty n) && contains t.names n

abbrev pub names_statement : ℕ × Bytes → Bool
names_statement k = k.0 == b'S' && not (is_empty k.1)

abbrev pub drop_sticky : Bool → Verdict
drop_sticky b = if b then (false, sticky_stmt) else allowed

-- `shouldMirrorPgFrame`. `mirror` is `shouldShadowMirror` with the proxy's filter.
unfoldable pub should_mirror_pg_frame : (Bytes → Verdict) → PgPacket → Tracker → Verdict × Tracker
should_mirror_pg_frame mirror msg t =
    let verdict = mirror (extract_pg_query_text msg) in
    let close = extract_pg_close_target msg in
    let describe = extract_pg_describe_target msg in
    if msg.type_byte == b'Q'
    then (verdict, t)
    else if msg.type_byte == b'P'
    then (verdict, if verdict.0 then t else remember (extract_pg_parse_stmt_name msg) t)
    else if msg.type_byte == b'B'
    then (drop_sticky (is_tracked (extract_pg_bind_stmt_name msg) t), t)
    else if msg.type_byte == b'D'
    then (drop_sticky (names_statement describe && contains t.names describe.1), t)
    else if msg.type_byte == b'C'
    then (if names_statement close && contains t.names close.1
        then ((false, sticky_stmt), record t { names = delete close.1 t.names })
        else (allowed, t))
    else (allowed, t)

-- The shadow's part of a round of runQueryLoop: a Terminate is not mirrored, and a mirrored Close
-- of a statement ends its tracking.
unfoldable pub mirror_frame : (Bytes → Verdict) → PgPacket → Tracker → Bool × Tracker
mirror_frame mirror msg t =
    let (verdict, t') = should_mirror_pg_frame mirror msg t in
    let close = extract_pg_close_target msg in
    if msg.type_byte == b'X'
    then (false, t)
    else if not verdict.0
    then (false, t')
    else if msg.type_byte == b'C' && names_statement close
    then (true, record t' { names = delete close.1 t'.names })
    else (true, t')

-- The frames of a session that the shadow is sent, and the tracker that they leave.
unfoldable pub mirror_session :
    (Bytes → Verdict) → List PgPacket → Tracker → List PgPacket × Tracker
mirror_session mirror [] t = ([], t)
mirror_session mirror (f ∷ fs) t =
    let (sent, t') = mirror_frame mirror f t in
    let (rest, t'') = mirror_session mirror fs t' in (if sent then f ∷ rest else rest, t'')
