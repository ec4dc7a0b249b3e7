-- ===== src/Filter/Statements.antt =====
-- query_filter.go: splitStatements, which cuts SQL text at the semicolons outside quotes.
pub mod Join
use starrocks_shadow_proxy.Prelude.{
  ℕ, Bool, true, false, not, ◌&&◌, List, [], ◌∷◌, ◌++◌, Bytes, ◌==◌, if◌then◌else◌,
}
use starrocks_shadow_proxy.Prelude.Text.{trim_space, is_empty}

pub record Scan : Type 0 where
  pub statements : List Bytes
  pub current : Bytes
  pub in_single : Bool
  pub in_double : Bool
  pub in_backtick : Bool
  pub escaped : Bool

abbrev pub fresh : Scan
fresh = record {
  statements = [];
  current = [];
  in_single = false;
  in_double = false;
  in_backtick = false;
  escaped = false;
}

-- `if stmt := strings.TrimSpace(current.String()); stmt != "" { append }`
unfoldable pub flush : List Bytes → Bytes → List Bytes
unfolding is_empty
flush statements current =
    let stmt = trim_space current in if is_empty stmt then statements else statements ++ stmt ∷ []

-- One byte of the text.
unfoldable pub scan_byte : Scan → ℕ → Scan
scan_byte s c =
    let next = record s { current = s.current ++ c ∷ [] } in
    if s.escaped
    then record next { escaped = false }
    else if c == b'\\'
    then record next { escaped = true }
    else if c == b'\'' && (not s.in_double && not s.in_backtick)
    then record next { in_single = not s.in_single }
    else if c == b'"' && (not s.in_single && not s.in_backtick)
    then record next { in_double = not s.in_double }
    else if c == b'`' && (not s.in_single && not s.in_double)
    then record next { in_backtick = not s.in_backtick }
    else if c == b';' && (not s.in_single && (not s.in_double && not s.in_backtick))
    then record s { statements = flush s.statements s.current; current = [] }
    else next

unfoldable pub scan : Scan → Bytes → Scan
unfolding scan_byte
scan s [] = s
scan s (c ∷ cs) = scan (scan_byte s c) cs

unfoldable pub split_statements : Bytes → List Bytes
unfolding scan flush
split_statements query = let s = scan fresh query in flush s.statements s.current
