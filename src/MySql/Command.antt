-- ===== src/MySql/Command.antt =====
-- mysql_protocol.go: the command byte of a packet, its name, and what the command does.
use starrocks_shadow_proxy.MySql.Wire.{byte}
use starrocks_shadow_proxy.Prelude.{
  ℕ, ◌+◌, ◌-◌, ◌/◌, ◌%◌, ◌++◌, Bool, true, false, not, ◌||◌, Bytes, List, [], ◌∷◌, length, take,
  drop, ltb, leb, ◌==◌, if◌then◌else◌,
}
use starrocks_shadow_proxy.Prelude.Text.{codes}

abbrev pub com_quit : ℕ
com_quit = 0x01

abbrev pub com_init_db : ℕ
com_init_db = 0x02

abbrev pub com_query : ℕ
com_query = 0x03

abbrev pub com_ping : ℕ
com_ping = 0x0e

abbrev pub com_stmt_prepare : ℕ
com_stmt_prepare = 0x16

abbrev pub com_stmt_execute : ℕ
com_stmt_execute = 0x17

abbrev pub com_stmt_send_long_data : ℕ
com_stmt_send_long_data = 0x18

abbrev pub com_stmt_close : ℕ
com_stmt_close = 0x19

abbrev pub com_stmt_reset : ℕ
com_stmt_reset = 0x1a

abbrev pub com_reset_connection : ℕ
com_reset_connection = 0x1f

-- The cases of the switch in `getMySQLCommandName`.
abbrev pub command_names : List (ℕ × Bytes)
command_names =
    (0x00, codes "COM_SLEEP")
    ∷ (0x01, codes "COM_QUIT")
    ∷ (0x02, codes "COM_INIT_DB")
    ∷ (0x03, codes "COM_QUERY")
    ∷ (0x04, codes "COM_FIELD_LIST")
    ∷ (0x05, codes "COM_CREATE_DB")
    ∷ (0x06, codes "COM_DROP_DB")
    ∷ (0x07, codes "COM_REFRESH")
    ∷ (0x08, codes "COM_SHUTDOWN")
    ∷ (0x09, codes "COM_STATISTICS")
    ∷ (0x0a, codes "COM_PROCESS_INFO")
    ∷ (0x0b, codes "COM_CONNECT")
    ∷ (0x0c, codes "COM_PROCESS_KILL")
    ∷ (0x0d, codes "COM_DEBUG")
    ∷ (0x0e, codes "COM_PING")
    ∷ (0x11, codes "COM_CHANGE_USER")
    ∷ (0x16, codes "COM_STMT_PREPARE")
    ∷ (0x17, codes "COM_STMT_EXECUTE")
    ∷ (0x18, codes "COM_STMT_SEND_LONG_DATA")
    ∷ (0x19, codes "COM_STMT_CLOSE")
    ∷ (0x1a, codes "COM_STMT_RESET")
    ∷ (0x1b, codes "COM_SET_OPTION")
    ∷ (0x1c, codes "COM_STMT_FETCH")
    ∷ (0x1f, codes "COM_RESET_CONNECTION")
    ∷ []

-- `%02x` and `%02X` of a byte; `a` is the digit ten.
unfoldable pub hex_digit : ℕ → ℕ → ℕ
hex_digit a d = if ltb d 10 then b'0' + d else a + (d - 10)

unfoldable pub hex2 : ℕ → ℕ → Bytes
hex2 a c = hex_digit a (c / 16 % 16) ∷ hex_digit a (c % 16) ∷ []

unfoldable pub lookup_name : List (ℕ × Bytes) → ℕ → Bytes
lookup_name [] cmd = codes "COM_UNKNOWN(0x" ++ hex2 b'A' cmd ++ codes ")"
lookup_name (e ∷ es) cmd = if e.0 == cmd then e.1 else lookup_name es cmd

-- `getMySQLCommandName`
unfoldable pub get_mysql_command_name : ℕ → Bytes
get_mysql_command_name cmd = lookup_name command_names cmd

-- `isCountableCommand`
unfoldable pub is_countable_command : ℕ → Bool
is_countable_command cmd = cmd == com_query || (cmd == com_stmt_prepare || cmd == com_stmt_execute)

-- `isSimpleResponseCommand`
unfoldable pub is_simple_response_command : ℕ → Bool
is_simple_response_command cmd =
    cmd == com_init_db
    || (cmd == com_ping || (cmd == com_stmt_reset || cmd == com_reset_connection))

-- `isNoResponseCommand`
unfoldable pub is_no_response_command : ℕ → Bool
is_no_response_command cmd =
    cmd == com_quit || (cmd == com_stmt_close || cmd == com_stmt_send_long_data)

-- `getMySQLCommand`
unfoldable pub get_mysql_command : Bytes → ℕ × Bool
get_mysql_command packet = if ltb (length packet) 5 then (0, false) else (byte packet 4, true)

-- `strings.ReplaceAll` of newlines by spaces, and of carriage returns by nothing.
unfoldable pub replace_newlines : Bytes → Bytes
replace_newlines [] = []
replace_newlines (c ∷ cs) =
    let rest = replace_newlines cs in
    if c == b'\n' then b' ' ∷ rest else if c == b'\r' then rest else c ∷ rest

-- `extractQueryPreview`
unfoldable pub extract_query_preview : Bytes → ℕ → Bytes
extract_query_preview packet max_len =
    if ltb (length packet) 5
    then codes "<packet too short>"
    else if not (byte packet 4 == com_query)
    then codes "<not a query, cmd=0x" ++ hex2 b'a' (byte packet 4) ++ codes ">"
    else if leb (length packet) 5
    then codes "<empty query>"
    else if ltb max_len (length (drop 5 packet))
    then replace_newlines (take max_len (drop 5 packet) ++ codes "...")
    else replace_newlines (drop 5 packet)
