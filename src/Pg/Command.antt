-- ===== src/Pg/Command.antt =====
-- pg_protocol.go: the names of frontend messages.
use starrocks_shadow_proxy.MySql.Command.{hex2}
use starrocks_shadow_proxy.Prelude.{ℕ, Bytes, List, [], ◌∷◌, ◌++◌, ◌==◌, if◌then◌else◌}
use starrocks_shadow_proxy.Prelude.Text.{codes}

-- The cases of the switch in `pgFrontendCommandName`.
abbrev pub frontend_names : List (ℕ × Bytes)
frontend_names =
    (b'Q', codes "Query")
    ∷ (b'P', codes "Parse")
    ∷ (b'B', codes "Bind")
    ∷ (b'E', codes "Execute")
    ∷ (b'S', codes "Sync")
    ∷ (b'X', codes "Terminate")
    ∷ (b'p', codes "Password")
    ∷ (b'C', codes "Close")
    ∷ (b'D', codes "Describe")
    ∷ (b'H', codes "Flush")
    ∷ (b'd', codes "CopyData")
    ∷ (b'c', codes "CopyDone")
    ∷ (b'f', codes "CopyFail")
    ∷ (b'F', codes "FunctionCall")
    ∷ []

unfoldable pub frontend_name : List (ℕ × Bytes) → ℕ → Bytes
frontend_name [] t = codes "Unknown(0x" ++ hex2 b'A' t ++ codes ")"
frontend_name (e ∷ es) t = if e.0 == t then e.1 else frontend_name es t

-- `pgFrontendCommandName`
unfoldable pub pg_frontend_command_name : ℕ → Bytes
pg_frontend_command_name t = frontend_name frontend_names t
