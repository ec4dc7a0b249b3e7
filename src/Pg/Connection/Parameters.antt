-- ===== src/Pg/Connection/Parameters.antt =====
-- parseStartupParams reads back the parameters of a StartupMessage.
use starrocks_shadow_proxy.Pg.Connection.{
  split_null, Params, lookup, read_params, parse_startup_params,
}
use starrocks_shadow_proxy.Pg.Protocol.{PgPacket}
use starrocks_shadow_proxy.Prelude.{
  ◌≤◌, ◌<◌, ◌≡◌, refl, sym, ap, ◌∙◌, false, Bytes, List, [], ◌∷◌, ◌++◌, length, length-append, drop,
  drop-append_self, ltb, ◌==◌, if◌then◌else◌, Option, none, some, arith,
}
use starrocks_shadow_proxy.Prelude.Text.{is_empty, bytes_eq}

-- A text without null bytes.
abbrev pub IsText : Bytes → Type 0
IsText [] = Unit {0}
IsText (c ∷ cs) = (0 < c) × IsText cs

-- The parameters as a client writes them: a name and a value, each with its null byte, and a null
-- byte behind all of them.
unfoldable pub written_params : List (Bytes × Bytes) → Bytes
written_params [] = 0 ∷ []
written_params ((k, v) ∷ ps) = k ++ 0 ∷ (v ++ 0 ∷ written_params ps)

abbrev pub ArePairs : List (Bytes × Bytes) → Type 0
ArePairs [] = Unit {0}
ArePairs ((k, v) ∷ ps) = IsText k × (is_empty k ≡ false) × IsText v × ArePairs ps

-- The value behind the last occurrence of a name.
unfoldable pub last_value : Bytes → List (Bytes × Bytes) → Option Bytes → Option Bytes
last_value k [] found = found
last_value k ((k', v) ∷ ps) found = last_value k ps (if bytes_eq k' k then some v else found)

split_null-text :
    (t rest : Bytes)
    → IsText t
    → split_null (t ++ 0 ∷ rest) ≡ (t, (split_null rest).0 ∷ (split_null rest).1)
unfolding split_null
split_null-text [] rest k = refl
split_null-text (c ∷ t) rest (p, k) =
    let off : (c == 0) ≡ false = ground arith in
    rw (off, if◌then◌else◌, split_null-text t rest k) refl

read_params-written :
    (ps : List (Bytes × Bytes)) (out : Params)
    → ArePairs ps
    → (k : Bytes)
    → lookup k
        (read_params ((split_null (written_params ps)).0 ∷ (split_null (written_params ps)).1) out)
      ≡ last_value k ps (lookup k out)
unfolding written_params split_null read_params last_value lookup is_empty
read_params-written [] out h k = refl
read_params-written ((name, v) ∷ ps) out (t, named, u, h) k =
    rw
      (
        split_null-text name (v ++ 0 ∷ written_params ps) t,
        split_null-text v (written_params ps) u,
        named,
        if◌then◌else◌,
      )
      (read_params-written ps ((name, v) ∷ out) h k)

length-written_params : (qs : List (Bytes × Bytes)) → 1 ≤ length (written_params qs)
unfolding written_params
length-written_params [] = omega arith
length-written_params ((x, v) ∷ qs) =
    omega (arith, length-append x (0 ∷ (v ++ 0 ∷ written_params qs)))

-- Of a startup message whose payload is eight bytes of length and version, and then parameters with
-- nonempty names, no null byte in a name or a value, as a client writes them: the map has for each
-- key the value behind the last occurrence of that name, and no other key.
pub parse_startup_params-written :
    (p : PgPacket) (header : Bytes) (ps : List (Bytes × Bytes))
    → length header ≡ 8
    → ArePairs ps
    → p.payload ≡ header ++ written_params ps
    → (k : Bytes) → lookup k (parse_startup_params p) ≡ last_value k ps none
unfolding parse_startup_params lookup
parse_startup_params-written p header ps n h e k =
    rw (front, long, if◌then◌else◌) (read_params-written ps [] h k)
  where
    front : drop 8 p.payload ≡ written_params ps
    front =
        ap (drop 8) e
        ∙ ap (λ m. drop m (header ++ written_params ps)) (sym n)
        ∙ drop-append_self header (written_params ps)

    long : ltb (length p.payload) 9 ≡ false
    long =
        ground (
          arith,
          ap length e,
          length-append header (written_params ps),
          length-written_params ps,
          n,
        )
