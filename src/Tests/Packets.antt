-- ===== src/Tests/Packets.antt =====
-- mysql_protocol.go and mysql_auth.go on packets of a few bytes.
use starrocks_shadow_proxy.MySql.Reader.Packets.{IsPacket}
use starrocks_shadow_proxy.MySql.Shadow.{
  ShadowLink, ShadowEnd, login_packet, authenticate_with_shadow,
}
use starrocks_shadow_proxy.MySql.Shadow.Accepted.{authenticate_with_shadow-Accepted}
use starrocks_shadow_proxy.MySql.Shadow.Steps.{Accepted, Failed}
use starrocks_shadow_proxy.MySql.Shadow.Packet.{read_login, login_packet-IsPacket}
use starrocks_shadow_proxy.MySql.Wire.{byte}
use starrocks_shadow_proxy.Net.Arrival.{arriving}
use starrocks_shadow_proxy.MySql.Auth.{remove_unsupported_capabilities, xor_bytes}
use starrocks_shadow_proxy.MySql.Auth.Flags.{remove_unsupported_capabilities_lem}
use starrocks_shadow_proxy.MySql.Commands.{ReadsCommand, read_multi_packet-ReadsCommand}
use starrocks_shadow_proxy.MySql.Forward.{read_and_forward_response}
use starrocks_shadow_proxy.MySql.Forward.Agree.{Agrees, forward-Agrees-full}
use starrocks_shadow_proxy.MySql.Forward.Conserve.{MovedBytes}
use starrocks_shadow_proxy.MySql.Reader.{Reader, ensure_bytes, read_packet}
use starrocks_shadow_proxy.MySql.Reader.Window.{Valid, stream, Filled, ensure_bytes-Filled}
use starrocks_shadow_proxy.MySql.Response.{read_full_response, read_multi_packet}
use starrocks_shadow_proxy.MySql.Response.Fuel.{EndsBelow}
use starrocks_shadow_proxy.MySql.Response.Related.{Counted}
use starrocks_shadow_proxy.MySql.Session.{
  SameStream, Sink, read_packet-append, read_full_response-SameStream, read_full_response_ends,
  read_and_forward_response-MovedBytes,
}
use starrocks_shadow_proxy.Net.{Conn, segment, failure}
use starrocks_shadow_proxy.Prelude.{
  ◌%◌, ◌<◌, ◌≡◌, refl, false, Bytes, List, [], ◌∷◌, ◌++◌, length, replicate, All, some, arith,
}
use starrocks_shadow_proxy.Prelude.Outcome.{timeout, ok, M}
use starrocks_shadow_proxy.Prelude.Rules.{Post, Sim}
use starrocks_shadow_proxy.Prelude.Text.{codes, is_empty}

abbrev ok_packet : Bytes
ok_packet = 1 ∷ 0 ∷ 0 ∷ 1 ∷ 0 ∷ []

abbrev ping : Bytes
ping = 1 ∷ 0 ∷ 0 ∷ 0 ∷ 0x0e ∷ []

abbrev reader_of : Conn → Reader
reader_of c = record { conn = c; buf = 0 ∷ 0 ∷ 0 ∷ 0 ∷ []; offset = 0; limit = 0 }

reader_of-Valid : (c : Conn) → Valid (reader_of c)
reader_of-Valid c = record { starts = omega arith; fits = omega arith }

-- The packet in one segment, and cut in two.
abbrev whole : Reader
whole = reader_of (segment ok_packet ∷ [])

abbrev cut : Reader
cut = reader_of (segment (1 ∷ 0 ∷ []) ∷ segment (0 ∷ 1 ∷ 0 ∷ []) ∷ [])

abbrev late : Reader
late = reader_of (segment ping ∷ failure timeout ∷ [])

ensure_bytes-Filled_example : Filled 5 cut (ensure_bytes 5 cut)
ensure_bytes-Filled_example = ensure_bytes-Filled 5 cut (reader_of-Valid _)

read_packet-append_example :
    (r' : Reader) × (read_packet cut ≡ ok ok_packet r') × Valid r' × (stream r' ≡ [])
read_packet-append_example =
    read_packet-append cut ok_packet [] (reader_of-Valid _) (omega arith) refl

read_multi_packet-ReadsCommand_example : ReadsCommand [] late (read_multi_packet read_packet 6 late)
read_multi_packet-ReadsCommand_example =
    read_multi_packet-ReadsCommand 6 late (reader_of-Valid _) (omega arith)

read_full_response-SameStream_example :
    Sim
      (Counted SameStream)
      (Counted (λ _ _. Unit {0}))
      (read_full_response read_packet 6 whole)
      (read_full_response read_packet 6 cut)
read_full_response-SameStream_example =
    read_full_response-SameStream 6 whole cut (reader_of-Valid _, reader_of-Valid _, refl, refl)

read_full_response_ends_example :
    EndsBelow Valid (λ q. length (stream q)) 6 (read_full_response read_packet 6 cut)
read_full_response_ends_example = read_full_response_ends 6 cut (reader_of-Valid _) (omega arith)

-- A client that collects what it is sent.
abbrev collect : Bytes → M Bytes (Unit {0})
collect bs d = ok tt (d ++ bs)

abbrev collector : Sink
collector = record { D = Bytes; write = collect; written = λ d. d; appends = λ bs d. refl }

read_and_forward_response-MovedBytes_example :
    Post
      (λ _ t. MovedBytes stream (λ d. d) Valid cut [] t)
      (λ _ _. Unit {0})
      (read_and_forward_response read_packet collect 6 cut [])
read_and_forward_response-MovedBytes_example =
    read_and_forward_response-MovedBytes collector 6 cut [] (reader_of-Valid _)

forward-Agrees-full_example :
    Agrees read_packet collect
      (λ bs d. (d ++ bs, refl))
      (read_and_forward_response read_packet collect 6 cut [])
      (read_full_response read_packet 6 cut)
forward-Agrees-full_example =
    forward-Agrees-full read_packet collect (λ bs d. (d ++ bs, refl)) 6 cut []

-- A login with CLIENT_SSL and CLIENT_DEPRECATE_EOF among its flags.
remove_unsupported_capabilities_lem_example :
    remove_unsupported_capabilities (5 ∷ 0 ∷ 0 ∷ 1 ∷ 0x85 ∷ 0xae ∷ 0xff ∷ 0x01 ∷ 9 ∷ [])
    ≡ 5 ∷ 0 ∷ 0 ∷ 1 ∷ 0x85 ∷ 0xa6 ∷ 0xff ∷ 0x00 ∷ 9 ∷ []
remove_unsupported_capabilities_lem_example =
    remove_unsupported_capabilities_lem 5 0 0 1 0x85 0xae 0xff 0x01 (9 ∷ []) (omega arith)
      (omega arith) (omega arith) (omega arith)

-- A stand-in for SHA1: twenty times the number of bytes.
abbrev count_hash : Bytes → Bytes
count_hash bs = replicate 20 (length bs % 256)

count_hash_fits : (bs : Bytes) → (length (count_hash bs) ≡ 20) × All (λ a. a < 256) (count_hash bs)
unfolding replicate
count_hash_fits bs =
    let k : length bs % 256 < 256 = omega arith in
    (
      refl,
      (
        k,
        (
          k,
          (
            k,
            (k, (k, (k, (k, (k, (k, (k, (k, (k, (k, (k, (k, (k, (k, (k, (k, (k, tt))))))))))))))))),
          ),
        ),
      ),
    )

-- The proxy's user at the shadow.
abbrev shadow_end : ShadowEnd (List Bytes)
shadow_end = record {
  write = λ bs p. ok tt (p ++ (bs ∷ []));
  tls = some (λ s. ok tt s);
  sha1 = count_hash;
  username = codes "root";
  password = codes "pw";
}

login_packet-IsPacket_example :
    let packet = login_packet shadow_end (7 ∷ []) in
    let stored = count_hash (count_hash (codes "pw")) in
    IsPacket packet
    × (byte packet 3 ≡ 2)
    × ((read_login packet).0 ≡ codes "root")
    × (is_empty (codes "pw") ≡ false
        → count_hash (xor_bytes (read_login packet).1 (count_hash ((7 ∷ []) ++ stored))) ≡ stored)
login_packet-IsPacket_example =
    login_packet-IsPacket shadow_end count_hash_fits (7 ∷ [])
      (omega arith, (omega arith, (omega arith, (omega arith, tt)))) (omega arith)

-- A greeting with the eight bytes of a scramble, and an OK packet.
abbrev shadow_link : ShadowLink (List Bytes)
shadow_link = record {
  conn_in =
      segment (15 ∷ 0 ∷ 0 ∷ 0 ∷ 10 ∷ 56 ∷ 0 ∷ 9 ∷ 0 ∷ 0 ∷ 0 ∷ 1 ∷ 2 ∷ 3 ∷ 4 ∷ 5 ∷ 6 ∷ 7 ∷ 8 ∷ [])
      ∷ segment (1 ∷ 0 ∷ 0 ∷ 3 ∷ 0 ∷ [])
      ∷ [];
  conn = [];
  tls_failures = 0;
  auth_failures = 0;
}

authenticate_with_shadow-Accepted_example :
    Post
      (λ _ q.
        (greeting : Bytes) × (behind : Conn) × (arriving shadow_link.conn_in
          ≡ greeting ++ arriving behind)
        × IsPacket greeting
        × Accepted shadow_end (λ p. p) greeting behind shadow_link q)
      (λ e q. Failed shadow_end (λ p. p) shadow_link e q)
      (authenticate_with_shadow shadow_end shadow_link)
authenticate_with_shadow-Accepted_example =
    authenticate_with_shadow-Accepted shadow_end (λ p. p) (λ bs p. refl) (λ s. refl) shadow_link
