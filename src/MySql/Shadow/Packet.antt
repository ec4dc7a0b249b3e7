-- ===== src/MySql/Shadow/Packet.antt =====
-- The login packet that authenticateWithShadow builds, as a server reads it.
use starrocks_shadow_proxy.MySql.Auth.{until_null, xor_bytes, mysql_native_password}
use starrocks_shadow_proxy.MySql.Auth.Password.{mysql_native_password-accepted}
use starrocks_shadow_proxy.MySql.Reader.Packets.{IsPacket}
use starrocks_shadow_proxy.MySql.Shadow.{
  ShadowEnd, packet_of, login_head, login_body, auth_answer, login_packet, seq_of, is_some,
}
use starrocks_shadow_proxy.MySql.Wire.{byte}
use starrocks_shadow_proxy.Prelude.{
  ℕ, suc, ◌+◌, ◌^◌, ◌≤◌, ◌<◌, ◌≡◌, refl, ap, ◌∙◌, Bool, false, Bytes, [], ◌∷◌, ◌++◌, replicate,
  take, drop, length, length-append, take-append_self, take_all, All, ◌==◌, if◌then◌else◌,
  Bool-cases, inl, inr, arith,
}
use starrocks_shadow_proxy.Prelude.Text.{is_empty}

-- What a server takes from a login packet: the user's name, which ends with a null byte behind the
-- 36 bytes of header, capabilities, size, charset and reserve; and the answer behind its length.
unfoldable pub read_login : Bytes → Bytes × Bytes
read_login packet =
    let rest = drop 36 packet in
    let answer = drop (suc (until_null rest)) rest in
    (take (until_null rest) rest, take (byte answer 0) (drop 1 answer))

until_null-text : (t rest : Bytes) → All (λ c. 0 < c) t → until_null (t ++ 0 ∷ rest) ≡ length t
unfolding until_null
until_null-text [] rest h = refl
until_null-text (c ∷ t) rest (p, h) =
    let off : (c == 0) ≡ false = ground arith in
    rw (off, if◌then◌else◌, until_null-text t rest h) refl

length-xor_bytes : (xs ys : Bytes) → length (xor_bytes xs ys) ≤ length xs
unfolding xor_bytes
length-xor_bytes [] ys = omega arith
length-xor_bytes (x ∷ xs) [] = omega arith
length-xor_bytes (x ∷ xs) (y ∷ ys) = omega (arith, length-xor_bytes xs ys)

drop_one_more : (t : Bytes) (c : ℕ) (rest : Bytes) → drop (suc (length t)) (t ++ c ∷ rest) ≡ rest
drop_one_more [] c rest = refl
drop_one_more (x ∷ t) c rest = drop_one_more t c rest

-- The answer as `auth_answer` frames it.
framed : (n : ℕ) (a : Bytes) → n ≡ length a → take n a ≡ a
framed n a e = take_all n a (omega (arith, e))

module _ (sha1 : Bytes → Bytes)
    (hashes : (bs : Bytes) → (length (sha1 bs) ≡ 20) × All (λ a. a < 256) (sha1 bs)) where
  length-mysql_native_password :
      (password scramble : Bytes) → length (mysql_native_password sha1 password scramble) ≤ 20
  unfolding mysql_native_password
  length-mysql_native_password password scramble = elim (Bool-cases (is_empty password)) [
    | inl on ↦ rw (on, if◌then◌else◌) (omega arith)
    | inr off ↦
        rw (off, if◌then◌else◌)
          (omega (
            arith,
            (hashes password).0,
            length-xor_bytes (sha1 password) (sha1 (scramble ++ sha1 (sha1 password))),
          ))
  ]

  read_auth_answer :
      (password scramble : Bytes)
      → take
          (byte (auth_answer sha1 password scramble) 0)
          (drop 1 (auth_answer sha1 password scramble))
        ≡ mysql_native_password sha1 password scramble
  unfolding auth_answer mysql_native_password
  read_auth_answer password scramble = elim (Bool-cases (is_empty password)) [
    | inl on ↦ rw (on, if◌then◌else◌) refl
    | inr off ↦
        let short = length-mysql_native_password password scramble in
        rw (off, if◌then◌else◌)
          (framed _ _ (
            ground (
              arith,
              (hashes password).0,
              length-xor_bytes (sha1 password) (sha1 (scramble ++ sha1 (sha1 password))),
            )))
  ]

  length-auth_answer :
      (password scramble : Bytes) → length (auth_answer sha1 password scramble) ≤ 21
  unfolding auth_answer
  length-auth_answer password scramble = elim (Bool-cases (is_empty password)) [
    | inl on ↦ rw (on, if◌then◌else◌) (omega arith)
    | inr off ↦
        rw (off, if◌then◌else◌) (omega (arith, length-mysql_native_password password scramble))
  ]

drop-login_body :
    (seq : ℕ) (tls : Bool) (username answer : Bytes)
    → drop 36 (packet_of seq (login_body tls username answer)) ≡ username ++ 0 ∷ answer
unfolding packet_of login_body login_head replicate
drop-login_body seq tls username answer = refl

length-login_body :
    (tls : Bool) (username answer : Bytes)
    → length (login_body tls username answer) ≡ 33 + (length username + length answer)
unfolding login_body login_head replicate
length-login_body tls username answer = omega (arith, length-append username (0 ∷ answer))

packet_of-IsPacket : (seq : ℕ) (body : Bytes) → length body < 2 ^ 24 → IsPacket (packet_of seq body)
unfolding packet_of
packet_of-IsPacket seq body h = omega arith

packet_of-seq : (seq : ℕ) (body : Bytes) → byte (packet_of seq body) 3 ≡ seq
unfolding packet_of
packet_of-seq seq body = refl

read_login-login_body :
    (seq : ℕ) (tls : Bool) (username answer : Bytes)
    → All (λ c. 0 < c) username
    → read_login (packet_of seq (login_body tls username answer))
      ≡ (username, take (byte answer 0) (drop 1 answer))
unfolding read_login
read_login-login_body seq tls username answer text =
    rw
      (
        drop-login_body seq tls username answer,
        until_null-text username answer text,
        take-append_self username (0 ∷ answer),
        drop_one_more username 0 answer,
      )
      refl

-- If SHA1 gives twenty bytes, of a user's name without null bytes that is shorter than 2^24 - 54:
-- the login packet is a packet with its length in front and the sequence number 1, or 2 behind the
-- request for TLS; a server reads the user's name from it; and if the password is not empty the
-- server, which stores SHA1(SHA1(password)), accepts the answer that it reads, whatever the
-- scramble.
pub login_packet-IsPacket :
    {P : Type 0} (shadow : ShadowEnd P)
    → ((bs : Bytes) → (length (shadow.sha1 bs) ≡ 20) × All (λ a. a < 256) (shadow.sha1 bs))
    → (scramble : Bytes) → All (λ c. 0 < c) shadow.username
    → length shadow.username + 54 < 2 ^ 24
    → let packet = login_packet shadow scramble in
      let stored = shadow.sha1 (shadow.sha1 shadow.password) in
      IsPacket packet
      × (byte packet 3 ≡ (if is_some shadow.tls then 2 else 1))
      × ((read_login packet).0 ≡ shadow.username)
      × (is_empty shadow.password ≡ false
          → shadow.sha1 (xor_bytes (read_login packet).1 (shadow.sha1 (scramble ++ stored)))
            ≡ stored)
unfolding login_packet seq_of
login_packet-IsPacket shadow hashes scramble text short =
    let sha1 = shadow.sha1 in
    let tls = is_some shadow.tls in
    let answer = auth_answer sha1 shadow.password scramble in
    let stored = sha1 (sha1 shadow.password) in
    let reads = read_login-login_body (seq_of tls) tls shadow.username answer text in
    (
      packet_of-IsPacket (seq_of tls) (login_body tls shadow.username answer) (
          omega (
            arith,
            length-login_body tls shadow.username answer,
            length-auth_answer sha1 hashes shadow.password scramble,
            short,
          )),
      packet_of-seq (seq_of tls) (login_body tls shadow.username answer),
      ap (λ r. r.0) reads,
      λ k.
          ap (λ r. sha1 (xor_bytes r.1 (sha1 (scramble ++ stored)))) reads
          ∙ ap (λ a. sha1 (xor_bytes a (sha1 (scramble ++ stored))))
              (read_auth_answer sha1 hashes shadow.password scramble)
          ∙ mysql_native_password-accepted sha1 hashes shadow.password scramble k,
    )
