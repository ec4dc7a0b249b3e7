-- ===== src/MySql/Auth/Password.antt =====
-- The password's hash convinces a server that stores SHA1(SHA1(password)).
use starrocks_shadow_proxy.MySql.Auth.{xor, xor_bytes, mysql_native_password}
use starrocks_shadow_proxy.Prelude.{
  ℕ, zero, suc, ◌+◌, ◌*◌, ◌/◌, ◌%◌, ◌^◌, ◌<◌, ◌≡◌, refl, ap, false, Bytes, [], ◌∷◌, ◌++◌, length,
  All, if◌then◌else◌, arith,
}
use starrocks_shadow_proxy.Prelude.Text.{is_empty}

xor_self : (k a b : ℕ) → a < 2 ^ k → xor k (xor k a b) b ≡ a
unfolding xor
xor_self zero a b h = omega arith
xor_self (suc k) a b h =
    let c = (a % 2 + b % 2) % 2 in
    let x = xor k (a / 2) (b / 2) in
    let low : (c + 2 * x) % 2 ≡ c = omega arith in
    let high : (c + 2 * x) / 2 ≡ x = omega arith in
    rw (low, high, xor_self k (a / 2) (b / 2) (omega arith)) (omega arith)

xor_bytes_self :
    (xs bs : Bytes)
    → length xs ≡ length bs
    → All (λ a. a < 256) xs
    → xor_bytes (xor_bytes xs bs) bs ≡ xs
unfolding xor_bytes
xor_bytes_self [] bs e h = refl
xor_bytes_self (a ∷ xs) [] e h = ground arith
xor_bytes_self (a ∷ xs) (b ∷ bs) e (h, hs) =
    rw (xor_self 8 a b h, xor_bytes_self xs bs (ground arith) hs) refl

-- What the MySQL server does with the client's answer: it stores SHA1(SHA1(password)) and accepts
-- an answer that, undone with the scramble, hashes to it. Given only that SHA1 gives twenty
-- bytes, the answer computed for a password that is not empty is accepted, whatever the scramble.
pub mysql_native_password-accepted :
    (sha1 : Bytes → Bytes)
    → ((bs : Bytes) → (length (sha1 bs) ≡ 20) × All (λ a. a < 256) (sha1 bs))
    → (password scramble : Bytes) → is_empty password ≡ false
    → let stored = sha1 (sha1 password) in
      sha1 (xor_bytes (mysql_native_password sha1 password scramble) (sha1 (scramble ++ stored)))
      ≡ stored
unfolding mysql_native_password
mysql_native_password-accepted sha1 h password scramble e =
    rw (e, if◌then◌else◌)
      (ap sha1 (
        xor_bytes_self (sha1 password) (sha1 (scramble ++ sha1 (sha1 password)))
          (ground (arith, h password, h (scramble ++ sha1 (sha1 password)))) (h password).1))
