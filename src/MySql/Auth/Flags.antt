-- ===== src/MySql/Auth/Flags.antt =====
-- What the proxy takes out of the client's login packet.
use starrocks_shadow_proxy.MySql.Auth.{
  client_ssl, client_deprecate_eof_high, clear_flag, remove_unsupported_capabilities,
}
use starrocks_shadow_proxy.Prelude.{
  ℕ, ◌+◌, ◌-◌, ◌*◌, ◌/◌, ◌%◌, ◌<◌, ◌≡◌, refl, false, Bytes, ◌∷◌, length, ltb, if◌then◌else◌,
  write_at, arith,
}

-- The two bytes of a flag word behind `clear_flag`.
clear_ssl_bytes :
    (e f : ℕ)
    → e < 256
    → f < 256
    → (clear_flag client_ssl (e + 256 * f) % 256 ≡ e)
      × (clear_flag client_ssl (e + 256 * f) / 256 % 256 ≡ f - 8 * (f / 8 % 2))
clear_ssl_bytes e f ke kf =
    let bit : (e + 256 * f) / 2048 ≡ f / 8 = omega arith in rw (bit) (ground arith)

clear_eof_bytes :
    (g h : ℕ)
    → g < 256
    → h < 256
    → (clear_flag client_deprecate_eof_high (g + 256 * h) % 256 ≡ g)
      × (clear_flag client_deprecate_eof_high (g + 256 * h) / 256 % 256 ≡ h - h % 2)
clear_eof_bytes g h kg kh =
    let bit : (g + 256 * h) / 256 ≡ h = omega arith in rw (bit) (ground arith)

-- The packet with its capability bytes replaced.
abbrev login : (a b c d e f g h : ℕ) → Bytes → Bytes
login a b c d e f g h rest = a ∷ b ∷ c ∷ d ∷ e ∷ f ∷ g ∷ h ∷ rest

-- In a login packet of at least eight bytes the proxy changes two bits: CLIENT_SSL, in the second
-- capability byte, and CLIENT_DEPRECATE_EOF, in the fourth. They are zero in the result, and every
-- other bit and byte, and so the length, stays as the client sent it.
pub remove_unsupported_capabilities_lem :
    (a b c d e f g h : ℕ) (rest : Bytes)
    → e < 256
    → f < 256
    → g < 256
    → h < 256
    → remove_unsupported_capabilities (login a b c d e f g h rest)
      ≡ login a b c d e (f - 8 * (f / 8 % 2)) g (h - h % 2) rest
unfolding remove_unsupported_capabilities write_at
remove_unsupported_capabilities_lem a b c d e f g h rest ke kf kg kh =
    let long : ltb (length (login a b c d e f g h rest)) 8 ≡ false = ground arith in
    let (l, m) = clear_ssl_bytes e f ke kf in
    let (n, o) = clear_eof_bytes g h kg kh in rw (long, if◌then◌else◌, l, m, n, o) refl
