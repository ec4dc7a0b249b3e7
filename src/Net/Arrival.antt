-- ===== src/Net/Arrival.antt =====
-- A connection seen as the bytes that arrive before its first failure, and that failure.
use starrocks_shadow_proxy.Net.{segment, failure, Conn, read, size}
use starrocks_shadow_proxy.Prelude.{
  ℕ, ◌≤◌, ◌<◌, ◌≡◌, refl, [], ◌∷◌, ◌++◌, append_assoc, Bytes, length, leb, if◌then◌else◌, arith,
  length-take, length-drop, take-append-drop, Bool-cases, inl, inr,
}
use starrocks_shadow_proxy.Prelude.Outcome.{NetError, eof, net, Outcome, ok, err}

abbrev pub arriving : Conn → Bytes
arriving [] = []
arriving (failure e ∷ c) = []
arriving (segment s ∷ c) = s ++ arriving c

abbrev pub stops : Conn → NetError
stops [] = eof
stops (failure e ∷ c) = e
stops (segment s ∷ c) = stops c

-- A read takes bytes off the front of what arrives; it fails only where nothing more does.
abbrev pub Reads : ℕ → Conn → Outcome Conn Bytes → Type 0
Reads room c (ok bs c') =
    (arriving c ≡ bs ++ arriving c')
    × (stops c' ≡ stops c)
    × (length bs ≤ room)
    × (0 < room → size c' < size c)
Reads room c (err e c') = (arriving c ≡ []) × (e ≡ net (stops c))

pub read-Reads : (room : ℕ) (c : Conn) → Reads room c (read room c)
unfolding read size
read-Reads room [] = (refl, refl)
read-Reads room (failure e ∷ c) = (refl, refl)
read-Reads room (segment s ∷ c) = elim (Bool-cases (leb (length s) room)) [
  | inl fits ↦ rw (fits, if◌then◌else◌) (refl, refl, ground arith, λ p. omega arith)
  | inr long ↦
      rw (long, if◌then◌else◌)
        (
          rw (← append_assoc) (rw take-append-drop),
          refl,
          omega (arith, length-take room s),
          λ p. ground (arith, length-drop room s),
        )
]
