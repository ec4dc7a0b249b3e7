-- ===== src/MySql/Connection/Counted.antt =====
-- handleConnection: what is counted, and whose commands reach the shadow.
use starrocks_shadow_proxy.MySql.Connection.{
  TcpCounters, TcpEnds, TcpEnd, undialled, login_failed, unmirrored, crashed, mirrored,
}
use starrocks_shadow_proxy.MySql.Mirror.Loop.{Delivered, Sent}
use starrocks_shadow_proxy.MySql.Shadow.{ShadowLink, authenticate_with_shadow}
use starrocks_shadow_proxy.Prelude.{suc, ◌≡◌, Bytes, List, Option, some}
use starrocks_shadow_proxy.Prelude.Outcome.{panicked, Error, Outcome, ok, err}

module _ {S : Type 0} where
  abbrev Panicked : Error → ShadowLink S → ShadowLink S → Type 0
  Panicked e q s = (e ≡ panicked) × (q ≡ s)

module _ {P D S : Type 0} (ends : TcpEnds P D S) (sent : P → List Bytes)
    (delivers : (bs : Bytes) (c : P) → Delivered ends.peers sent bs c (ends.peers.write bs c)) where
  -- A login at the shadow that succeeded.
  abbrev pub Accepts : Option (ShadowLink S) → ShadowLink S → Type 0
  Accepts dialled s =
      (l : ShadowLink S) × (dialled ≡ some l) × (authenticate_with_shadow ends.shadow l ≡ ok tt s)

  -- A login at the shadow that panicked.
  abbrev pub Panics : Option (ShadowLink S) → ShadowLink S → Type 0
  Panics dialled s =
      (l : ShadowLink S) × (dialled ≡ some l)
      × (authenticate_with_shadow ends.shadow l ≡ err panicked s)

  -- How the counters moved between the start of a connection and its end, by how it ended; a
  -- mirrored one has a shadow that accepted the login, and mirrors what it sends to the primary.
  abbrev pub Moves : Option (ShadowLink S) → TcpCounters → TcpEnd P D S → TcpCounters → Type 0
  Moves dialled m undialled m' =
      (m'.primary_failures ≡ suc m.primary_failures)
      × (m'.connections_with_shadow ≡ m.connections_with_shadow)
      × (m'.connections_without_shadow ≡ m.connections_without_shadow)
  Moves dialled m (login_failed e l) m' =
      (m'.primary_failures ≡ m.primary_failures)
      × (m'.connections_with_shadow ≡ m.connections_with_shadow)
      × (m'.connections_without_shadow ≡ m.connections_without_shadow)
  Moves dialled m (unmirrored l) m' =
      (m'.shadow_failures ≡ suc m.shadow_failures)
      × (m'.connections_with_shadow ≡ m.connections_with_shadow)
      × (m'.connections_without_shadow ≡ suc m.connections_without_shadow)
  Moves dialled m (crashed s) m' =
      (m'.shadow_failures ≡ m.shadow_failures)
      × (m'.connections_with_shadow ≡ m.connections_with_shadow)
      × (m'.connections_without_shadow ≡ m.connections_without_shadow)
      × Panics dialled s
  Moves dialled m (mirrored s p (e, q)) m' =
      (m'.connections_with_shadow ≡ suc m.connections_with_shadow)
      × (m'.connections_without_shadow ≡ m.connections_without_shadow)
      × Accepts dialled s
      × ((xs : List Bytes) × Sent ends.peers sent delivers p xs q)

  abbrev Served : Option (ShadowLink S) → TcpCounters → TcpEnd P D S × TcpCounters → Type 0
  Served dialled m (end, m') =
      (m'.active_connections ≡ m.active_connections)
      × (m'.total_connections ≡ m.total_connections)
      × Moves dialled m end m'
