-- ===== src/MySql/Mirror.antt =====
-- proxy.go: proxyWithMirrorWorker, the loop that serves a client from the primary and mirrors its
-- commands to the shadow worker. Parameters: `write` and `reply` are Write on the primary's and on
-- the client's connection, `filter` is QueryFilter.Allow on the text of the n-th request, with
-- the random number that it draws then, if a filter is configured, `uuid` the n-th request's id, `md5` the hash.
pub mod Loop
use starrocks_shadow_proxy.Filter.Decision.{Reason, Verdict, allowed}
use starrocks_shadow_proxy.MySql.Command.{
  get_mysql_command, is_countable_command, is_no_response_command, is_simple_response_command,
  com_quit,
}
use starrocks_shadow_proxy.MySql.Forward.{
  Relay, read_and_forward_simple_response, read_and_forward_response,
}
use starrocks_shadow_proxy.MySql.Log.{
  QueryRequest, Logs, primary, new_query_request, log_execution, log_filtered_shadow,
}
use starrocks_shadow_proxy.MySql.Reader.{Reader, read_packet}
use starrocks_shadow_proxy.MySql.Reader.Window.{stream}
use starrocks_shadow_proxy.MySql.Response.{read_multi_packet}
use starrocks_shadow_proxy.Prelude.{
  ℕ, zero, suc, ◌+◌, Bool, true, false, not, Bytes, List, [], ◌∷◌, ◌++◌, length, ◌==◌,
  if◌then◌else◌, Option, none, some,
}
use starrocks_shadow_proxy.Prelude.Outcome.{Error, out_of_fuel, Outcome, ok, err, M}

module _ (P D : Type 0) where
  -- The proxy's side of a connection: `mirrored` is what Send is called with, in order, `log` what
  -- the query logger is given, `served` the number of requests so far.
  pub record Proxy : Type 0 where
    pub client_reader : Reader
    pub primary_reader : Reader
    pub primary_conn : P
    pub client : D
    pub mirrored : List QueryRequest
    pub log : Logs
    pub served : ℕ

  pub record Peers : Type 0 where
    pub write : Bytes → P → ℕ × (Option Error × P)
    pub reply : Bytes → M D (Unit {0})
    pub filter : Option (ℕ → Bytes → Verdict)
    pub uuid : ℕ → Bytes
    pub md5 : Bytes → Bytes
    pub client_addr : Bytes

-- How a round of the loop ends.
pub data Next : Type 0 where
  goes_on : Next
  returns : Option Error → Next

module _ {P D : Type 0} (peers : Peers P D) where
  -- `queryFilter.Allow` only looks at the text of a query.
  unfoldable pub filter_verdict : ℕ → QueryRequest → Verdict
  filter_verdict n req = elim peers.filter [ none ↦ allowed | some f ↦ f n req.query_text ]

  -- What is done for the shadow behind the write to the primary.
  unfoldable pub mirror_request : QueryRequest → Proxy P D → Proxy P D
  mirror_request req p =
      let verdict = filter_verdict p.served req in
      if (get_mysql_command req.packet).0 == com_quit
      then p
      else if verdict.0
      then record p { mirrored = p.mirrored ++ (req ∷ []) }
      else record p { log = log_filtered_shadow req verdict.1 p.log }

  abbrev pub logged_primary : QueryRequest → ℕ → ℕ → Option Error → Proxy P D → Proxy P D
  logged_primary req sent recv e p = record p { log = log_execution primary req sent recv e p.log }

  unfoldable pub after_simple :
      Proxy P D → Outcome (Relay Reader D) ℕ → ℕ × (Option Error × Proxy P D)
  after_simple p (ok n t) = (n, (none, record p { primary_reader = t.source; client = t.dest }))
  after_simple p (err e t) = (0, (some e, record p { primary_reader = t.source; client = t.dest }))

  unfoldable pub after_whole :
      Proxy P D → Outcome (Relay Reader D) (Unit {0}) → ℕ × (Option Error × Proxy P D)
  after_whole p (ok _ t) =
      (t.total, (none, record p { primary_reader = t.source; client = t.dest }))
  after_whole p (err e t) =
      (t.total, (some e, record p { primary_reader = t.source; client = t.dest }))

  -- The response from the primary to the client.
  unfoldable pub forward_response : ℕ → Proxy P D → ℕ × (Option Error × Proxy P D)
  forward_response cmd p =
      let whole =
        read_and_forward_response read_packet peers.reply (suc (length (stream p.primary_reader)))
          p.primary_reader p.client in
      let simple =
        read_and_forward_simple_response read_packet peers.reply
          (record { source = p.primary_reader; dest = p.client; total = 0 }) in
      if is_simple_response_command cmd then after_simple p simple else after_whole p whole

  unfoldable pub after_forward :
      QueryRequest → ℕ → ℕ × (Option Error × Proxy P D) → Next × Proxy P D
  after_forward req sent (recv, (none, p)) = (goes_on, logged_primary req sent recv none p)
  after_forward req sent (recv, (some e, p)) =
      (returns (some e), logged_primary req sent recv (some e) p)

  unfoldable pub after_primary :
      QueryRequest → ℕ × (Option Error × P) → Proxy P D → Next × Proxy P D
  after_primary req (sent, (some e, c)) p =
      (returns (some e), logged_primary req sent 0 (some e) (record p { primary_conn = c }))
  after_primary req (sent, (none, c)) p =
      let cmd = (get_mysql_command req.packet).0 in
      let p' = mirror_request req (record p { primary_conn = c }) in
      if is_no_response_command cmd
      then (if cmd == com_quit then returns none else goes_on, logged_primary req sent 0 none p')
      else after_forward req sent (forward_response cmd p')

  -- A round with the packet that the client sent.
  unfoldable pub serve : Bytes → Proxy P D → Next × Proxy P D
  serve packet p =
      let req = new_query_request peers.md5 (peers.uuid p.served) packet peers.client_addr in
      after_primary req (peers.write packet p.primary_conn) (record p { served = suc p.served })

  unfoldable pub after_read : Proxy P D → Outcome Reader Bytes → Next × Proxy P D
  after_read p (err e r) = (returns (some e), record p { client_reader = r })
  after_read p (ok packet r) = serve packet (record p { client_reader = r })

  unfoldable pub round : Proxy P D → Next × Proxy P D
  round p =
      after_read p
        (read_multi_packet read_packet (suc (length (stream p.client_reader))) p.client_reader)

  unfoldable pub continue_loop :
      Next → Proxy P D → Option Error × Proxy P D → Option Error × Proxy P D
  continue_loop (returns e) p rest = (e, p)
  continue_loop goes_on p rest = rest

  -- The loop; `out_of_fuel` is the model's.
  unfoldable pub proxy_loop : ℕ → Proxy P D → Option Error × Proxy P D
  proxy_loop zero p = (some out_of_fuel, p)
  proxy_loop (suc fuel) p = let (next, p') = round p in continue_loop next p' (proxy_loop fuel p')
