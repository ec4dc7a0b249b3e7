-- ===== src/Lib.antt =====
-- starrocks-shadow-proxy, modelled and verified: a proxy that serves each client from a primary
-- database and mirrors what the client sends to a shadow database.
--
-- The parts and where they are modelled (paths from the root of the repository):
--
--   Net       what the program uses of net.Conn and io.ReadFull. A connection's incoming side is
--             the list of what the network delivers: segments of bytes and failed reads.
--   MySql     the MySQL side.
--     Wire, Reader      mysql_protocol.go: readMySQLPacket, and MySQLPacketReader with its buffer
--                       (ensureBytes, ReadPacket). `stream` is all that a reader can still read.
--     Response, LengthEncoded   ReadMultiPacket, ReadSimpleResponse, ReadFullResponse
--     Forward           ReadAndForwardSimpleResponse, ReadAndForwardResponse; the writer is a
--                       parameter
--     Session, Commands what the readers do over a MySQLPacketReader
--     Command           the command byte: names, classes, query preview
--     Log               query_logger.go: requests, log entries, Log and flushLoop
--     Worker            shadow_worker.go: ShadowWorker. Send and Close are called by the goroutine
--                       of the connection, one after the other, so each is one step; the worker's
--                       goroutine takes its steps between them in any order.
--     Mirror            proxy.go: proxyWithMirrorWorker, which reads commands with the client's
--                       reader, writes them to the primary, calls Send, and forwards the response
--     Auth              mysql_auth.go
--     Handshake         proxy.go: forwardMySQLHandshake and handleMySQLSSLUpgrade
--     Shadow            proxy.go: authenticateWithShadow
--     Connection        proxy.go: handleConnection, which puts these together
--   Filter    query_filter.go and pg_shadow_filter.go.
--     Statements, Comments, Operation   splitStatements, the comment strippers, and
--                       ExtractPrimarySQLOperation
--     Decision          QueryFilter, NewQueryFilter, Allow, AllowDeterministic
--   Pg        the PostgreSQL side.
--     Protocol          pg_protocol.go: framing, and names and texts in messages
--     Command           the names of its messages
--     Sticky            pg_proxy.go: shouldMirrorPgFrame and the shadow's part of runQueryLoop
--     Session           pg_proxy.go: runQueryLoop and forwardResponseUntilReady
--     Startup           pg_proxy.go: forwardStartup and forwardAuthPhase; pg_tls.go: the upgrades
--     Connection        pg_proxy.go: handleConnection and startShadowWorker, which put these
--                       together; parseStartupParams of pg_shadow_worker.go
--     Worker            pg_shadow_worker.go: PgShadowWorker, with a step relation for Send, Close
--                       and the goroutine, as for the MySQL worker; processFrame, the dead latch
--   Config    config.go: loadConfig as a function of the environment
--   Tests     the theorems at concrete inputs.
--
-- Go's strings and slices are lists of bytes, its sets lists without repeats, its errors values of
-- an outcome type. Numbers are natural numbers; byte counts are not cut to 64 bits, which no
-- connection's traffic reaches. Loops over a connection run on fuel: one more than the bytes still
-- to come, which is enough since each packet or message takes at least four of them; loops over a
-- text run on one more than its length, since each round shortens it. Letter case and spaces are
-- ASCII.
--
-- Parameters, since they are not the repository's code or have no fixed answer: the writing side of
-- connections, the dials, uuid, md5, SHA1, regular expressions, and floats with their parser and
-- the random number of a sampling decision. TLS is a parameter too: a handshake turns a connection
-- into what arrives and is written through it. Whether the deferred Close of a shadow's worker and
-- the copying of bytes without a model come to an end is a parameter. Not modelled: the accept loops, proxyWithoutShadow
-- and copyFallback (two io.Copy goroutines), Initialize of the PostgreSQL shadow worker (a library
-- dials and logs in), Prometheus (but for the counters of connections and of the shadow worker),
-- the object store but for whether it takes a batch, clocks and deadlines: a deadline that passes
-- is a failed read. A Read that gives bytes together with an error, as a TLS connection's may, is
-- outside the model too.
pub mod Config
pub mod Prelude
pub mod Net
pub mod MySql
pub mod Filter
pub mod Pg
pub mod Tests
