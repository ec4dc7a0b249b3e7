-- ===== src/MySql.antt =====
-- The MySQL half of the proxy.
pub mod Wire
pub mod Reader
pub mod LengthEncoded
pub mod Response
pub mod Forward
pub mod Session
pub mod Shadow
pub mod Connection
pub mod Commands
pub mod Command
pub mod Log
pub mod Worker
pub mod Mirror
pub mod Auth
pub mod Handshake
