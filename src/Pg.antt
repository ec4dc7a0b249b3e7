-- ===== src/Pg.antt =====
-- The PostgreSQL half of the proxy.
pub mod Protocol
pub mod Command
pub mod Startup
pub mod Session
pub mod Sticky
pub mod Connection
pub mod Worker
