-- ===== src/Tests.antt =====
-- The theorems at concrete inputs: packets, queries and sessions of a few bytes.
mod Packets
mod Logins
mod Mirroring
mod Filtering
mod Sessions
mod Queries
mod Settings
