-- ===== src/Filter.antt =====
-- query_filter.go
pub mod Statements
pub mod Comments
pub mod Operation
pub mod Decision
