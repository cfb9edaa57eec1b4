-- ===== src/Router/Deletion.antt =====
-- `deleteRouter` of obligatory_assignment/src/router.c. The references in the other routers go
-- first, then the router itself, whose place the last router takes.
pub mod References
pub mod Array
pub mod Compact
