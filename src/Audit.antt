-- ===== src/Audit.antt =====
-- The audit log, contracts/audit-log/src/lib.rs: entries in a hash chain, with an index by actor and by
-- contract. The hash of an entry is a parameter.
mod Calls
mod Chain
mod Log
mod Examples
unfoldable pub use Calls.*
