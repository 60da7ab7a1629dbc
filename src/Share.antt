-- ===== src/Share.antt =====
-- Revenue shares, contracts/revenue-share/src/lib.rs: an attested revenue is divided among stakeholders
-- by basis points. The attestation contract's answers, SHA-256 and the token are parameters.
mod Types
mod Calls
mod Floor
mod Split
mod Record
mod Payments
mod Configured
mod Histories
mod Books
mod Examples
unfoldable pub use Types.*
unfoldable pub use Calls.*
