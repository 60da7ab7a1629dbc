-- ===== src/Stream.antt =====
-- Revenue streams, contracts/revenue-stream/src/lib.rs: a funded amount that vests at once or linearly and
-- is released against an attestation. The attestation contract's answers and the token's transfer
-- are parameters of the calls that use them.
mod Types
mod Schedule
mod Calls
mod Vesting
mod Clock
mod Release
mod Kept
mod Histories
mod Within
mod Examples
unfoldable pub use Types.*
unfoldable pub use Schedule.*
unfoldable pub use Calls.*
