-- ===== src/Dao.antt =====
-- The protocol DAO, contracts/protocol-dao/src/lib.rs: the admin and its two-step transfer, the voting
-- configuration, proposals, votes and execution. Balances of the governance token are a parameter of
-- each call, since the token is another contract whose balances change between calls.
mod Types
mod Config
mod Calls
mod Status
mod Effects
mod Creates
mod Settle
mod Ballots
mod Steps
mod Quorum
mod Link
mod Examples
unfoldable pub use Types.*
unfoldable pub use Config.*
unfoldable pub use Calls.*
