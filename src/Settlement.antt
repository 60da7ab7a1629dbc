-- ===== src/Settlement.antt =====
-- Revenue settlements, contracts/revenue-settlement/src/lib.rs: agreements between lenders and
-- businesses, and repayments for periods. The token's transfer is a parameter.
mod Types
mod Calls
mod Amounts
mod Payment
mod Histories
mod Settled
mod Duplicate
mod Examples
unfoldable pub use Types.*
unfoldable pub use Calls.*
