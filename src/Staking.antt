-- ===== src/Staking.antt =====
-- Staking, unbonding and slashing of attestors, contracts/attestor-staking/src/lib.rs. The staked
-- token is another contract: `transfer token from to amount` on its ledger `L` is a parameter,
-- `none` where that contract panics.
mod Types
mod Queue
mod Loops
mod Shape
mod Entries
mod Invariant
mod Keep
mod Methods
mod Preserve
mod Conservation
mod Solvency
mod Config
mod Reachable
mod Slashing
mod Reputation
mod Stuck
mod Examples
unfoldable pub use Types.*
unfoldable pub use Queue.*
unfoldable pub use Entries.*
