-- ===== src/Multisig.antt =====
-- Multisig governance of the attestation contract, contracts/attestation/src/multisig.rs: owners,
-- proposals with their vote-weight snapshot, approvals, execution marks and cleanup.
mod Types
mod Calls
mod Tally
mod Histories
mod Origins
mod Quorum
mod Quorate
mod Frozen
mod Examples
unfoldable pub use Types.*
unfoldable pub use Calls.*
