-- ===== src/Lib.antt =====
-- A verification library of the Veritasor contracts (Soroban contracts in Rust).
--
-- Businesses submit attestations of their revenue; attestors put a stake behind them and can be
-- slashed. The attestation contract charges a fee for each submission, limits how often a
-- business submits, protects its administrative calls against replay, and is governed by a
-- multisig of owners. Each part is modelled from its source file:
--
-- * Replay (contracts/common/src/replay_protection.rs): the nonces by actor and channel, one
--   function per function of the file, under the same names. Replay.Streams follows a history of
--   calls.
-- * RateLimit (contracts/attestation/src/rate_limit.rs): the configuration, the stored times and
--   the high-water clock of each business; `scan` is the loop of `analyze_submission_windows`.
--   `submit` in RateLimit.Check is the pair of calls `check_rate_limit`, `record_submission` that
--   the attestation contract makes for each submission.
-- * Staking (contracts/attestor-staking/src/lib.rs): stakes, unbonding queues, slashes. The calls
--   are in Staking.Entries, their loops in Staking.Queue, the storage in Staking.Types.
--   Staking.Reachable has the step relation of the contract with the token around it.
-- * Merkle (contracts/common/src/merkle.rs): trees and proofs; a `BytesN<32>` is the list of its
--   bytes.
-- * Fees (contracts/attestation/src/dynamic_fees.rs): tier and volume discounts, the fee, and its
--   collection.
-- * Epochs (the fee buckets of the same file): the epoch counter and its rollover.
-- * Multisig (contracts/attestation/src/multisig.rs): owners, proposals, the vote-weight snapshot
--   of a proposal, approvals and execution marks. Multisig.Histories has the histories of calls,
--   Multisig.Origins the creation that each proposal goes back to.
-- * Dao (contracts/protocol-dao/src/lib.rs): the configuration in Dao.Config, the proposals and
--   votes in Dao.Calls, histories with the ballots they cast in Dao.Steps. Dao.Link joins it to
--   Fees: the attestation contract asks the DAO that it is bound to for the fee configuration.
-- * Stream (contracts/revenue-stream/src/lib.rs): the schedule time and the vested amount in
--   Stream.Schedule, the calls in Stream.Calls, histories with waiting between the calls in
--   Stream.Histories. Its admin calls use the nonces of Replay.
-- * Share (contracts/revenue-share/src/lib.rs): the division of a revenue and the calls in
--   Share.Calls, the division over the natural numbers in Share.Floor, the transfers of a
--   distribution in Share.Payments, histories with the
--   distributions they made in Share.Books. Its calls use the nonces of Replay.
-- * Settlement (contracts/revenue-settlement/src/lib.rs): agreements and repayments in
--   Settlement.Calls, the arithmetic of a repayment in Settlement.Amounts, histories in
--   Settlement.Histories.
-- * Curve (contracts/revenue-curve/src/lib.rs): the policy, the tiers and the price in Curve.Calls,
--   histories in Curve.Histories.
-- * Audit (contracts/audit-log/src/lib.rs): the log in Audit.Calls, the list of entries and the hash
--   chain in Audit.Chain, histories in Audit.Log. Its calls use the nonces of Replay.
--
-- Prelude has the shared names: Prelude.Host is the contract host (addresses, the ledger clock,
-- authorisation, calls that commit or panic, storage slots), Prelude.Int the signed integers and
-- the range of `i128`, Prelude.Lists the host's `Vec`, Prelude.Tests the Boolean tests.
--
-- A call is a function from the storage to a result: a panic, which discards every write, or a
-- value with the new storage. Arithmetic on `i128`, `u64` and `u32` that overflows panics, as the
-- release profile of the workspace asks for by `overflow-checks`, and saturating and truncating
-- operations are written out. Addresses are numbers that are only compared.
--
-- Fuel: `prove_levels` (the loop of `generate_proof`) runs on the number of leaves plus one, which
-- is more than the number of levels. The depth of `build_levels` is the source's own limit of 64
-- levels.
--
-- Parameters: the token contract is a function `transfer` on the token's ledger, and where a
-- theorem needs it to move balances that is a named hypothesis. The answer of the governance
-- contract to `get_attestation_fee_config` is a function of its address; where the contract is the
-- DAO of this library, Dao.Link fills it in. The answers of the attestation contract to the
-- streams, the shares and the curve, the balances of the governance token, SHA-256 and the hash of
-- an audit entry are functions too.
--
-- Not modelled: events, which the contracts only write; the lifetime of storage entries; contract
-- upgrades; the preview, the revocation of an approval, the cleanup and the emergency pause of
-- multisig.rs; the staking rebinding and the epoch totals of dynamic_fees.rs; SHA-256 and the
-- functions of merkle.rs that call it; the contracts that are not named above.
pub mod Prelude
pub mod Replay
pub mod RateLimit
pub mod Staking
pub mod Merkle
pub mod Fees
pub mod Multisig
pub mod Epochs
pub mod Dao
pub mod Stream
pub mod Share
pub mod Settlement
pub mod Curve
pub mod Audit
