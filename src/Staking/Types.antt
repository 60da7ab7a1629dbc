-- ===== src/Staking/Types.antt =====
-- The data of the staking contract: its records, its storage and its panics.
use veritasor_contracts.Prelude.{ℕ, Bool, List, Option, Address, Slots, Action}
use veritasor_contracts.Prelude.Int.{ℤ}

pub data SlashOutcome : Type 0 where
  slashed no_slash : SlashOutcome

pub record PendingUnstake : Type 0 where
  pub amount : ℤ
  pub unlock_timestamp : ℕ

pub record Stake : Type 0 where
  pub attestor : Address
  pub amount : ℤ
  pub locked : ℤ

-- The panics, with the host's for a missing authorisation, a missing key, an arithmetic overflow
-- and a failed token transfer.
pub data Error : Type 0 where
  unauthorized missing_key arithmetic_overflow transfer_failed : Error
  already_initialized min_stake_not_positive unbonding_too_long : Error
  token_is_self treasury_is_self dispute_is_self : Error
  admin_is_treasury token_is_treasury dispute_is_treasury : Error
  amount_not_positive stake_overflow too_many_pending no_stake insufficient_stake : Error
  no_pending nothing_unlocked locked_invariant stake_invariant : Error
  slash_not_positive already_processed : Error

-- The instance storage, a field for each constructor of `DataKey`, and the token's ledger.
pub record Staking (L : Type 0) : Type 0 where
  pub admin : Option Address
  pub token : Option Address
  pub treasury : Option Address
  pub min_stake : Option ℤ
  pub dispute_contract : Option Address
  pub unbonding_period : Option ℕ
  pub stakes : Slots Stake
  pub pending : Slots (List PendingUnstake)
  pub slashes : Slots Bool
  pub ledger : L

abbrev pub max_unbonding_period : ℕ
max_unbonding_period = 31536000

-- `token::Client::transfer`: the token, the sender, the receiver and the amount.
abbrev pub Transfer : Type 0 → Type 0
Transfer L = Address → Address → Address → ℤ → L → Option L

-- A call of the contract.
abbrev pub Call : Type 0 → Type 0 → Type 0
Call L A = Action Error (Staking L) A
