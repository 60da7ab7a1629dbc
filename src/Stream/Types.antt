-- ===== src/Stream/Types.antt =====
-- The data of the streams and their storage.
use veritasor_contracts.Prelude.{ℕ, Bool, Option, Address, Slots, Action}
use veritasor_contracts.Prelude.Int.{ℤ}
use veritasor_contracts.Replay
use veritasor_contracts.Replay.{Nonces}

-- Ledger times in seconds: the optional cliff, or the start and the end of the accrual.
pub data VestingSchedule : Type 0 where
  lump : Option ℕ → VestingSchedule
  linear : ℕ → ℕ → VestingSchedule

pub record VestTimeRemap : Type 0 where
  pub t_eff0 : ℕ
  pub at_ledger : ℕ

-- A period is a number that is only compared.
pub record Stream : Type 0 where
  pub id : ℕ
  pub attestation_contract : Address
  pub business : Address
  pub period : ℕ
  pub beneficiary : Address
  pub token : Address
  pub amount : ℤ
  pub vesting : VestingSchedule
  pub released_amount : ℤ

-- The panics, named for their messages.
pub data Error : Type 0 where
  replay : Replay.Error → Error
  unauthorized already_initialized not_initialized not_admin : Error
  amount_not_positive accrual_reversed id_overflow transfer_failed : Error
  stream_not_found already_released contract_paused snapshot_missing cliff_not_reached : Error
  vesting_overflow nothing_to_claim attestation_missing attestation_revoked : Error
  arithmetic_overflow already_paused not_paused : Error

-- A field for each constructor of `DataKey`, the nonces, and the tokens' ledger.
pub record Streams (L : Type 0) : Type 0 where
  pub admin : Option Address
  pub next_stream_id : Option ℕ
  pub streams : Slots Stream
  pub paused : Option Bool
  pub pause_snapshot : Option ℕ
  pub vest_time_remap : Option VestTimeRemap
  pub nonces : Nonces
  pub ledger : L

abbrev pub Call : Type 0 → Type 0 → Type 0
Call L A = Action Error (Streams L) A

-- `token::Client::transfer`: the token, the sender, the receiver and the amount.
abbrev pub Transfer : Type 0 → Type 0
Transfer L = Address → Address → Address → ℤ → L → Option L

-- What an attestation contract says of a business and a period: whether there is an attestation,
-- and whether it is revoked.
pub record Attestations : Type 0 where
  pub has_attestation : Address → Address → ℕ → Bool
  pub is_revoked : Address → Address → ℕ → Bool
