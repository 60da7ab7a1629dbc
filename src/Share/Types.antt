-- ===== src/Share/Types.antt =====
-- The data of the revenue shares and their storage.
use veritasor_contracts.Prelude.{ℕ, Bool, List, Option, Address, Slots, Action}
use veritasor_contracts.Prelude.Int.{ℤ}
use veritasor_contracts.Replay
use veritasor_contracts.Replay.{Nonces}

-- A period is a text, and its bytes are what the code measures and compares.
abbrev pub Period : Type 0
Period = List ℕ

pub record Stakeholder : Type 0 where
  pub address : Address
  pub share_bps : ℕ

pub record DistributionRecord : Type 0 where
  pub total_amount : ℤ
  pub timestamp : ℕ
  pub amounts : List ℤ

-- The panics, named for their messages.
pub data Error : Type 0 where
  replay : Replay.Error → Error
  unauthorized already_initialized not_initialized : Error
  no_stakeholder too_many_stakeholders zero_share bps_overflow duplicate_stakeholder shares_differ :
      Error
  period_too_long revenue_negative already_distributed no_attestation_contract : Error
  attestation_missing attestation_revoked attestation_expired root_differs no_stakeholders : Error
  share_overflow distributed_overflow residual_underflow residual_overflow missing_amount : Error
  sum_overflow sum_differs no_token insufficient_balance transfer_failed count_overflow : Error

-- A field for each constructor of `DataKey`, the nonces, and the tokens' ledger.
pub record Share (L : Type 0) : Type 0 where
  pub admin : Option Address
  pub attestation_contract : Option Address
  pub token : Option Address
  pub stakeholders : Option (List Stakeholder)
  pub distribution : Address → Period → Option DistributionRecord
  pub distribution_count : Slots ℕ
  pub nonces : Nonces
  pub ledger : L

abbrev pub Call : Type 0 → Type 0 → Type 0
Call L A = Action Error (Share L) A

-- `token::Client`: the balance of a holder, and a transfer from a sender to a receiver.
pub record Token (L : Type 0) : Type 0 where
  pub balance : Address → Address → L → ℤ
  pub transfer : Address → Address → Address → ℤ → L → Option L

-- What the attestation contract at an address says of a business and a period: the Merkle root of
-- its attestation, whether it is revoked, and whether it is expired. A root is a number.
pub record Attestations : Type 0 where
  pub root : Address → Address → Period → Option ℕ
  pub is_revoked : Address → Address → Period → Bool
  pub is_expired : Address → Address → Period → Bool
