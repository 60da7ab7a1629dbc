-- ===== src/Settlement/Types.antt =====
-- The data of the settlements and their storage.
use veritasor_contracts.Prelude.{ℕ, Option, Address, Slots, Action}
use veritasor_contracts.Prelude.Int.{ℤ}

pub record Agreement : Type 0 where
  pub id : ℕ
  pub lender : Address
  pub business : Address
  pub principal : ℤ
  pub revenue_share_bps : ℕ
  pub min_revenue_threshold : ℤ
  pub max_repayment_amount : ℤ
  pub attestation_contract : Address
  pub token : Address
  pub status : ℕ
  pub created_at : ℕ

-- A period is a number that is only compared.
pub record SettlementRecord : Type 0 where
  pub agreement_id : ℕ
  pub period : ℕ
  pub attested_revenue : ℤ
  pub repayment_amount : ℤ
  pub amount_transferred : ℤ
  pub settled_at : ℕ

-- The panics, named for their messages.
pub data Error : Type 0 where
  unauthorized already_initialized not_initialized : Error
  principal_not_positive bps_too_large threshold_negative cap_not_positive same_party id_overflow :
      Error
  no_periods lengths_differ agreement_not_found not_active : Error
  other_token already_committed transfer_failed amount_overflow : Error

-- A field for each constructor of `DataKey`, and the tokens' ledger.
pub record Settlements (L : Type 0) : Type 0 where
  pub admin : Option Address
  pub next_agreement_id : Option ℕ
  pub agreement : Slots Agreement
  pub committed : ℕ → ℕ → Option ℤ
  pub settlement : ℕ → ℕ → Option SettlementRecord
  pub business_period_token : Address → ℕ → Option Address
  pub ledger : L

abbrev pub Call : Type 0 → Type 0 → Type 0
Call L A = Action Error (Settlements L) A

-- `token::Client::transfer`: the token, the sender, the receiver and the amount.
abbrev pub Transfer : Type 0 → Type 0
Transfer L = Address → Address → Address → ℤ → L → Option L
