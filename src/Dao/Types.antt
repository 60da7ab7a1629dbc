-- ===== src/Dao/Types.antt =====
-- The data of the DAO and its storage.
use veritasor_contracts.Prelude.{ℕ, Bool, Option, Address, Slots, Action}
use veritasor_contracts.Prelude.Int.{ℤ, u32_max}

pub data Role : Type 0 where
  admin_role proposer voter executor : Role

pub data ProposalStatus : Type 0 where
  pending executed rejected expired : ProposalStatus

-- The tuple (token, collector, base_fee, enabled).
pub record FeeTuple : Type 0 where
  pub token : Address
  pub collector : Address
  pub base_fee : ℤ
  pub enabled : Bool

pub data ProposalAction : Type 0 where
  set_attestation_fee_config : FeeTuple → ProposalAction
  set_attestation_fee_enabled : Bool → ProposalAction
  update_governance_config : ℕ → ℕ → ProposalAction
  pause_attestation unpause_attestation : ProposalAction

pub record Proposal : Type 0 where
  pub id : ℕ
  pub creator : Address
  pub action : ProposalAction
  pub status : ProposalStatus
  pub created_at : ℕ

-- The panics, named for their messages.
pub data Error : Type 0 where
  unauthorized already_initialized not_initialized not_admin same_admin : Error
  no_pending_admin not_pending_admin min_votes_too_large duration_too_long : Error
  no_token_balance base_fee_negative id_overflow proposal_not_found not_pending : Error
  proposal_expired already_voted quorum_missing majority_missing fee_config_missing : Error
  not_creator_or_admin : Error

-- A field for each constructor of `DataKey`.
pub record Dao : Type 0 where
  pub admin : Option Address
  pub pending_admin : Option Address
  pub governance_token : Option Address
  pub min_votes : Option ℕ
  pub proposal_duration : Option ℕ
  pub next_proposal_id : Option ℕ
  pub proposals : Slots Proposal
  pub votes_for : Slots ℕ
  pub votes_against : Slots ℕ
  pub voted : ℕ → Slots Bool
  pub attestation_fee_config : Option FeeTuple
  pub attestation_paused : Option Bool

abbrev pub default_min_votes : ℕ
default_min_votes = 1

abbrev pub default_proposal_duration : ℕ
default_proposal_duration = 120960

abbrev pub max_min_votes : ℕ
max_min_votes = 1000000

abbrev pub max_proposal_duration : ℕ
max_proposal_duration = u32_max

-- `token::Client::balance`: the token and the holder.
abbrev pub Balance : Type 0
Balance = Address → Address → ℤ

abbrev pub Call : Type 0 → Type 0
Call = Action Error Dao
