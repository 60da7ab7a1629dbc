-- ===== src/Multisig/Types.antt =====
-- The data of the multisig and its storage.
use veritasor_contracts.Prelude.{ℕ, Bool, List, Option, Address, Slots}
use veritasor_contracts.Prelude.Int.{ℤ}

pub data ProposalAction : Type 0 where
  pause unpause : ProposalAction
  add_owner_action remove_owner_action : Address → ProposalAction
  change_threshold : ℕ → ProposalAction
  grant_role_action revoke_role_action : Address → ℕ → ProposalAction
  update_fee_config : Address → Address → ℤ → Bool → ProposalAction
  emergency_rotate_admin : Address → ProposalAction
  emergency_pause : ProposalAction

pub data ProposalStatus : Type 0 where
  pending executed rejected expired : ProposalStatus

pub record Proposal : Type 0 where
  pub id : ℕ
  pub action : ProposalAction
  pub proposer : Address
  pub status : ProposalStatus
  pub created_at : ℕ

pub record VoteWeightSnapshot : Type 0 where
  pub owners : List Address
  pub threshold : ℕ
  pub total_weight : ℕ
  pub created_at : ℕ
  pub action_tag : ℕ

-- The panics, named for their messages.
pub data Error : Type 0 where
  unauthorized no_owners threshold_out_of_range already_initialized not_owner : Error
  cooldown_active arithmetic_overflow proposal_not_found proposal_expired not_pending : Error
  not_in_snapshot already_approved not_approved already_owner last_owner below_threshold : Error

-- A field for each constructor of `MultisigKey`.
pub record Multisig : Type 0 where
  pub owners : Option (List Address)
  pub threshold : Option ℕ
  pub proposals : Slots Proposal
  pub approvals : Slots (List Address)
  pub next_proposal_id : Option ℕ
  pub proposal_expiry : Slots ℕ
  pub last_quorum_change : Option ℕ
  pub proposal_expiry_grace : Option ℕ
  pub snapshots : Slots VoteWeightSnapshot

abbrev pub default_proposal_expiry : ℕ
default_proposal_expiry = 100000

abbrev pub proposal_cooldown_ledgers : ℕ
proposal_cooldown_ledgers = 1000

abbrev pub default_proposal_expiry_grace : ℕ
default_proposal_expiry_grace = 10000
