-- ===== src/Dao/Calls.antt =====
-- Proposals, votes, execution and cancellation.
use veritasor_contracts.Prelude.{
  ℕ, ◌+◌, Bool, true, false, not, ◌&&◌, some, get_or, Env, Address, pure, ensure, gets, modify,
  expect, ◌>>=◌, ◌>>◌, ⊤, store, ltb, leb, ◌==◌, if◌then◌else◌, min,
}
use veritasor_contracts.Prelude.Int.{pos, leb_ℤ, u32_max, u64_max}
use veritasor_contracts.Dao.Types.{
  ProposalStatus, pending, executed, rejected, FeeTuple, ProposalAction, set_attestation_fee_config,
  set_attestation_fee_enabled, update_governance_config, pause_attestation, unpause_attestation,
  Proposal, base_fee_negative, id_overflow, proposal_not_found, not_pending, proposal_expired,
  already_voted, quorum_missing, majority_missing, fee_config_missing, not_creator_or_admin, Dao,
  Balance, Call,
}
use veritasor_contracts.Dao.Config.{
  require_auth, get_admin, require_token_holder, get_min_votes, get_proposal_duration,
  validate_min_votes, validate_proposal_duration, normalize_min_votes, normalize_duration,
  store_config,
}

abbrev pub is_pending : ProposalStatus → Bool
is_pending pending = true
is_pending _ = false

-- `saturating_add` on `u32`
abbrev pub saturating_add : ℕ → ℕ → ℕ
saturating_add a b = min (a + b) u32_max

unfoldable pub next_proposal_id : Call ℕ
next_proposal_id = do
  id ← gets (λ s. get_or s.next_proposal_id 0)
  ensure (ltb id u64_max) id_overflow
  modify (λ s. record s { next_proposal_id = some (id + 1) })
  pure id

unfoldable pub store_proposal : Proposal → Call ⊤
store_proposal p = modify (λ s. record s { proposals = store s.proposals p.id p })

unfoldable pub get_proposal_internal : ℕ → Call Proposal
get_proposal_internal id = gets (λ s. s.proposals id) >>= λ found. expect found proposal_not_found

-- `is_expired` of a proposal that is there.
unfoldable pub is_expired : Env → Proposal → Dao → Bool
is_expired env p s = ltb (saturating_add p.created_at (get_proposal_duration s)) env.sequence

unfoldable pub get_votes_for : ℕ → Dao → ℕ
get_votes_for id s = get_or (s.votes_for id) 0

unfoldable pub get_votes_against : ℕ → Dao → ℕ
get_votes_against id s = get_or (s.votes_against id) 0

unfoldable pub has_voted : ℕ → Address → Dao → Bool
has_voted id voter s = get_or (s.voted id voter) false

unfoldable pub set_voted : ℕ → Address → Dao → Dao
set_voted id voter s = record s {
  voted = λ n a. if n == id && voter == a then some true else s.voted n a;
}

unfoldable pub increment_for : ℕ → Dao → Dao
unfolding get_votes_for
increment_for id s = record s {
  votes_for = store s.votes_for id (saturating_add (get_votes_for id s) 1);
}

unfoldable pub increment_against : ℕ → Dao → Dao
unfolding get_votes_against
increment_against id s = record s {
  votes_against = store s.votes_against id (saturating_add (get_votes_against id s) 1);
}

unfoldable pub quorum_met : ℕ → Dao → Bool
quorum_met id s =
    leb (get_min_votes s) (saturating_add (get_votes_for id s) (get_votes_against id s))

unfoldable pub has_majority : ℕ → Dao → Bool
has_majority id s = ltb (get_votes_against id s) (get_votes_for id s)

unfoldable pub is_proposal_approved : ℕ → Dao → Bool
is_proposal_approved id s = quorum_met id s && has_majority id s

-- The write of a checked fee switch.
abbrev switched : Bool → FeeTuple → Dao → Dao
switched on config s = record s { attestation_fee_config = some (record config { enabled = on }) }

unfoldable pub apply_action : ProposalAction → Call ⊤
apply_action (set_attestation_fee_config config) =
    modify (λ s. record s { attestation_fee_config = some config })
apply_action (set_attestation_fee_enabled on) = do
  found ← gets (λ s. s.attestation_fee_config)
  config ← expect found fee_config_missing
  modify (switched on config)
apply_action (update_governance_config min_votes duration) = do
  validate_min_votes min_votes
  validate_proposal_duration duration
  modify (store_config min_votes duration)
apply_action pause_attestation = modify (λ s. record s { attestation_paused = some true })
apply_action unpause_attestation = modify (λ s. record s { attestation_paused = some false })

abbrev pub new_proposal : Env → Address → ProposalAction → ℕ → Proposal
new_proposal env creator action id = record {
  id = id;
  creator = creator;
  action = action;
  status = pending;
  created_at = env.sequence;
}

-- The tail that the five `create` functions have in common.
unfoldable pub create : Env → Address → ProposalAction → Call ℕ
unfolding next_proposal_id store_proposal
create env creator action = do
  id ← next_proposal_id
  store_proposal (new_proposal env creator action id)
  pure id

module _ (balance : Balance) (env : Env) where
  unfoldable pub create_fee_config_proposal : Address → FeeTuple → Call ℕ
  create_fee_config_proposal creator config = do
    require_auth env creator
    require_token_holder balance creator
    ensure (leb_ℤ (pos 0) config.base_fee) base_fee_negative
    create env creator (set_attestation_fee_config config)

  unfoldable pub create_fee_toggle_proposal : Address → Bool → Call ℕ
  create_fee_toggle_proposal creator on = do
    require_auth env creator
    require_token_holder balance creator
    create env creator (set_attestation_fee_enabled on)

  unfoldable pub create_gov_config_proposal : Address → ℕ → ℕ → Call ℕ
  create_gov_config_proposal creator min_votes duration = do
    require_auth env creator
    require_token_holder balance creator
    validate_min_votes min_votes
    validate_proposal_duration duration
    create env creator
        (update_governance_config (normalize_min_votes min_votes) (normalize_duration duration))

  unfoldable pub create_pause_proposal : Address → Call ℕ
  create_pause_proposal creator = do
    require_auth env creator
    require_token_holder balance creator
    create env creator pause_attestation

  unfoldable pub create_unpause_proposal : Address → Call ℕ
  create_unpause_proposal creator = do
    require_auth env creator
    require_token_holder balance creator
    create env creator unpause_attestation

  -- The guards of both votes; the proposal that they load.
  unfoldable pub check_vote : Address → ℕ → Call Proposal
  unfolding get_proposal_internal
  check_vote voter id = do
    require_auth env voter
    require_token_holder balance voter
    proposal ← get_proposal_internal id
    ensure (is_pending proposal.status) not_pending
    late ← gets (is_expired env proposal)
    ensure (not late) proposal_expired
    twice ← gets (has_voted id voter)
    ensure (not twice) already_voted
    pure proposal

  unfoldable pub vote_for : Address → ℕ → Call ⊤
  vote_for voter id = do
    proposal ← check_vote voter id
    modify (increment_for id)
    modify (set_voted id voter)
    store_proposal proposal

  unfoldable pub vote_against : Address → ℕ → Call ⊤
  vote_against voter id = do
    proposal ← check_vote voter id
    modify (increment_against id)
    modify (set_voted id voter)
    store_proposal proposal

unfoldable pub execute_proposal : Env → Address → ℕ → Call ⊤
unfolding get_proposal_internal store_proposal
execute_proposal env executor id = do
  require_auth env executor
  proposal ← get_proposal_internal id
  ensure (is_pending proposal.status) not_pending
  late ← gets (is_expired env proposal)
  ensure (not late) proposal_expired
  enough ← gets (quorum_met id)
  ensure enough quorum_missing
  won ← gets (has_majority id)
  ensure won majority_missing
  apply_action proposal.action
  store_proposal (record proposal { status = executed })

-- `get_admin` is only read when the caller is not the creator.
abbrev is_admin : Address → Call Bool
is_admin caller = get_admin >>= λ admin. pure (admin == caller)

unfoldable pub cancel_proposal : Env → Address → ℕ → Call ⊤
unfolding get_proposal_internal store_proposal
cancel_proposal env caller id = do
  require_auth env caller
  proposal ← get_proposal_internal id
  ensure (is_pending proposal.status) not_pending
  may ← if proposal.creator == caller then pure true else is_admin caller
  ensure may not_creator_or_admin
  store_proposal (record proposal { status = rejected })
