-- ===== src/Multisig/Calls.antt =====
-- The functions of the multisig on its storage, in the order of the source.
use veritasor_contracts.Prelude.{
  ℕ, suc, ◌+◌, Bool, true, false, not, ◌&&◌, List, [], ◌∷◌, ◌++◌, none, some, get_or, Env, Address,
  Action, pure, ensure, gets, modify, expect, ◌>>=◌, ◌>>◌, ⊤, store, is_some, ltb, leb, ◌==◌,
  if◌then◌else◌, length, contains,
}
use veritasor_contracts.Prelude.Int.{u32_max, u64_max}
use veritasor_contracts.Multisig.Types.{
  ProposalAction, ProposalStatus, Proposal, VoteWeightSnapshot, Error, Multisig,
  default_proposal_expiry, proposal_cooldown_ledgers, pause, unpause, add_owner_action,
  remove_owner_action, change_threshold, grant_role_action, revoke_role_action, update_fee_config,
  emergency_rotate_admin, emergency_pause, pending, executed, rejected, unauthorized, no_owners,
  threshold_out_of_range, already_initialized, not_owner, cooldown_active, arithmetic_overflow,
  proposal_not_found, proposal_expired, not_pending, not_in_snapshot, already_approved,
  not_approved, already_owner, last_owner, below_threshold,
}

abbrev Call : Type 0 → Type 0
Call = Action Error Multisig

abbrev pub require_auth : Env → Address → Call ⊤
require_auth env a = ensure (env.authorized a) unauthorized

abbrev is_empty : List Address → Bool
is_empty [] = true
is_empty (x ∷ xs) = false

abbrev pub is_pending : ProposalStatus → Bool
is_pending pending = true
is_pending _ = false

abbrev pub is_change_threshold : ProposalAction → Bool
is_change_threshold (change_threshold n) = true
is_change_threshold _ = false

unfoldable pub get_owners : Multisig → List Address
get_owners s = get_or s.owners []

unfoldable pub get_threshold : Multisig → ℕ
get_threshold s = get_or s.threshold 1

unfoldable pub is_owner : Address → Multisig → Bool
is_owner a s = contains (get_owners s) a

unfoldable pub set_owners : List Address → Call ⊤
set_owners owners = do
  ensure (not (is_empty owners)) no_owners
  modify (λ s. record s { owners = some owners })

unfoldable pub rotate_threshold : ℕ → Call ⊤
rotate_threshold new_threshold = do
  owners ← gets get_owners
  ensure (ltb 0 new_threshold && leb new_threshold (length owners)) threshold_out_of_range
  modify (λ s. record s { threshold = some new_threshold })

unfoldable pub initialize_multisig : List Address → ℕ → Call ⊤
initialize_multisig owners threshold = do
  present ← gets (λ s. is_some s.owners)
  ensure (not present) already_initialized
  set_owners owners
  modify (λ s. record s { threshold = some threshold })

unfoldable pub action_tag_of : ProposalAction → ℕ
action_tag_of pause = 1
action_tag_of unpause = 2
action_tag_of (add_owner_action a) = 3
action_tag_of (remove_owner_action a) = 4
action_tag_of (change_threshold n) = 5
action_tag_of (grant_role_action a r) = 6
action_tag_of (revoke_role_action a r) = 7
action_tag_of (update_fee_config t c b e) = 8
action_tag_of (emergency_rotate_admin a) = 9
action_tag_of emergency_pause = 10

-- The cooldown test at the head of `create_proposal`.
unfoldable pub check_cooldown : Env → ProposalAction → Call ⊤
check_cooldown env action =
    if is_change_threshold action
    then (do
      last_change ← gets (λ s. get_or s.last_quorum_change 0)
      ensure (leb (last_change + proposal_cooldown_ledgers) u32_max) arithmetic_overflow
      ensure (leb (last_change + proposal_cooldown_ledgers) env.sequence) cooldown_active)
    else pure tt

abbrev pub new_snapshot : Env → ProposalAction → Multisig → VoteWeightSnapshot
new_snapshot env action s = record {
  owners = get_owners s;
  threshold = get_threshold s;
  total_weight = length (get_owners s);
  created_at = env.sequence;
  action_tag = action_tag_of action;
}

abbrev pub new_proposal : Env → ℕ → Address → ProposalAction → Proposal
new_proposal env id proposer action = record {
  id = id;
  action = action;
  proposer = proposer;
  status = pending;
  created_at = env.sequence;
}

unfoldable pub create_proposal : Env → Address → ProposalAction → Call ℕ
create_proposal env proposer action = do
  require_auth env proposer
  owner ← gets (is_owner proposer)
  ensure owner not_owner
  check_cooldown env action
  id ← gets (λ s. get_or s.next_proposal_id 0)
  ensure (ltb id u64_max) arithmetic_overflow
  modify (λ s. record s { next_proposal_id = some (id + 1) })
  modify (λ s. record s { snapshots = store s.snapshots id (new_snapshot env action s) })
  modify (λ s. record s { proposals = store s.proposals id (new_proposal env id proposer action) })
  ensure (leb (env.sequence + default_proposal_expiry) u32_max) arithmetic_overflow
  modify (λ s. record s {
    proposal_expiry = store s.proposal_expiry id (env.sequence + default_proposal_expiry);
  })
  modify (λ s. record s { approvals = store s.approvals id (proposer ∷ []) })
  pure id

unfoldable pub get_approvals : ℕ → Multisig → List Address
get_approvals id s = get_or (s.approvals id) []

unfoldable pub is_proposal_expired : Env → ℕ → Multisig → Bool
is_proposal_expired env id s = elim (s.proposal_expiry id) [
  | none ↦ false
  | some expiry ↦ ltb expiry env.sequence
]

-- The snapshot guard of `approve_proposal`.
unfoldable pub may_vote : Address → ℕ → Multisig → Bool
may_vote a id s = elim (s.snapshots id) [ none ↦ true | some snapshot ↦ contains snapshot.owners a ]

unfoldable pub approve_proposal : Env → Address → ℕ → Call ⊤
approve_proposal env approver id = do
  require_auth env approver
  found ← gets (λ s. s.proposals id)
  proposal ← expect found proposal_not_found
  late ← gets (is_proposal_expired env id)
  ensure (not late) proposal_expired
  ensure (is_pending proposal.status) not_pending
  eligible ← gets (may_vote approver id)
  ensure eligible not_in_snapshot
  owner ← gets (is_owner approver)
  ensure owner not_owner
  approvals ← gets (get_approvals id)
  ensure (not (contains approvals approver)) already_approved
  modify (λ s. record s { approvals = store s.approvals id (approvals ++ approver ∷ []) })

unfoldable pub reject_proposal : Env → Address → ℕ → Call ⊤
reject_proposal env rejecter id = do
  require_auth env rejecter
  owner ← gets (is_owner rejecter)
  ensure owner not_owner
  found ← gets (λ s. s.proposals id)
  proposal ← expect found proposal_not_found
  modify
      (λ s. record s { proposals = store s.proposals id (record proposal { status = rejected }) })

unfoldable pub effective_threshold : ℕ → Multisig → ℕ
effective_threshold id s = elim (s.snapshots id) [ none ↦ get_threshold s | some v ↦ v.threshold ]

-- The loop of `get_approval_count`.
unfoldable pub count_in : List Address → List Address → ℕ
count_in owners [] = 0
count_in owners (a ∷ rest) =
    let more = count_in owners rest in if contains owners a then suc more else more

unfoldable pub get_approval_count : ℕ → Multisig → ℕ
unfolding count_in
get_approval_count id s = elim (s.snapshots id) [
  | none ↦ length (get_approvals id s)
  | some v ↦ count_in v.owners (get_approvals id s)
]

unfoldable pub is_proposal_approved : ℕ → Multisig → Bool
is_proposal_approved id s = leb (effective_threshold id s) (get_approval_count id s)

unfoldable pub mark_executed : Env → ℕ → Call ⊤
mark_executed env id = do
  found ← gets (λ s. s.proposals id)
  proposal ← expect found proposal_not_found
  late ← gets (is_proposal_expired env id)
  ensure (not late) proposal_expired
  ensure (is_pending proposal.status) not_pending
  approved ← gets (is_proposal_approved id)
  ensure approved not_approved
  modify (λ s.
      if is_change_threshold proposal.action
      then record s { last_quorum_change = some env.sequence }
      else s)
  modify
      (λ s. record s { proposals = store s.proposals id (record proposal { status = executed }) })

unfoldable pub add_owner : Env → Address → Call ⊤
add_owner env owner = do
  require_auth env owner
  owners ← gets get_owners
  ensure (not (contains owners owner)) already_owner
  set_owners (owners ++ owner ∷ [])

-- The loop of `remove_owner`.
unfoldable pub without : Address → List Address → List Address
without owner [] = []
without owner (a ∷ rest) = let next = without owner rest in if a == owner then next else a ∷ next

unfoldable pub remove_owner : Address → Call ⊤
remove_owner owner = do
  owners ← gets get_owners
  ensure (contains owners owner) not_owner
  ensure (ltb 1 (length owners)) last_owner
  threshold ← gets get_threshold
  ensure (leb threshold (length (without owner owners))) below_threshold
  set_owners (without owner owners)
