-- ===== src/Multisig/Histories.antt =====
-- Histories of governance calls.
use veritasor_contracts.Prelude.{ℕ, ◌≡◌, List, none, Env, Address, ok}
use veritasor_contracts.Multisig.Types.{Multisig, ProposalAction}
use veritasor_contracts.Multisig.Calls.{
  initialize_multisig, rotate_threshold, create_proposal, approve_proposal, reject_proposal,
  mark_executed, add_owner, remove_owner,
}

-- One returning call of the governance functions.
pub data Step (s : Multisig) : Multisig → Type 0 where
  initializing :
      {s' : Multisig} (owners : List Address) (n : ℕ)
      → initialize_multisig owners n s ≡ ok (tt, s')
      → Step s s'
  creating :
      {s' : Multisig} (env : Env) (a : Address) (action : ProposalAction) (n : ℕ)
      → create_proposal env a action s ≡ ok (n, s')
      → Step s s'
  approving :
      {s' : Multisig} (env : Env) (a : Address) (n : ℕ)
      → approve_proposal env a n s ≡ ok (tt, s')
      → Step s s'
  rejecting :
      {s' : Multisig} (env : Env) (a : Address) (n : ℕ)
      → reject_proposal env a n s ≡ ok (tt, s')
      → Step s s'
  executing : {s' : Multisig} (env : Env) (n : ℕ) → mark_executed env n s ≡ ok (tt, s') → Step s s'
  adding_owner :
      {s' : Multisig} (env : Env) (a : Address) → add_owner env a s ≡ ok (tt, s') → Step s s'
  removing_owner : {s' : Multisig} (a : Address) → remove_owner a s ≡ ok (tt, s') → Step s s'
  rotating : {s' : Multisig} (n : ℕ) → rotate_threshold n s ≡ ok (tt, s') → Step s s'

-- Returning calls, one after the other.
pub data History (s : Multisig) : Multisig → Type 0 where
  done : History s s
  call : {t u : Multisig} → History s t → Step t u → History s u

abbrev pub deployed : Multisig
deployed = record {
  owners = none;
  threshold = none;
  proposals = λ i. none;
  approvals = λ i. none;
  next_proposal_id = none;
  proposal_expiry = λ i. none;
  last_quorum_change = none;
  proposal_expiry_grace = none;
  snapshots = λ i. none;
}

-- A call that created the proposal `id`.
pub record Creation (id : ℕ) (s s' : Multisig) : Type 0 where
  pub env : Env
  pub proposer : Address
  pub action : ProposalAction
  pub created : create_proposal env proposer action s ≡ ok (id, s')

-- A history from the deployment to `s`, in which the proposal `id` is created.
pub record Created (id : ℕ) (s : Multisig) : Type 0 where
  pub before : Multisig
  pub after : Multisig
  pub earlier : History deployed before
  pub creation : Creation id before after
  pub later : History after s
