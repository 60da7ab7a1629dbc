-- ===== src/Dao/Config.antt =====
-- The admin of the DAO and its configuration.
use veritasor_contracts.Prelude.{
  ℕ, not, Option, none, some, get_or, Env, Address, pure, ensure, gets, modify, expect, ◌>>=◌, ◌>>◌,
  ⊤, is_some, leb, ◌==◌, if◌then◌else◌,
}
use veritasor_contracts.Prelude.Int.{pos, ltb_ℤ}
use veritasor_contracts.Dao.Types.{
  Role, admin_role, voter, executor, unauthorized, already_initialized, not_initialized, not_admin,
  same_admin, no_pending_admin, not_pending_admin, min_votes_too_large, duration_too_long,
  no_token_balance, Dao, default_min_votes, default_proposal_duration, max_min_votes,
  max_proposal_duration, Balance, Call,
}

abbrev pub require_auth : Env → Address → Call ⊤
require_auth env a = ensure (env.authorized a) unauthorized

abbrev pub get_admin : Call Address
get_admin = gets (λ s. s.admin) >>= λ stored. expect stored not_initialized

unfoldable pub require_admin : Env → Address → Call ⊤
require_admin env caller = do
  require_auth env caller
  admin ← get_admin
  ensure (caller == admin) not_admin

unfoldable pub require_token_holder : Balance → Address → Call ⊤
require_token_holder balance who s = elim s.governance_token [
  | none ↦ pure tt s
  | some token ↦ ensure (ltb_ℤ (pos 0) (balance token who)) no_token_balance s
]

unfoldable pub get_min_votes : Dao → ℕ
get_min_votes s = get_or s.min_votes default_min_votes

unfoldable pub get_proposal_duration : Dao → ℕ
get_proposal_duration s = get_or s.proposal_duration default_proposal_duration

unfoldable pub validate_min_votes : ℕ → Call ⊤
validate_min_votes min_votes = ensure (leb min_votes max_min_votes) min_votes_too_large

unfoldable pub validate_proposal_duration : ℕ → Call ⊤
validate_proposal_duration duration = ensure (leb duration max_proposal_duration) duration_too_long

-- `normalize_config`, one component each
unfoldable pub normalize_min_votes : ℕ → ℕ
normalize_min_votes min_votes = if min_votes == 0 then default_min_votes else min_votes

unfoldable pub normalize_duration : ℕ → ℕ
normalize_duration duration = if duration == 0 then default_proposal_duration else duration

-- The last lines that `initialize`, `set_voting_config` and `apply_action` have in common.
abbrev pub store_config : ℕ → ℕ → Dao → Dao
store_config min_votes duration s = record s {
  min_votes = some (normalize_min_votes min_votes);
  proposal_duration = some (normalize_duration duration);
}

unfoldable pub initialize : Env → Address → Option Address → ℕ → ℕ → Call ⊤
unfolding validate_min_votes validate_proposal_duration
initialize env admin governance_token min_votes duration = do
  present ← gets (λ s. is_some s.admin)
  ensure (not present) already_initialized
  require_auth env admin
  validate_min_votes min_votes
  validate_proposal_duration duration
  modify (λ s. record s { admin = some admin })
  modify (λ s. elim governance_token [ none ↦ s | some t ↦ record s { governance_token = some t } ])
  modify (store_config min_votes duration)

unfoldable pub transfer_admin : Env → Address → Address → Call ⊤
unfolding require_admin
transfer_admin env caller new_admin = do
  require_admin env caller
  admin ← get_admin
  ensure (not (new_admin == admin)) same_admin
  modify (λ s. record s { pending_admin = some new_admin })

unfoldable pub accept_admin : Env → Address → Call ⊤
accept_admin env caller = do
  require_auth env caller
  stored ← gets (λ s. s.pending_admin)
  waiting ← expect stored no_pending_admin
  ensure (caller == waiting) not_pending_admin
  modify (λ s. record s { admin = some caller; pending_admin = none })

unfoldable pub set_governance_token : Env → Address → Address → Call ⊤
unfolding require_admin
set_governance_token env caller token = do
  require_admin env caller
  modify (λ s. record s { governance_token = some token })

unfoldable pub set_voting_config : Env → Address → ℕ → ℕ → Call ⊤
unfolding require_admin validate_min_votes validate_proposal_duration
set_voting_config env caller min_votes duration = do
  require_admin env caller
  validate_min_votes min_votes
  validate_proposal_duration duration
  modify (store_config min_votes duration)

unfoldable pub get_role : Balance → Address → Dao → Role
get_role balance who s =
    let holder : Role = elim s.governance_token [
      | none ↦ executor
      | some token ↦ if ltb_ℤ (pos 0) (balance token who) then voter else executor
    ] in
    elim s.admin [ none ↦ holder | some admin ↦ if who == admin then admin_role else holder ]
