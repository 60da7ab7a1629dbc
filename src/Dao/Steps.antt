-- ===== src/Dao/Steps.antt =====
-- The calls of the DAO as steps, and histories of calls with the ballots they cast.
use veritasor_contracts.Prelude.{
  ℕ, ◌≡◌, refl, sym, Bool, true, false, List, [], ◌∷◌, ◌++◌, Option, none, some, Env, Address, ok,
  arith, subst,
}
use veritasor_contracts.Dao.Types.{FeeTuple, Proposal, Dao, Balance}
use veritasor_contracts.Dao.Config.{
  initialize, transfer_admin, accept_admin, set_governance_token, set_voting_config,
}
use veritasor_contracts.Dao.Calls.{
  is_pending, create_fee_config_proposal, create_fee_toggle_proposal, create_gov_config_proposal,
  create_pause_proposal, create_unpause_proposal, vote_for, vote_against, execute_proposal,
  cancel_proposal, increment_for, increment_against, set_voted, get_votes_for, get_votes_against,
  has_voted,
}
use veritasor_contracts.Dao.Status.{
  next_id, Change, moved, IsNumbered, Change-IsNumbered, Change-settled,
}
use veritasor_contracts.Dao.Effects.{
  Effect, initialize-Effect, transfer_admin-Effect, accept_admin-Effect,
  set_governance_token-Effect, set_voting_config-Effect,
}
use veritasor_contracts.Dao.Creates.{
  create_fee_config_proposal-Effect, create_fee_toggle_proposal-Effect,
  create_gov_config_proposal-Effect, create_pause_proposal-Effect, create_unpause_proposal-Effect,
}
use veritasor_contracts.Dao.Settle.{execute_proposal-Effect, cancel_proposal-Effect}
use veritasor_contracts.Dao.Ballots.{
  Ballot, ballot, count, has_cast, IsTally, Effect-IsTally, vote_for-ok, vote_against-ok,
  voted_for-IsTally, voted_against-IsTally,
}

-- A returning call other than a vote. The token's balances and the host may differ at every call.
pub data Quiet (s s' : Dao) : Type 0 where
  initializing :
      (env : Env) (admin : Address) (token : Option Address) (mv d : ℕ)
      → initialize env admin token mv d s ≡ ok (tt, s')
      → Quiet s s'
  transferring : (env : Env) (c a : Address) → transfer_admin env c a s ≡ ok (tt, s') → Quiet s s'
  accepting : (env : Env) (c : Address) → accept_admin env c s ≡ ok (tt, s') → Quiet s s'
  setting_token :
      (env : Env) (c t : Address) → set_governance_token env c t s ≡ ok (tt, s') → Quiet s s'
  configuring :
      (env : Env) (c : Address) (mv d : ℕ)
      → set_voting_config env c mv d s ≡ ok (tt, s')
      → Quiet s s'
  proposing_fee :
      (balance : Balance) (env : Env) (c : Address) (config : FeeTuple) (n : ℕ)
      → create_fee_config_proposal balance env c config s ≡ ok (n, s')
      → Quiet s s'
  proposing_toggle :
      (balance : Balance) (env : Env) (c : Address) (on : Bool) (n : ℕ)
      → create_fee_toggle_proposal balance env c on s ≡ ok (n, s')
      → Quiet s s'
  proposing_config :
      (balance : Balance) (env : Env) (c : Address) (mv d n : ℕ)
      → create_gov_config_proposal balance env c mv d s ≡ ok (n, s')
      → Quiet s s'
  proposing_pause :
      (balance : Balance) (env : Env) (c : Address) (n : ℕ)
      → create_pause_proposal balance env c s ≡ ok (n, s')
      → Quiet s s'
  proposing_unpause :
      (balance : Balance) (env : Env) (c : Address) (n : ℕ)
      → create_unpause_proposal balance env c s ≡ ok (n, s')
      → Quiet s s'
  executing :
      (env : Env) (x : Address) (id : ℕ) → execute_proposal env x id s ≡ ok (tt, s') → Quiet s s'
  cancelling :
      (env : Env) (c : Address) (id : ℕ) → cancel_proposal env c id s ≡ ok (tt, s') → Quiet s s'

Quiet-Effect : (s s' : Dao) → Quiet s s' → Effect s s'
Quiet-Effect s s' (initializing env admin token mv d h) =
    initialize-Effect env admin token mv d s s' h
Quiet-Effect s s' (transferring env c a h) = transfer_admin-Effect env c a s s' h
Quiet-Effect s s' (accepting env c h) = accept_admin-Effect env c s s' h
Quiet-Effect s s' (setting_token env c t h) = set_governance_token-Effect env c t s s' h
Quiet-Effect s s' (configuring env c mv d h) = set_voting_config-Effect env c mv d s s' h
Quiet-Effect s s' (proposing_fee b env c config n h) =
    create_fee_config_proposal-Effect b env c config n s s' h
Quiet-Effect s s' (proposing_toggle b env c on n h) =
    create_fee_toggle_proposal-Effect b env c on n s s' h
Quiet-Effect s s' (proposing_config b env c mv d n h) =
    create_gov_config_proposal-Effect b env c mv d n s s' h
Quiet-Effect s s' (proposing_pause b env c n h) = create_pause_proposal-Effect b env c n s s' h
Quiet-Effect s s' (proposing_unpause b env c n h) = create_unpause_proposal-Effect b env c n s s' h
Quiet-Effect s s' (executing env x id h) = execute_proposal-Effect env x id s s' h
Quiet-Effect s s' (cancelling env c id h) = cancel_proposal-Effect env c id s s' h

-- A returning call, with the ballots that it casts.
pub data Step (s s' : Dao) : List Ballot → Type 0 where
  quiet : Quiet s s' → Step s s' []
  voting_for :
      (balance : Balance) (env : Env) (v : Address) (id : ℕ)
      → vote_for balance env v id s ≡ ok (tt, s')
      → Step s s' (ballot id v true ∷ [])
  voting_against :
      (balance : Balance) (env : Env) (v : Address) (id : ℕ)
      → vote_against balance env v id s ≡ ok (tt, s')
      → Step s s' (ballot id v false ∷ [])

-- A history from `s`, with the ballots cast in it, the last one first.
pub data History (s : Dao) : List Ballot → Dao → Type 0 where
  start : History s [] s
  then_step :
      {t u : Dao} {log new : List Ballot}
      → History s log t
      → Step t u new
      → History s (new ++ log) u

abbrev Changes : Dao → Dao → Type 0
Changes s s' = Change s.proposals s'.proposals (next_id s) (next_id s')

Step-Changes : (s s' : Dao) (new : List Ballot) → Step s s' new → Changes s s'
unfolding increment_for increment_against set_voted
Step-Changes s s' new (quiet q) = (Quiet-Effect s s' q).change
Step-Changes s s' new (voting_for b env v id h) =
    let (p, found, live, early, fresh, signed, result) = vote_for-ok b env v id s s' h in
    subst (Changes s) (sym result) (moved id p p.status found live refl refl)
Step-Changes s s' new (voting_against b env v id h) =
    let (p, found, live, early, fresh, signed, result) = vote_against-ok b env v id s s' h in
    subst (Changes s) (sym result) (moved id p p.status found live refl refl)

Step-IsTally :
    (s s' : Dao) (new log : List Ballot) → Step s s' new → IsTally log s → IsTally (new ++ log) s'
Step-IsTally s s' new log (quiet q) t = Effect-IsTally log s s' (Quiet-Effect s s' q) t
Step-IsTally s s' new log (voting_for b env v id h) t =
    let (p, found, live, early, fresh, signed, result) = vote_for-ok b env v id s s' h in
    subst (IsTally (ballot id v true ∷ log)) (sym result) (voted_for-IsTally log id v p s fresh t)
Step-IsTally s s' new log (voting_against b env v id h) t =
    let (p, found, live, early, fresh, signed, result) = vote_against-ok b env v id s s' h in
    subst (IsTally (ballot id v false ∷ log)) (sym result)
      (voted_against-IsTally log id v p s fresh t)

abbrev pub deployed : Dao
deployed = record {
  admin = none;
  pending_admin = none;
  governance_token = none;
  min_votes = none;
  proposal_duration = none;
  next_proposal_id = none;
  proposals = λ n. none;
  votes_for = λ n. none;
  votes_against = λ n. none;
  voted = λ n a. none;
  attestation_fee_config = none;
  attestation_paused = none;
}

deployed-IsTally : IsTally [] deployed
unfolding get_votes_for get_votes_against has_voted count has_cast
deployed-IsTally = record {
  for_lem = λ id. ground arith;
  against_lem = λ id. ground arith;
  voted_lem = λ id v. ground arith;
  once = tt;
}

pub History-IsTally : (log : List Ballot) (s : Dao) → History deployed log s → IsTally log s
History-IsTally log s start = deployed-IsTally
History-IsTally log s (then_step {t} {log = old} {new} past st) =
    Step-IsTally t s new old st (History-IsTally old t past)

pub History-IsNumbered :
    (log : List Ballot) (s : Dao) → History deployed log s → IsNumbered s.proposals (next_id s)
History-IsNumbered log s start = λ n p e. absurd (ground arith)
History-IsNumbered log s (then_step {t} {log = old} {new} past st) =
    Change-IsNumbered t.proposals s.proposals (next_id t) (next_id s) (Step-Changes t s new st)
      (History-IsNumbered old t past)

pub Step-settled :
    (s s' : Dao) (new : List Ballot) (n : ℕ) (p : Proposal)
    → Step s s' new
    → IsNumbered s.proposals (next_id s)
    → s.proposals n ≡ some p
    → is_pending p.status ≡ false
    → s'.proposals n ≡ some p
Step-settled s s' new n p st =
    Change-settled s.proposals s'.proposals (next_id s) (next_id s') n p (Step-Changes s s' new st)

pub Step-IsNumbered :
    (s s' : Dao) (new : List Ballot)
    → Step s s' new
    → IsNumbered s.proposals (next_id s)
    → IsNumbered s'.proposals (next_id s')
Step-IsNumbered s s' new st =
    Change-IsNumbered s.proposals s'.proposals (next_id s) (next_id s') (Step-Changes s s' new st)
