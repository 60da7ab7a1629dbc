-- ===== src/Dao/Quorum.antt =====
-- What histories of calls of the DAO guarantee.
use veritasor_contracts.Prelude.{
  ℕ, ◌+◌, ◌≤◌, ◌<◌, ◌≡◌, true, false, List, some, Env, Address, ok, arith, min,
}
use veritasor_contracts.Prelude.Int.{u32_max}
use veritasor_contracts.Dao.Types.{Proposal, Dao}
use veritasor_contracts.Dao.Config.{get_min_votes}
use veritasor_contracts.Dao.Calls.{
  is_pending, get_votes_for, get_votes_against, has_voted, quorum_met, has_majority,
  execute_proposal,
}
use veritasor_contracts.Dao.Status.{IsNumbered, next_id}
use veritasor_contracts.Dao.Settle.{execute_proposal-ok}
use veritasor_contracts.Dao.Ballots.{Ballot, count, has_cast, IsOnce}
use veritasor_contracts.Dao.Steps.{
  History, start, then_step, deployed, History-IsTally, History-IsNumbered, Step-settled,
  Step-IsNumbered,
}

-- From deployment on, whatever is called, the stored counters of every proposal are the numbers of
-- the ballots cast for and against it, up to the largest `u32`; an address is marked as having
-- voted exactly when it cast a ballot; and no address has cast two ballots on one proposal.
pub tally_refines :
    (log : List Ballot) (s : Dao) (id : ℕ) (v : Address)
    → History deployed log s
    → (get_votes_for id s ≡ min (count id true log) u32_max)
      × (get_votes_against id s ≡ min (count id false log) u32_max)
      × (has_voted id v s ≡ has_cast id v log)
      × IsOnce log
tally_refines log s id v past =
    let t = History-IsTally log s past in (t.for_lem id, t.against_lem id, t.voted_lem id v, t.once)

-- From deployment on, a proposal is only executed when more distinct addresses have voted for it
-- than against it, and at least as many as the quorum in force have voted at all.
pub execute_proposal_quorum :
    (log : List Ballot) (s s' : Dao) (env : Env) (x : Address) (id : ℕ)
    → History deployed log s
    → execute_proposal env x id s ≡ ok (tt, s')
    → IsOnce log
      × (count id false log < count id true log)
      × (get_min_votes s ≤ count id true log + count id false log)
unfolding quorum_met has_majority
execute_proposal_quorum log s s' env x id past h =
    let t = History-IsTally log s past in
    let (p, r, found, live, early, enough, won, ran, result) =
      execute_proposal-ok env x id s s' h in
    (
      t.once,
      ground (arith, won, t.for_lem id, t.against_lem id),
      ground (arith, enough, t.for_lem id, t.against_lem id),
    )

settled_later :
    (s s' : Dao) (log : List Ballot) (n : ℕ) (p : Proposal)
    → IsNumbered s.proposals (next_id s)
    → s.proposals n ≡ some p
    → is_pending p.status ≡ false
    → History s log s'
    → (s'.proposals n ≡ some p) × IsNumbered s'.proposals (next_id s')
settled_later s s' log n p v e settled start = (e, v)
settled_later s s' log n p v e settled (then_step {t} {log = old} {new} past st) =
    let (at_t, v_t) = settled_later s t old n p v e settled past in
    (Step-settled t s' new n p st v_t at_t settled, Step-IsNumbered t s' new st v_t)

-- A proposal that is executed or rejected after some history from deployment stays exactly as it is
-- through every later history.
pub settled_forever :
    (log later : List Ballot) (s s' : Dao) (n : ℕ) (p : Proposal)
    → History deployed log s
    → s.proposals n ≡ some p
    → is_pending p.status ≡ false
    → History s later s'
    → s'.proposals n ≡ some p
settled_forever log later s s' n p past e settled future =
    (settled_later s s' later n p (History-IsNumbered log s past) e settled future).0
