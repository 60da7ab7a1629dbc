-- ===== src/Multisig/Examples.antt =====
-- A run of the governance calls, and the theorems at its states.
use veritasor_contracts.Prelude.{
  ℕ, suc, ◌==◌, arith, ◌≤◌, ◌≡◌, refl, true, false, [], ◌∷◌, ◌++◌, some, Env, ok, err, length,
  contains, All, Distinct, store,
}
use veritasor_contracts.Multisig.Types.{
  Multisig, Proposal, VoteWeightSnapshot, not_in_snapshot, not_pending, pause, pending, executed,
}
use veritasor_contracts.Multisig.Calls.{
  initialize_multisig, create_proposal, check_cooldown, approve_proposal, mark_executed, add_owner,
  remove_owner, get_approvals, get_owners, get_threshold, effective_threshold, get_approval_count,
  is_proposal_approved, is_proposal_expired, is_owner, may_vote, set_owners, action_tag_of,
  count_in, without,
}
use veritasor_contracts.Multisig.Histories.{
  History, done, call, initializing, creating, approving, adding_owner, deployed, Created,
}
use veritasor_contracts.Multisig.Quorum.{mark_executed_quorum, approve_proposal_counts}
use veritasor_contracts.Multisig.Quorate.{IsQuorate, History-IsQuorate}
use veritasor_contracts.Multisig.Frozen.{tally, adding, tally-Change}

abbrev at : ℕ → Env
at n = record { timestamp = 0; sequence = n; authorized = λ a. true; current_contract = 99 }

program : Unit {0}
unfolding initialize_multisig create_proposal check_cooldown approve_proposal mark_executed
    add_owner remove_owner get_approvals get_owners get_threshold effective_threshold
    get_approval_count is_proposal_approved is_proposal_expired is_owner may_vote set_owners
    action_tag_of count_in without
program = tt

-- Owners 1, 2 and 3 with a threshold of 2.
abbrev g1 : Multisig
g1 = record deployed { owners = some (1 ∷ 2 ∷ 3 ∷ []); threshold = some 2 }

abbrev snapshot_0 : VoteWeightSnapshot
snapshot_0 = record {
  owners = 1 ∷ 2 ∷ 3 ∷ [];
  threshold = 2;
  total_weight = 3;
  created_at = 50;
  action_tag = 1;
}

abbrev proposal_0 : Proposal
proposal_0 = record { id = 0; action = pause; proposer = 1; status = pending; created_at = 50 }

-- Owner 1 proposes a pause, then 4 joins, then 2 approves.
abbrev g2 : Multisig
g2 = record g1 {
  next_proposal_id = some 1;
  snapshots = store g1.snapshots 0 snapshot_0;
  proposals = store g1.proposals 0 proposal_0;
  proposal_expiry = store g1.proposal_expiry 0 100050;
  approvals = store g1.approvals 0 (1 ∷ []);
}

abbrev g3 : Multisig
g3 = record g2 { owners = some (1 ∷ 2 ∷ 3 ∷ 4 ∷ []) }

abbrev g4 : Multisig
g4 = record g3 { approvals = store g3.approvals 0 (1 ∷ 2 ∷ []) }

abbrev g5 : Multisig
g5 = record g4 { proposals = store g4.proposals 0 (record proposal_0 { status = executed }) }

ran_1 : initialize_multisig (1 ∷ 2 ∷ 3 ∷ []) 2 deployed ≡ ok (tt, g1)
unfolding program
ran_1 = refl

ran_2 : create_proposal (at 50) 1 pause g1 ≡ ok (0, g2)
unfolding program
ran_2 = refl

ran_3 : add_owner (at 60) 4 g2 ≡ ok (tt, g3)
unfolding program
ran_3 = refl

-- The owner who joined after the proposal has no vote on it.
late_owner : approve_proposal (at 61) 4 0 g3 ≡ err not_in_snapshot
unfolding program
late_owner = refl

ran_4 : approve_proposal (at 62) 2 0 g3 ≡ ok (tt, g4)
unfolding program
ran_4 = refl

ran_5 : mark_executed (at 70) 0 g4 ≡ ok (tt, g5)
unfolding program
ran_5 = refl

again : mark_executed (at 71) 0 g5 ≡ err not_pending
unfolding program
again = refl

History-3 : History deployed g3
History-3 =
    call
      (call (call done (initializing (1 ∷ 2 ∷ 3 ∷ []) 2 ran_1)) (creating (at 50) 1 pause 0 ran_2))
      (adding_owner (at 60) 4 ran_3)

mark_executed_quorum_example :
    (c : Created 0 g4) × Distinct (get_approvals 0 g4)
    × All (λ a. contains (get_owners c.before) a ≡ true) (get_approvals 0 g4)
    × (get_threshold c.before ≤ length (get_approvals 0 g4))
mark_executed_quorum_example =
    mark_executed_quorum (at 70) 0 g4 g5 (call History-3 (approving (at 62) 2 0 ran_4)) ran_5

approve_proposal_counts_example :
    (c : Created 0 g3) × (contains (get_owners c.before) 2 ≡ true)
    × (contains (get_owners g3) 2 ≡ true)
    × ((at 62).authorized 2 ≡ true)
    × (contains (get_approvals 0 g3) 2 ≡ false)
    × (get_approval_count 0 g4 ≡ suc (get_approval_count 0 g3))
    × (get_approvals 0 g4 ≡ get_approvals 0 g3 ++ 2 ∷ [])
    × ((k : ℕ) → (0 == k) ≡ false → get_approvals k g4 ≡ get_approvals k g3)
approve_proposal_counts_example = approve_proposal_counts (at 62) 2 0 g3 g4 History-3 ran_4

tally-Change_example : tally 0 g3 ≡ tally 0 g2
tally-Change_example = tally-Change 0 g2 g3 snapshot_0 refl (adding (at 60) 4 ran_3)

removed : remove_owner 3 g1 ≡ ok (tt, record g1 { owners = some (1 ∷ 2 ∷ []) })
unfolding program
removed = refl

History-IsQuorate_example : IsQuorate g4
unfolding program
History-IsQuorate_example =
    History-IsQuorate (1 ∷ 2 ∷ 3 ∷ []) 2 g1 g4 (refl, (refl, (refl, tt))) (omega arith)
      (omega arith) ran_1
      (call (call (call done (creating (at 50) 1 pause 0 ran_2)) (adding_owner (at 60) 4 ran_3))
        (approving (at 62) 2 0 ran_4))
