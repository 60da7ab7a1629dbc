-- ===== src/Multisig/Quorum.antt =====
-- What executions and approvals mean after every history of governance calls.
use veritasor_contracts.Prelude.{
  ℕ, suc, ◌≤◌, ◌≡◌, refl, ◌∙◌, ap, subst, true, false, List, [], ◌∷◌, ◌++◌, some, get_or, Env,
  Address, ok, arith, ◌==◌, ==_iff, length, contains, All, Distinct, store,
}
use veritasor_contracts.Multisig.Types.{Multisig, VoteWeightSnapshot}
use veritasor_contracts.Multisig.Calls.{
  get_owners, get_threshold, get_approvals, is_owner, approve_proposal, count_in,
  effective_threshold, get_approval_count, mark_executed,
}
use veritasor_contracts.Multisig.Tally.{
  IsFair, count_in-All, frame-IsFair, add_owner-IsFair, remove_owner-IsFair,
  rotate_threshold-IsFair, initialize_multisig-IsFair, reject_proposal-IsFair,
  create_proposal-IsFair, approve_proposal-IsFair, mark_executed-ok, approve_proposal-ok,
  vote-listed, store_same, store_other,
}
use veritasor_contracts.Multisig.Histories.{
  Step, initializing, creating, approving, rejecting, executing, adding_owner, removing_owner,
  rotating, History, done, call, deployed, Created,
}
use veritasor_contracts.Multisig.Origins.{found-Traced}

mark_executed-IsFair :
    (env : Env) (n : ℕ) (s s' : Multisig) (id : ℕ)
    → mark_executed env n s ≡ ok (tt, s')
    → IsFair s id
    → IsFair s' id
mark_executed-IsFair env n s s' id h =
    let (p, found, live, early, enough, marked, snap, appr) = mark_executed-ok env n s s' h in
    frame-IsFair s s' id (ap (λ f. f id) snap) (ap (λ f. f id) appr)

Step-IsFair : {s s' : Multisig} (id : ℕ) → Step s s' → IsFair s id → IsFair s' id
Step-IsFair {s} {s'} id (initializing owners n h) = initialize_multisig-IsFair owners n s s' id h
Step-IsFair {s} {s'} id (creating env a action n h) =
    create_proposal-IsFair env a action n s s' id h
Step-IsFair {s} {s'} id (approving env a n h) = approve_proposal-IsFair env a n s s' id h
Step-IsFair {s} {s'} id (rejecting env a n h) = reject_proposal-IsFair env a n s s' id h
Step-IsFair {s} {s'} id (executing env n h) = mark_executed-IsFair env n s s' id h
Step-IsFair {s} {s'} id (adding_owner env a h) = add_owner-IsFair env a s s' id h
Step-IsFair {s} {s'} id (removing_owner a h) = remove_owner-IsFair a s s' id h
Step-IsFair {s} {s'} id (rotating n h) = rotate_threshold-IsFair n s s' id h

History-IsFair : {s s' : Multisig} (id : ℕ) → History s s' → IsFair s id → IsFair s' id
History-IsFair id done fair = fair
History-IsFair id (call past st) fair = Step-IsFair id st (History-IsFair id past fair)

deployed-IsFair : (id : ℕ) → IsFair deployed id
deployed-IsFair id v e = absurd (ground arith)

counted :
    (id : ℕ) (s : Multisig) (v : VoteWeightSnapshot)
    → s.snapshots id ≡ some v
    → All (λ a. contains v.owners a ≡ true) (get_approvals id s)
    → effective_threshold id s ≤ get_approval_count id s
    → v.threshold ≤ length (get_approvals id s)
unfolding effective_threshold get_approval_count
counted id s v e listed enough =
    let all = count_in-All v.owners (get_approvals id s) listed in
    let reached = rw (e, effective_threshold, get_approval_count) at enough in
    omega (arith, all, reached)

fair_votes :
    (id : ℕ) (s : Multisig) (v : VoteWeightSnapshot)
    → IsFair s id
    → s.snapshots id ≡ some v
    → Distinct (get_approvals id s) × All (λ a. contains v.owners a ≡ true) (get_approvals id s)
fair_votes id s v fair e = fair v e

-- After any history of proposals, approvals, rejections, executions and owner or threshold changes
-- from deployment on, a proposal can only be marked executed when it was created in that history and
-- its approvals come from distinct owners of the storage at its creation, at least as many as the
-- threshold of that storage.
pub mark_executed_quorum :
    (env : Env) (id : ℕ) (s s' : Multisig)
    → History deployed s
    → mark_executed env id s ≡ ok (tt, s')
    → (c : Created id s) × Distinct (get_approvals id s)
      × All (λ a. contains (get_owners c.before) a ≡ true) (get_approvals id s)
      × (get_threshold c.before ≤ length (get_approvals id s))
mark_executed_quorum env id s s' past h =
    let (p, found, live, early, enough, marked, snap, appr) = mark_executed-ok env id s s' h in
    let t = found-Traced id s p past found in
    let v = t.snapshot in
    let (distinct, listed) =
      fair_votes id s v (History-IsFair id past (deployed-IsFair id)) t.stored in
    (
      t.origin,
      distinct,
      subst (λ xs. All (λ a. contains xs a ≡ true) (get_approvals id s)) t.same_owners listed,
      subst (λ n. n ≤ length (get_approvals id s)) t.same_threshold
          (counted id s v t.stored listed enough),
    )

count_in-append :
    (owners votes : List Address) (a : Address)
    → contains owners a ≡ true
    → count_in owners (votes ++ a ∷ []) ≡ suc (count_in owners votes)
unfolding count_in
count_in-append owners [] a h = ground arith
count_in-append owners (b ∷ rest) a h = ground (arith, count_in-append owners rest a h)

count-appended :
    (a : Address) (id : ℕ) (s s' : Multisig) (v : VoteWeightSnapshot)
    → s.snapshots id ≡ some v
    → s'.snapshots ≡ s.snapshots
    → contains v.owners a ≡ true
    → get_approvals id s' ≡ get_approvals id s ++ a ∷ []
    → get_approval_count id s' ≡ suc (get_approval_count id s)
unfolding get_approval_count
count-appended a id s s' v e snap listed votes =
    let same : s'.snapshots id ≡ some v = ap (λ f. f id) snap ∙ e in
    ground (arith, same, e, votes, count_in-append v.owners (get_approvals id s) a listed)

-- After any history from deployment on, an approval that returns is for a proposal that was created
-- in that history, signed by an address that was an owner at its creation, that still is one and that
-- had not approved it, and it raises the count of the proposal by exactly one, with the approver put
-- at the end of its approvals and the approvals of every other proposal as they were.
pub approve_proposal_counts :
    (env : Env) (a : Address) (id : ℕ) (s s' : Multisig)
    → History deployed s
    → approve_proposal env a id s ≡ ok (tt, s')
    → (c : Created id s) × (contains (get_owners c.before) a ≡ true)
      × (contains (get_owners s) a ≡ true)
      × (env.authorized a ≡ true)
      × (contains (get_approvals id s) a ≡ false)
      × (get_approval_count id s' ≡ suc (get_approval_count id s))
      × (get_approvals id s' ≡ get_approvals id s ++ a ∷ [])
      × ((k : ℕ) → (id == k) ≡ false → get_approvals k s' ≡ get_approvals k s)
unfolding get_approvals is_owner
approve_proposal_counts env a id s s' past h =
    let (p, found, live, signed, early, vote, owner, new, after) =
      approve_proposal-ok env a id s s' h in
    let t = found-Traced id s p past found in
    let listed = vote-listed a id s t.snapshot vote t.stored in
    let appr : s'.approvals ≡ store s.approvals id (get_approvals id s ++ a ∷ []) =
      ap (λ x. x.approvals) after in
    let votes : get_approvals id s' ≡ get_approvals id s ++ a ∷ [] =
      ap (λ f. get_or (f id) []) appr
      ∙ ap (λ x. get_or x [])
          (store_same s.approvals id id (get_approvals id s ++ a ∷ []) ((==_iff id id).1 refl)) in
    (
      t.origin,
      subst (λ xs. contains xs a ≡ true) t.same_owners listed,
      owner,
      signed,
      new,
      count-appended a id s s' t.snapshot t.stored (ap (λ x. x.snapshots) after) listed votes,
      votes,
      λ k other.
          ap (λ f. get_or (f k) []) appr
          ∙ ap (λ x. get_or x [])
              (store_other s.approvals id k (get_approvals id s ++ a ∷ []) other),
    )
