-- ===== src/Multisig/Tally.antt =====
-- The tally of a proposal: who has approved it, and what an execution needs.
use veritasor_contracts.Prelude.{
  ℕ, ◌+◌, ◌≤◌, ◌≡◌, refl, sym, ◌∙◌, ap, true, false, List, [], ◌∷◌, ◌++◌, Option, some, Env,
  Address, ok, arith, ◌==◌, length, contains, All, All-append, Distinct, Option-cases, Bool-cases,
  inl, inr, store, get_or, ==_iff, subst, some_injective,
}
use veritasor_contracts.Multisig.Types.{
  Multisig, Proposal, ProposalAction, ProposalStatus, VoteWeightSnapshot, pending, executed,
  rejected,
}
use veritasor_contracts.Multisig.Calls.{
  is_pending, is_change_threshold, get_owners, get_threshold, is_owner, set_owners,
  rotate_threshold, initialize_multisig, check_cooldown, create_proposal, new_snapshot,
  new_proposal, get_approvals, is_proposal_expired, may_vote, approve_proposal, reject_proposal,
  effective_threshold, count_in, get_approval_count, is_proposal_approved, mark_executed, add_owner,
  remove_owner,
}

-- The approvals of a proposal are distinct and come from its snapshot.
abbrev pub IsFair : Multisig → ℕ → Type 0
IsFair s id =
    (v : VoteWeightSnapshot)
    → s.snapshots id ≡ some v
    → Distinct (get_approvals id s) × All (λ a. contains v.owners a ≡ true) (get_approvals id s)

contains-append :
    (xs : List ℕ) (a b : ℕ)
    → contains xs b ≡ false
    → (a == b) ≡ false
    → contains (xs ++ a ∷ []) b ≡ false
contains-append [] a b h ne = ground arith
contains-append (x ∷ xs) a b h ne = ground (arith, contains-append xs a b)

pub Distinct-append :
    (xs : List ℕ) (a : ℕ) → Distinct xs → contains xs a ≡ false → Distinct (xs ++ a ∷ [])
Distinct-append [] a d new = (refl, tt)
Distinct-append (x ∷ xs) a d new =
    (contains-append xs a x d.0 (ground arith), Distinct-append xs a d.1 (ground arith))

pub count_in-All :
    (owners votes : List Address)
    → All (λ a. contains owners a ≡ true) votes
    → count_in owners votes ≡ length votes
unfolding count_in
count_in-All owners [] h = refl
count_in-All owners (a ∷ rest) h = ground (arith, h, count_in-All owners rest h.1)

-- A call that keeps the snapshot and the approvals of a proposal keeps its fairness.
pub frame-IsFair :
    (s s' : Multisig) (id : ℕ)
    → s'.snapshots id ≡ s.snapshots id
    → s'.approvals id ≡ s.approvals id
    → IsFair s id
    → IsFair s' id
unfolding get_approvals
frame-IsFair s s' id snap appr fair v e = rw appr (fair v (sym snap ∙ e))

pub add_owner-IsFair :
    (env : Env) (a : Address) (s s' : Multisig) (id : ℕ)
    → add_owner env a s ≡ ok (tt, s')
    → IsFair s id
    → IsFair s' id
unfolding add_owner set_owners
add_owner-IsFair env a s s' id h = frame-IsFair s s' id (ground arith) (ground arith)

pub remove_owner-IsFair :
    (a : Address) (s s' : Multisig) (id : ℕ)
    → remove_owner a s ≡ ok (tt, s')
    → IsFair s id
    → IsFair s' id
unfolding remove_owner set_owners
remove_owner-IsFair a s s' id h = frame-IsFair s s' id (ground arith) (ground arith)

pub rotate_threshold-IsFair :
    (n : ℕ) (s s' : Multisig) (id : ℕ)
    → rotate_threshold n s ≡ ok (tt, s')
    → IsFair s id
    → IsFair s' id
unfolding rotate_threshold
rotate_threshold-IsFair n s s' id h = frame-IsFair s s' id (ground arith) (ground arith)

pub initialize_multisig-IsFair :
    (owners : List Address) (n : ℕ) (s s' : Multisig) (id : ℕ)
    → initialize_multisig owners n s ≡ ok (tt, s')
    → IsFair s id
    → IsFair s' id
unfolding initialize_multisig set_owners
initialize_multisig-IsFair owners n s s' id h = frame-IsFair s s' id (ground arith) (ground arith)

pub reject_proposal-IsFair :
    (env : Env) (a : Address) (n : ℕ) (s s' : Multisig) (id : ℕ)
    → reject_proposal env a n s ≡ ok (tt, s')
    → IsFair s id
    → IsFair s' id
unfolding reject_proposal
reject_proposal-IsFair env a n s s' id h = elim (Option-cases (s.proposals n)) [
  | inl absent ↦ absurd (ground arith)
  | inr (p, e) ↦ frame-IsFair s s' id (ground arith) (ground arith)
]

pending_of : (x : ProposalStatus) → is_pending x ≡ true → x ≡ pending
pending_of pending h = refl
pending_of executed h = absurd (ground arith)
pending_of rejected h = absurd (ground arith)
pending_of ProposalStatus.expired h = absurd (ground arith)

-- A proposal that is marked executed was pending and not expired, its count had reached its
-- effective threshold, and it ends executed with every snapshot and approval as it was.
pub mark_executed-ok :
    (env : Env) (id : ℕ) (s s' : Multisig)
    → mark_executed env id s ≡ ok (tt, s')
    → (p : Proposal) × (s.proposals id ≡ some p)
      × (p.status ≡ pending)
      × (is_proposal_expired env id s ≡ false)
      × (effective_threshold id s ≤ get_approval_count id s)
      × (s'.proposals id ≡ some (record p { status = executed }))
      × (s'.snapshots ≡ s.snapshots)
      × (s'.approvals ≡ s.approvals)
unfolding mark_executed is_proposal_approved
mark_executed-ok env id s s' h = elim (Option-cases (s.proposals id)) [
  | inl absent ↦ absurd (ground arith)
  | inr (p, e) ↦ (
    p,
    e,
    pending_of p.status (ground arith),
    ground arith,
    ground arith,
    ground arith,
    ground arith,
    ground arith,
  )
]

-- A proposal is created by an owner, whose approval is its first, with a snapshot of that moment.
pub create_proposal-ok :
    (env : Env) (a : Address) (action : ProposalAction) (n : ℕ) (s s' : Multisig)
    → create_proposal env a action s ≡ ok (n, s')
    → (contains (get_owners s) a ≡ true)
      × (s'.snapshots
          ≡ store s.snapshots n
              (new_snapshot env action (record s { next_proposal_id = some (n + 1) })))
      × (s'.approvals ≡ store s.approvals n (a ∷ []))
      × (s'.proposals ≡ store s.proposals n (new_proposal env n a action))
unfolding create_proposal check_cooldown is_owner get_owners get_threshold
create_proposal-ok env a action n s s' h = elim (Bool-cases (is_change_threshold action)) [
  | inl change ↦ (
    ground (arith, change),
    ground (arith, change),
    ground (arith, change),
    ground (arith, change),
  )
  | inr other ↦
      (ground (arith, other), ground (arith, other), ground (arith, other), ground (arith, other))
]

pub store_same :
    {A : Type 0} (m : ℕ → Option A) (n id : ℕ) (x : A) → (n == id) ≡ true → store m n x id ≡ some x
store_same m n id x h = rw h

pub store_other :
    {A : Type 0} (m : ℕ → Option A) (n id : ℕ) (x : A) → (n == id) ≡ false → store m n x id ≡ m id
store_other m n id x h = rw h

pub create_proposal-IsFair :
    (env : Env) (a : Address) (action : ProposalAction) (n : ℕ) (s s' : Multisig) (id : ℕ)
    → create_proposal env a action s ≡ ok (n, s')
    → IsFair s id
    → IsFair s' id
unfolding get_approvals get_owners
create_proposal-IsFair env a action n s s' id h fair v e =
    let (owner, snap, appr, props) = create_proposal-ok env a action n s s' h in
    let made : VoteWeightSnapshot =
      new_snapshot env action (record s { next_proposal_id = some (n + 1) }) in
    elim (Bool-cases (n == id)) [
      | inl same ↦
          let at_id : s'.snapshots id ≡ some made =
            ap (λ f. f id) snap ∙ store_same s.snapshots n id made same in
          let votes : s'.approvals id ≡ some (a ∷ []) =
            ap (λ f. f id) appr ∙ store_same s.approvals n id (a ∷ []) same in
          let v_made : v ≡ made = some_injective v made (sym e ∙ at_id) in
          subst (λ w. Distinct (get_or w []) × All (λ b. contains v.owners b ≡ true) (get_or w []))
            (sym votes)
            (subst (λ z. Distinct (a ∷ []) × All (λ b. contains z.owners b ≡ true) (a ∷ []))
              (sym v_made) ((refl, tt), (owner, tt)))
      | inr other ↦
          frame-IsFair s s' id (ap (λ f. f id) snap ∙ store_other s.snapshots n id made other)
            (ap (λ f. f id) appr ∙ store_other s.approvals n id (a ∷ []) other) fair v e
    ]

-- An approval that returns has passed every guard of the function, and it is appended.
pub approve_proposal-ok :
    (env : Env) (a : Address) (n : ℕ) (s s' : Multisig)
    → approve_proposal env a n s ≡ ok (tt, s')
    → (p : Proposal) × (s.proposals n ≡ some p)
      × (p.status ≡ pending)
      × (env.authorized a ≡ true)
      × (is_proposal_expired env n s ≡ false)
      × (may_vote a n s ≡ true)
      × (is_owner a s ≡ true)
      × (contains (get_approvals n s) a ≡ false)
      × (s' ≡ record s { approvals = store s.approvals n (get_approvals n s ++ a ∷ []) })
unfolding approve_proposal
approve_proposal-ok env a n s s' h = elim (Option-cases (s.proposals n)) [
  | inl absent ↦ absurd (ground arith)
  | inr (p, e) ↦ (
    p,
    e,
    pending_of p.status (ground arith),
    ground arith,
    ground arith,
    ground arith,
    ground arith,
    ground arith,
    ground arith,
  )
]

pub vote-listed :
    (a : Address) (id : ℕ) (s : Multisig) (v : VoteWeightSnapshot)
    → may_vote a id s ≡ true
    → s.snapshots id ≡ some v
    → contains v.owners a ≡ true
unfolding may_vote
vote-listed a id s v h e = rw (e, may_vote) at h

pub approve_proposal-IsFair :
    (env : Env) (a : Address) (n : ℕ) (s s' : Multisig) (id : ℕ)
    → approve_proposal env a n s ≡ ok (tt, s')
    → IsFair s id
    → IsFair s' id
unfolding get_approvals
approve_proposal-IsFair env a n s s' id h fair v e =
    let (p, found, live, signed, early, vote, owner, new, after) =
      approve_proposal-ok env a n s s' h in
    let snap : s'.snapshots id ≡ s.snapshots id = ap (λ t. t.snapshots id) after in
    let appr : s'.approvals ≡ store s.approvals n (get_approvals n s ++ a ∷ []) =
      ap (λ t. t.approvals) after in
    let (distinct, listed) = fair v (sym snap ∙ e) in
    elim (Bool-cases (n == id)) [
      | inl same ↦
          let here : n ≡ id = (==_iff n id).0 same in
          let votes : s'.approvals id ≡ some (get_approvals id s ++ a ∷ []) =
            ap (λ f. f id) appr
            ∙ store_same s.approvals n id (get_approvals n s ++ a ∷ []) same
            ∙ ap (λ k. some (get_approvals k s ++ a ∷ [])) here in
          let new' : contains (get_approvals id s) a ≡ false =
            ap (λ k. contains (get_approvals k s) a) (sym here) ∙ new in
          let vote' : may_vote a id s ≡ true = ap (λ k. may_vote a k s) (sym here) ∙ vote in
          subst (λ w. Distinct (get_or w []) × All (λ b. contains v.owners b ≡ true) (get_or w []))
            (sym votes)
            (
              Distinct-append (get_approvals id s) a distinct new',
              All-append (λ b. contains v.owners b ≡ true) (get_approvals id s) (a ∷ []) listed
                  (vote-listed a id s v vote' (sym snap ∙ e), tt),
            )
      | inr other ↦
          frame-IsFair s s' id snap
            (ap (λ f. f id) appr ∙ store_other s.approvals n id (get_approvals n s ++ a ∷ []) other)
            fair v e
    ]
