-- ===== src/Multisig/Origins.antt =====
-- The creation that each stored proposal goes back to.
use veritasor_contracts.Prelude.{
  ℕ, ◌≡◌, refl, ◌+◌, ◌⊎◌, inl, inr, sym, ◌∙◌, ap, List, none, some, Env, Address, ok, arith, ◌==◌,
  Option-cases, Bool-cases, ==_iff,
}
use veritasor_contracts.Multisig.Types.{Multisig, Proposal, ProposalAction, VoteWeightSnapshot}
use veritasor_contracts.Multisig.Calls.{
  get_owners, get_threshold, set_owners, initialize_multisig, rotate_threshold, create_proposal,
  approve_proposal, reject_proposal, mark_executed, add_owner, remove_owner, new_snapshot,
  new_proposal,
}
use veritasor_contracts.Multisig.Tally.{create_proposal-ok, store_same, store_other}
use veritasor_contracts.Multisig.Histories.{
  Step, initializing, creating, approving, rejecting, executing, adding_owner, removing_owner,
  rotating, History, done, call, deployed, Creation, Created,
}

-- What a call leaves of a proposal that it does not create.
Frame : ℕ → Multisig → Multisig → Type 0
Frame id s s' =
    (s'.snapshots id ≡ s.snapshots id) × (s.proposals id ≡ none → s'.proposals id ≡ none)

frame :
    (id : ℕ) (s s' : Multisig)
    → s'.snapshots ≡ s.snapshots
    → s'.proposals ≡ s.proposals
    → Frame id s s'
unfolding Frame
frame id s s' snap props = (ap (λ f. f id) snap, λ e. ap (λ f. f id) props ∙ e)

initialize_multisig-Frame :
    (owners : List Address) (n : ℕ) (s s' : Multisig) (id : ℕ)
    → initialize_multisig owners n s ≡ ok (tt, s')
    → Frame id s s'
unfolding initialize_multisig set_owners
initialize_multisig-Frame owners n s s' id h = frame id s s' (ground arith) (ground arith)

approve_proposal-Frame :
    (env : Env) (a : Address) (n : ℕ) (s s' : Multisig) (id : ℕ)
    → approve_proposal env a n s ≡ ok (tt, s')
    → Frame id s s'
unfolding approve_proposal
approve_proposal-Frame env a n s s' id h = elim (Option-cases (s.proposals n)) [
  | inl absent ↦ absurd (ground arith)
  | inr (p, e) ↦ frame id s s' (ground arith) (ground arith)
]

add_owner-Frame :
    (env : Env) (a : Address) (s s' : Multisig) (id : ℕ)
    → add_owner env a s ≡ ok (tt, s')
    → Frame id s s'
unfolding add_owner set_owners
add_owner-Frame env a s s' id h = frame id s s' (ground arith) (ground arith)

remove_owner-Frame :
    (a : Address) (s s' : Multisig) (id : ℕ) → remove_owner a s ≡ ok (tt, s') → Frame id s s'
unfolding remove_owner set_owners
remove_owner-Frame a s s' id h = frame id s s' (ground arith) (ground arith)

rotate_threshold-Frame :
    (n : ℕ) (s s' : Multisig) (id : ℕ) → rotate_threshold n s ≡ ok (tt, s') → Frame id s s'
unfolding rotate_threshold
rotate_threshold-Frame n s s' id h = frame id s s' (ground arith) (ground arith)

reject_proposal-Frame :
    (env : Env) (a : Address) (n : ℕ) (s s' : Multisig) (id : ℕ)
    → reject_proposal env a n s ≡ ok (tt, s')
    → Frame id s s'
unfolding reject_proposal Frame
reject_proposal-Frame env a n s s' id h = elim (Option-cases (s.proposals n)) [
  | inl absent ↦ absurd (ground arith)
  | inr (p, e) ↦ elim (Bool-cases (n == id)) [
    | inl same ↦ (
      ground arith,
      λ none_at. absurd (ground (arith, sym e ∙ ap s.proposals ((==_iff n id).0 same) ∙ none_at)),
    )
    | inr other ↦ (ground arith, λ none_at. ground (arith, other))
  ]
]

mark_executed-Frame :
    (env : Env) (n : ℕ) (s s' : Multisig) (id : ℕ)
    → mark_executed env n s ≡ ok (tt, s')
    → Frame id s s'
unfolding mark_executed Frame
mark_executed-Frame env n s s' id h = elim (Option-cases (s.proposals n)) [
  | inl absent ↦ absurd (ground arith)
  | inr (p, e) ↦ elim (Bool-cases (n == id)) [
    | inl same ↦ (
      ground arith,
      λ none_at. absurd (ground (arith, sym e ∙ ap s.proposals ((==_iff n id).0 same) ∙ none_at)),
    )
    | inr other ↦ (ground arith, λ none_at. ground (arith, other))
  ]
]

create_proposal-Frame :
    (env : Env) (a : Address) (action : ProposalAction) (n : ℕ) (s s' : Multisig) (id : ℕ)
    → create_proposal env a action s ≡ ok (n, s')
    → Creation id s s' ⊎ Frame id s s'
unfolding Frame
create_proposal-Frame env a action n s s' id h =
    let (owner, snap, appr, props) = create_proposal-ok env a action n s s' h in
    let made : VoteWeightSnapshot =
      new_snapshot env action (record s { next_proposal_id = some (n + 1) }) in
    elim (Bool-cases (n == id)) [
      | inl same ↦ inl (record {
        env = env;
        proposer = a;
        action = action;
        created = h ∙ ap (λ k. ok (k, s')) ((==_iff n id).0 same);
      })
      | inr other ↦ inr (
        ap (λ f. f id) snap ∙ store_other s.snapshots n id made other,
        λ e.
            ap (λ f. f id) props
            ∙ store_other s.proposals n id (new_proposal env n a action) other
            ∙ e,
      )
    ]

Step-Frame : (id : ℕ) (s s' : Multisig) → Step s s' → Creation id s s' ⊎ Frame id s s'
Step-Frame id s s' (initializing xs n h) = inr (initialize_multisig-Frame xs n s s' id h)
Step-Frame id s s' (creating env a action n h) = create_proposal-Frame env a action n s s' id h
Step-Frame id s s' (approving env a n h) = inr (approve_proposal-Frame env a n s s' id h)
Step-Frame id s s' (rejecting env a n h) = inr (reject_proposal-Frame env a n s s' id h)
Step-Frame id s s' (executing env n h) = inr (mark_executed-Frame env n s s' id h)
Step-Frame id s s' (adding_owner env a h) = inr (add_owner-Frame env a s s' id h)
Step-Frame id s s' (removing_owner a h) = inr (remove_owner-Frame a s s' id h)
Step-Frame id s s' (rotating n h) = inr (rotate_threshold-Frame n s s' id h)

-- The snapshot of a proposal is that of the owners and the threshold when it was created.
pub record Traced (id : ℕ) (s : Multisig) : Type 0 where
  pub origin : Created id s
  pub snapshot : VoteWeightSnapshot
  pub stored : s.snapshots id ≡ some snapshot
  pub same_owners : snapshot.owners ≡ get_owners origin.before
  pub same_threshold : snapshot.threshold ≡ get_threshold origin.before

Creation-Traced : (id : ℕ) (s s' : Multisig) → History deployed s → Creation id s s' → Traced id s'
unfolding get_owners get_threshold
Creation-Traced id s s' past c =
    let (owner, snap, appr, props) =
      create_proposal-ok c.env c.proposer c.action id s s' c.created in
    let made : VoteWeightSnapshot =
      new_snapshot c.env c.action (record s { next_proposal_id = some (id + 1) }) in
    record {
      origin = record { before = s; after = s'; earlier = past; creation = c; later = done };
      snapshot = made;
      stored = ap (λ f. f id) snap ∙ store_same s.snapshots id id made ((==_iff id id).1 refl);
      same_owners = refl;
      same_threshold = refl;
    }

later-Traced : (id : ℕ) (s s' : Multisig) → Step s s' → Frame id s s' → Traced id s → Traced id s'
unfolding Frame
later-Traced id s s' st (snap, props) t = record {
  origin = record {
    before = t.origin.before;
    after = t.origin.after;
    earlier = t.origin.earlier;
    creation = t.origin.creation;
    later = call t.origin.later st;
  };
  snapshot = t.snapshot;
  stored = snap ∙ t.stored;
  same_owners = t.same_owners;
  same_threshold = t.same_threshold;
}

-- After every history from the deployment, an id has no proposal, or its proposal was created in it.
pub History-Traced :
    (id : ℕ) (s : Multisig) → History deployed s → (s.proposals id ≡ none) ⊎ Traced id s
unfolding Frame
History-Traced id s done = inl refl
History-Traced id s (call {t = t} past st) = elim (Step-Frame id t s st) [
  | inl c ↦ inr (Creation-Traced id t s past c)
  | inr f ↦ elim (History-Traced id t past) [
    | inl absent ↦ inl (f.1 absent)
    | inr tr ↦ inr (later-Traced id t s st f tr)
  ]
]

pub found-Traced :
    (id : ℕ) (s : Multisig) (p : Proposal)
    → History deployed s
    → s.proposals id ≡ some p
    → Traced id s
found-Traced id s p past e = elim (History-Traced id s past) [
  | inl absent ↦ absurd (ground (arith, e, absent))
  | inr t ↦ t
]
