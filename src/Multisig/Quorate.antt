-- ===== src/Multisig/Quorate.antt =====
-- The threshold stays within reach: there are always at least as many owners.
use veritasor_contracts.Prelude.{
  ℕ, ◌≤◌, ◌<◌, ◌≡◌, refl, ◌∙◌, false, List, [], ◌∷◌, ◌++◌, some, Env, Address, ok, arith, ◌==◌,
  length, length-append, contains, Distinct, Option-cases, Bool-cases, inl, inr,
}
use veritasor_contracts.Multisig.Types.{Multisig, ProposalAction}
use veritasor_contracts.Multisig.Calls.{
  get_owners, get_threshold, set_owners, initialize_multisig, rotate_threshold, create_proposal,
  approve_proposal, reject_proposal, mark_executed, add_owner, remove_owner, without,
  is_change_threshold, check_cooldown,
}
use veritasor_contracts.Multisig.Tally.{Distinct-append}
use veritasor_contracts.Multisig.Histories.{
  Step, initializing, creating, approving, rejecting, executing, adding_owner, removing_owner,
  rotating, History, done, call, deployed,
}

-- The storage holds distinct owners, at least one and at least as many as the threshold asks for.
pub record IsQuorate (s : Multisig) : Type 0 where
  pub owners : List Address
  pub stored : s.owners ≡ some owners
  pub distinct : Distinct owners
  pub positive : 0 < get_threshold s
  pub reachable : get_threshold s ≤ length owners

frame-IsQuorate :
    (s s' : Multisig)
    → s'.owners ≡ s.owners
    → s'.threshold ≡ s.threshold
    → IsQuorate s
    → IsQuorate s'
unfolding get_threshold
frame-IsQuorate s s' own thr q = record {
  owners = q.owners;
  stored = own ∙ q.stored;
  distinct = q.distinct;
  positive = rw thr q.positive;
  reachable = rw thr q.reachable;
}

contains-without :
    (xs : List Address) (a b : Address) → contains xs b ≡ false → contains (without a xs) b ≡ false
unfolding without
contains-without [] a b h = refl
contains-without (x ∷ xs) a b h = ground (arith, contains-without xs a b)

without-Distinct : (xs : List Address) (a : Address) → Distinct xs → Distinct (without a xs)
unfolding without
without-Distinct [] a d = tt
without-Distinct (x ∷ xs) a d = elim (Bool-cases (x == a)) [
  | inl same ↦ rw same (without-Distinct xs a d.1)
  | inr other ↦ rw other (contains-without xs a x d.0, without-Distinct xs a d.1)
]

initialize_multisig_once :
    (owners : List Address) (n : ℕ) (s s' : Multisig)
    → initialize_multisig owners n s ≡ ok (tt, s')
    → IsQuorate s
    → ⊥
unfolding initialize_multisig
initialize_multisig_once owners n s s' h q = ground (arith, h, q.stored)

create_proposal-IsQuorate :
    (env : Env) (a : Address) (action : ProposalAction) (n : ℕ) (s s' : Multisig)
    → create_proposal env a action s ≡ ok (n, s')
    → IsQuorate s
    → IsQuorate s'
unfolding create_proposal check_cooldown
create_proposal-IsQuorate env a action n s s' h = elim (Bool-cases (is_change_threshold action)) [
  | inl change ↦ frame-IsQuorate s s' (ground (arith, change)) (ground (arith, change))
  | inr other ↦ frame-IsQuorate s s' (ground (arith, other)) (ground (arith, other))
]

approve_proposal-IsQuorate :
    (env : Env) (a : Address) (n : ℕ) (s s' : Multisig)
    → approve_proposal env a n s ≡ ok (tt, s')
    → IsQuorate s
    → IsQuorate s'
unfolding approve_proposal
approve_proposal-IsQuorate env a n s s' h = elim (Option-cases (s.proposals n)) [
  | inl absent ↦ absurd (ground arith)
  | inr (p, e) ↦ frame-IsQuorate s s' (ground arith) (ground arith)
]

reject_proposal-IsQuorate :
    (env : Env) (a : Address) (n : ℕ) (s s' : Multisig)
    → reject_proposal env a n s ≡ ok (tt, s')
    → IsQuorate s
    → IsQuorate s'
unfolding reject_proposal
reject_proposal-IsQuorate env a n s s' h = elim (Option-cases (s.proposals n)) [
  | inl absent ↦ absurd (ground arith)
  | inr (p, e) ↦ frame-IsQuorate s s' (ground arith) (ground arith)
]

mark_executed-IsQuorate :
    (env : Env) (n : ℕ) (s s' : Multisig)
    → mark_executed env n s ≡ ok (tt, s')
    → IsQuorate s
    → IsQuorate s'
unfolding mark_executed
mark_executed-IsQuorate env n s s' h = elim (Option-cases (s.proposals n)) [
  | inl absent ↦ absurd (ground arith)
  | inr (p, e) ↦ frame-IsQuorate s s' (ground arith) (ground arith)
]

add_owner-IsQuorate :
    (env : Env) (a : Address) (s s' : Multisig)
    → add_owner env a s ≡ ok (tt, s')
    → IsQuorate s
    → IsQuorate s'
unfolding add_owner set_owners get_owners get_threshold
add_owner-IsQuorate env a s s' h q =
    let now : s'.owners ≡ some (q.owners ++ a ∷ []) = ground (arith, h, q.stored) in
    let kept : s'.threshold ≡ s.threshold = ground (arith, h, q.stored) in
    record {
      owners = q.owners ++ a ∷ [];
      stored = now;
      distinct = Distinct-append q.owners a q.distinct (ground (arith, h, q.stored));
      positive = rw kept q.positive;
      reachable = rw kept (omega (arith, q.reachable, length-append q.owners (a ∷ [])));
    }

remove_owner-IsQuorate :
    (a : Address) (s s' : Multisig) → remove_owner a s ≡ ok (tt, s') → IsQuorate s → IsQuorate s'
unfolding remove_owner set_owners get_owners get_threshold
remove_owner-IsQuorate a s s' h q =
    let now : s'.owners ≡ some (without a q.owners) = ground (arith, h, q.stored) in
    let kept : s'.threshold ≡ s.threshold = ground (arith, h, q.stored) in
    record {
      owners = without a q.owners;
      stored = now;
      distinct = without-Distinct q.owners a q.distinct;
      positive = rw kept q.positive;
      reachable = rw kept (ground (arith, h, q.stored));
    }

rotate_threshold-IsQuorate :
    (n : ℕ) (s s' : Multisig) → rotate_threshold n s ≡ ok (tt, s') → IsQuorate s → IsQuorate s'
unfolding rotate_threshold get_owners get_threshold
rotate_threshold-IsQuorate n s s' h q =
    let kept : s'.owners ≡ s.owners = ground arith in
    let now : s'.threshold ≡ some n = ground arith in
    record {
      owners = q.owners;
      stored = kept ∙ q.stored;
      distinct = q.distinct;
      positive = rw now (ground (arith, h, q.stored));
      reachable = rw now (ground (arith, h, q.stored));
    }

Step-IsQuorate : {s s' : Multisig} → Step s s' → IsQuorate s → IsQuorate s'
Step-IsQuorate {s} {s'} (initializing xs n h) q = absurd (initialize_multisig_once xs n s s' h q)
Step-IsQuorate {s} {s'} (creating env a action n h) q =
    create_proposal-IsQuorate env a action n s s' h q
Step-IsQuorate {s} {s'} (approving env a n h) q = approve_proposal-IsQuorate env a n s s' h q
Step-IsQuorate {s} {s'} (rejecting env a n h) q = reject_proposal-IsQuorate env a n s s' h q
Step-IsQuorate {s} {s'} (executing env n h) q = mark_executed-IsQuorate env n s s' h q
Step-IsQuorate {s} {s'} (adding_owner env a h) q = add_owner-IsQuorate env a s s' h q
Step-IsQuorate {s} {s'} (removing_owner a h) q = remove_owner-IsQuorate a s s' h q
Step-IsQuorate {s} {s'} (rotating n h) q = rotate_threshold-IsQuorate n s s' h q

later-IsQuorate : {s s' : Multisig} → History s s' → IsQuorate s → IsQuorate s'
later-IsQuorate done q = q
later-IsQuorate (call past st) q = Step-IsQuorate st (later-IsQuorate past q)

initialize_multisig-IsQuorate :
    (owners : List Address) (n : ℕ) (s : Multisig)
    → Distinct owners
    → 0 < n
    → n ≤ length owners
    → initialize_multisig owners n deployed ≡ ok (tt, s)
    → IsQuorate s
unfolding initialize_multisig set_owners get_threshold
initialize_multisig-IsQuorate owners n s d positive le h =
    let now : s.threshold ≡ some n = ground arith in
    record {
      owners = owners;
      stored = ground arith;
      distinct = d;
      positive = rw now positive;
      reachable = rw now le;
    }

-- Once the multisig is initialized with distinct owners and a threshold from 1 to their number, every
-- history of later calls, owners added and removed and thresholds rotated, leaves distinct owners
-- and a threshold from 1 to their number.
pub History-IsQuorate :
    (owners : List Address) (n : ℕ) (s s' : Multisig)
    → Distinct owners
    → 0 < n
    → n ≤ length owners
    → initialize_multisig owners n deployed ≡ ok (tt, s)
    → History s s'
    → IsQuorate s'
History-IsQuorate owners n s s' d positive le h past =
    later-IsQuorate past (initialize_multisig-IsQuorate owners n s d positive le h)
