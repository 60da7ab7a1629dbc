-- ===== src/Multisig/Frozen.antt =====
-- Changes of owners and threshold, and the proposals that are under way.
use veritasor_contracts.Prelude.{ℕ, ◌≡◌, some, Env, Address, ok, arith}
use veritasor_contracts.Multisig.Types.{Multisig, VoteWeightSnapshot}
use veritasor_contracts.Multisig.Calls.{
  get_approvals, rotate_threshold, effective_threshold, get_approval_count, add_owner, remove_owner,
  set_owners,
}

-- The tally of a proposal with a snapshot.
abbrev pub tally : ℕ → Multisig → ℕ × ℕ
tally id s = (effective_threshold id s, get_approval_count id s)

tally_frame :
    (id : ℕ) (s s' : Multisig) (v : VoteWeightSnapshot)
    → s.snapshots id ≡ some v
    → s'.snapshots id ≡ s.snapshots id
    → s'.approvals id ≡ s.approvals id
    → tally id s' ≡ tally id s
unfolding effective_threshold get_approval_count get_approvals
tally_frame id s s' v e snap appr = ground (arith, e, snap, appr)

-- The calls that change owners or the live threshold.
pub data Change (s s' : Multisig) : Type 0 where
  adding : (env : Env) (a : Address) → add_owner env a s ≡ ok (tt, s') → Change s s'
  removing : (a : Address) → remove_owner a s ≡ ok (tt, s') → Change s s'
  setting : (n : ℕ) → rotate_threshold n s ≡ ok (tt, s') → Change s s'

-- Adding or removing an owner or rotating the threshold changes neither the threshold nor the
-- count that decide a proposal with a snapshot.
pub tally-Change :
    (id : ℕ) (s s' : Multisig) (v : VoteWeightSnapshot)
    → s.snapshots id ≡ some v
    → Change s s'
    → tally id s' ≡ tally id s
unfolding add_owner remove_owner rotate_threshold set_owners
tally-Change id s s' v e (adding env a h) = tally_frame id s s' v e (ground arith) (ground arith)
tally-Change id s s' v e (removing a h) = tally_frame id s s' v e (ground arith) (ground arith)
tally-Change id s s' v e (setting n h) = tally_frame id s s' v e (ground arith) (ground arith)
