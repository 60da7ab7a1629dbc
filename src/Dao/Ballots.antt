-- ===== src/Dao/Ballots.antt =====
-- The vote counters of the DAO against the list of the ballots that were cast.
use veritasor_contracts.Prelude.{
  ℕ, suc, ◌≡◌, sym, ◌∙◌, ap, Bool, true, false, not, ◌&&◌, ◌||◌, List, [], ◌∷◌, some, get_or, Env,
  Address, ok, arith, store, ◌==◌, Option-cases, Result-cases, inl, inr, if◌then◌else◌, min,
}
use veritasor_contracts.Prelude.Int.{u32_max}
use veritasor_contracts.Dao.Types.{Proposal, Dao, Balance}
use veritasor_contracts.Dao.Config.{require_token_holder}
use veritasor_contracts.Dao.Calls.{
  is_pending, is_expired, get_votes_for, get_votes_against, has_voted, set_voted, increment_for,
  increment_against, check_vote, vote_for, vote_against, store_proposal, get_proposal_internal,
}
use veritasor_contracts.Dao.Effects.{Effect}

pub record Ballot : Type 0 where
  pub proposal : ℕ
  pub voter : Address
  pub support : Bool

abbrev same_bool : Bool → Bool → Bool
same_bool true b = b
same_bool false b = not b

-- The ballots on a proposal with a given answer.
unfoldable pub count : ℕ → Bool → List Ballot → ℕ
count id support [] = 0
count id support (b ∷ rest) =
    let more = count id support rest in
    if b.proposal == id && same_bool b.support support then suc more else more

unfoldable pub has_cast : ℕ → Address → List Ballot → Bool
has_cast id voter [] = false
has_cast id voter (b ∷ rest) = (b.proposal == id && b.voter == voter) || has_cast id voter rest

-- Nobody votes twice on a proposal.
abbrev pub IsOnce : List Ballot → Type 0
IsOnce [] = Unit
IsOnce (b ∷ rest) = (has_cast b.proposal b.voter rest ≡ false) × IsOnce rest

-- The counters of a storage are those of a list of ballots.
pub record IsTally (log : List Ballot) (s : Dao) : Type 0 where
  pub for_lem : (id : ℕ) → get_votes_for id s ≡ min (count id true log) u32_max
  pub against_lem : (id : ℕ) → get_votes_against id s ≡ min (count id false log) u32_max
  pub voted_lem : (id : ℕ) (v : Address) → has_voted id v s ≡ has_cast id v log
  pub once : IsOnce log

pub Effect-IsTally : (log : List Ballot) (s s' : Dao) → Effect s s' → IsTally log s → IsTally log s'
unfolding get_votes_for get_votes_against has_voted
Effect-IsTally log s s' e t = record {
  for_lem = λ id. ap (λ m. get_or (m id) 0) e.for_kept ∙ t.for_lem id;
  against_lem = λ id. ap (λ m. get_or (m id) 0) e.against_kept ∙ t.against_lem id;
  voted_lem = λ id v. ap (λ m. get_or (m id v) false) e.voted_kept ∙ t.voted_lem id v;
  once = t.once;
}

check_vote-ok :
    (balance : Balance) (env : Env) (v : Address) (id : ℕ) (s : Dao) (p : Proposal) (t : Dao)
    → check_vote balance env v id s ≡ ok (p, t)
    → (s.proposals id ≡ some p)
      × (is_pending p.status ≡ true)
      × (is_expired env p s ≡ false)
      × (has_voted id v s ≡ false)
      × (env.authorized v ≡ true)
      × (t ≡ s)
unfolding check_vote require_token_holder get_proposal_internal
check_vote-ok balance env v id s p t h = elim (Option-cases (s.proposals id)) [
  | inl e ↦ elim (Option-cases s.governance_token) [
    | inl f ↦ absurd (ground (arith, e, f))
    | inr (token, f) ↦ absurd (ground (arith, e, f))
  ]
  | inr (q, e) ↦ elim (Option-cases s.governance_token) [
    | inl f ↦ ground (arith, e, f)
    | inr (token, f) ↦ ground (arith, e, f)
  ]
]

-- What a vote writes, on either side.
abbrev pub voted_state : (ℕ → Dao → Dao) → ℕ → Address → Proposal → Dao → Dao
voted_state increment id v p s =
    let s' = set_voted id v (increment id s) in record s' { proposals = store s'.proposals p.id p }

pub vote_for-ok :
    (balance : Balance) (env : Env) (v : Address) (id : ℕ) (s s' : Dao)
    → vote_for balance env v id s ≡ ok (tt, s')
    → (p : Proposal) × (s.proposals id ≡ some p)
      × (is_pending p.status ≡ true)
      × (is_expired env p s ≡ false)
      × (has_voted id v s ≡ false)
      × (env.authorized v ≡ true)
      × (s' ≡ voted_state increment_for id v p s)
unfolding vote_for store_proposal
vote_for-ok balance env v id s s' h = elim (Result-cases (check_vote balance env v id s)) [
  | inr (e, bad) ↦ absurd (ground (arith, bad))
  | inl ((p, t), run) ↦
      let (found, live, early, new, signed, kept) = check_vote-ok balance env v id s p t run in
      (p, found, live, early, new, signed, ground (arith, run, kept))
]

pub vote_against-ok :
    (balance : Balance) (env : Env) (v : Address) (id : ℕ) (s s' : Dao)
    → vote_against balance env v id s ≡ ok (tt, s')
    → (p : Proposal) × (s.proposals id ≡ some p)
      × (is_pending p.status ≡ true)
      × (is_expired env p s ≡ false)
      × (has_voted id v s ≡ false)
      × (env.authorized v ≡ true)
      × (s' ≡ voted_state increment_against id v p s)
unfolding vote_against store_proposal
vote_against-ok balance env v id s s' h = elim (Result-cases (check_vote balance env v id s)) [
  | inr (e, bad) ↦ absurd (ground (arith, bad))
  | inl ((p, t), run) ↦
      let (found, live, early, new, signed, kept) = check_vote-ok balance env v id s p t run in
      (p, found, live, early, new, signed, ground (arith, run, kept))
]

abbrev pub ballot : ℕ → Address → Bool → Ballot
ballot id v support = record { proposal = id; voter = v; support = support }

has_voted-set_voted :
    (id n : ℕ) (v a : Address) (s : Dao)
    → has_voted n a (set_voted id v s) ≡ ((id == n && v == a) || has_voted n a s)
unfolding has_voted set_voted
has_voted-set_voted id n v a s = ground arith

-- A vote in favour counts as one more ballot in favour, by somebody new.
pub voted_for-IsTally :
    (log : List Ballot) (id : ℕ) (v : Address) (p : Proposal) (s : Dao)
    → has_voted id v s ≡ false
    → IsTally log s
    → IsTally (ballot id v true ∷ log) (voted_state increment_for id v p s)
unfolding get_votes_for get_votes_against has_voted set_voted increment_for count has_cast
voted_for-IsTally log id v p s new t = record {
  for_lem = λ n. ground (arith, t.for_lem n, t.for_lem id);
  against_lem = λ n. ground (arith, t.against_lem n);
  voted_lem = λ n a. ground (arith, t.voted_lem n a);
  once = (sym (t.voted_lem id v) ∙ new, t.once);
}

pub voted_against-IsTally :
    (log : List Ballot) (id : ℕ) (v : Address) (p : Proposal) (s : Dao)
    → has_voted id v s ≡ false
    → IsTally log s
    → IsTally (ballot id v false ∷ log) (voted_state increment_against id v p s)
unfolding get_votes_for get_votes_against has_voted set_voted increment_against count has_cast
voted_against-IsTally log id v p s new t = record {
  for_lem = λ n. ground (arith, t.for_lem n);
  against_lem = λ n. ground (arith, t.against_lem n, t.against_lem id);
  voted_lem = λ n a. ground (arith, t.voted_lem n a);
  once = (sym (t.voted_lem id v) ∙ new, t.once);
}
