-- ===== src/Dao/Effects.antt =====
-- The effect of every call but the votes: at most one proposal changes, and no vote does.
use veritasor_contracts.Prelude.{
  ℕ, ◌≡◌, refl, sym, Option, none, some, Env, Address, ok, arith, Option-cases, inl, inr, subst,
}
use veritasor_contracts.Dao.Types.{Dao}
use veritasor_contracts.Dao.Config.{
  require_admin, initialize, transfer_admin, accept_admin, set_governance_token, set_voting_config,
  validate_min_votes, validate_proposal_duration, normalize_min_votes, normalize_duration,
}
use veritasor_contracts.Dao.Status.{next_id, Change, same}

pub record Effect (s s' : Dao) : Type 0 where
  pub change : Change s.proposals s'.proposals (next_id s) (next_id s')
  pub for_kept : s'.votes_for ≡ s.votes_for
  pub against_kept : s'.votes_against ≡ s.votes_against
  pub voted_kept : s'.voted ≡ s.voted

-- The calls on the admin and the configuration write these five fields.
abbrev reconfigured :
    Option Address → Option Address → Option Address → Option ℕ → Option ℕ → Dao → Dao
reconfigured admin waiting token min_votes duration s = record s {
  admin = admin;
  pending_admin = waiting;
  governance_token = token;
  min_votes = min_votes;
  proposal_duration = duration;
}

reconfigured-Effect :
    (a p t : Option Address) (m d : Option ℕ) (s s' : Dao)
    → s' ≡ reconfigured a p t m d s
    → Effect s s'
reconfigured-Effect a p t m d s s' e =
    subst (Effect s) (sym e)
      (record { change = same refl refl; for_kept = refl; against_kept = refl; voted_kept = refl })

pub initialize-Effect :
    (env : Env) (admin : Address) (token : Option Address) (mv d : ℕ) (s s' : Dao)
    → initialize env admin token mv d s ≡ ok (tt, s')
    → Effect s s'
unfolding initialize validate_min_votes validate_proposal_duration
initialize-Effect env admin token mv d s s' h =
    let min_votes = some (normalize_min_votes mv) in
    let duration = some (normalize_duration d) in
    elim (Option-cases token) [
      | inl e ↦
          reconfigured-Effect (some admin) s.pending_admin s.governance_token min_votes duration s
            s' (ground (arith, e))
      | inr (t, e) ↦
          reconfigured-Effect (some admin) s.pending_admin (some t) min_votes duration s s'
            (ground (arith, e))
    ]

pub transfer_admin-Effect :
    (env : Env) (caller new_admin : Address) (s s' : Dao)
    → transfer_admin env caller new_admin s ≡ ok (tt, s')
    → Effect s s'
unfolding transfer_admin require_admin
transfer_admin-Effect env caller new_admin s s' h = elim (Option-cases s.admin) [
  | inl absent ↦ absurd (ground arith)
  | inr (a, e) ↦
      reconfigured-Effect s.admin (some new_admin) s.governance_token s.min_votes
        s.proposal_duration s s' (ground (arith, e))
]

pub accept_admin-Effect :
    (env : Env) (caller : Address) (s s' : Dao)
    → accept_admin env caller s ≡ ok (tt, s')
    → Effect s s'
unfolding accept_admin
accept_admin-Effect env caller s s' h = elim (Option-cases s.pending_admin) [
  | inl absent ↦ absurd (ground arith)
  | inr (a, e) ↦
      reconfigured-Effect (some caller) none s.governance_token s.min_votes s.proposal_duration s s'
        (ground (arith, e))
]

pub set_governance_token-Effect :
    (env : Env) (caller token : Address) (s s' : Dao)
    → set_governance_token env caller token s ≡ ok (tt, s')
    → Effect s s'
unfolding set_governance_token require_admin
set_governance_token-Effect env caller token s s' h = elim (Option-cases s.admin) [
  | inl absent ↦ absurd (ground arith)
  | inr (a, e) ↦
      reconfigured-Effect s.admin s.pending_admin (some token) s.min_votes s.proposal_duration s s'
        (ground (arith, e))
]

pub set_voting_config-Effect :
    (env : Env) (caller : Address) (mv d : ℕ) (s s' : Dao)
    → set_voting_config env caller mv d s ≡ ok (tt, s')
    → Effect s s'
unfolding set_voting_config require_admin validate_min_votes validate_proposal_duration
set_voting_config-Effect env caller mv d s s' h = elim (Option-cases s.admin) [
  | inl absent ↦ absurd (ground arith)
  | inr (a, e) ↦
      reconfigured-Effect s.admin s.pending_admin s.governance_token (some (normalize_min_votes mv))
        (some (normalize_duration d)) s s' (ground (arith, e))
]
