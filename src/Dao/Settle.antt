-- ===== src/Dao/Settle.antt =====
-- The effect of executing and of cancelling a proposal.
use veritasor_contracts.Prelude.{
  ℕ, ◌≡◌, sym, ap, true, false, some, Env, Address, ok, arith, store, Option-cases, Result-cases,
  inl, inr, subst,
}
use veritasor_contracts.Dao.Types.{
  ProposalAction, Proposal, Dao, executed, rejected, set_attestation_fee_config,
  set_attestation_fee_enabled, update_governance_config, pause_attestation, unpause_attestation,
}
use veritasor_contracts.Dao.Config.{validate_min_votes, validate_proposal_duration}
use veritasor_contracts.Dao.Calls.{
  is_pending, store_proposal, get_proposal_internal, apply_action, execute_proposal,
  cancel_proposal, is_expired, quorum_met, has_majority,
}
use veritasor_contracts.Dao.Status.{next_id, moved}
use veritasor_contracts.Dao.Effects.{Effect}

-- An action writes neither proposals nor votes.
pub record Aside (s s' : Dao) : Type 0 where
  pub proposals_kept : s'.proposals ≡ s.proposals
  pub next_kept : next_id s' ≡ next_id s
  pub for_kept : s'.votes_for ≡ s.votes_for
  pub against_kept : s'.votes_against ≡ s.votes_against
  pub voted_kept : s'.voted ≡ s.voted

apply_action-Aside : (a : ProposalAction) (s s' : Dao) → apply_action a s ≡ ok (tt, s') → Aside s s'
unfolding apply_action validate_min_votes validate_proposal_duration
apply_action-Aside (set_attestation_fee_config config) s s' h = ground arith
apply_action-Aside (set_attestation_fee_enabled on) s s' h =
    elim (Option-cases s.attestation_fee_config) [
      | inl e ↦ absurd (ground (arith, e))
      | inr (c, e) ↦ ground (arith, e)
    ]
apply_action-Aside (update_governance_config mv d) s s' h = ground arith
apply_action-Aside pause_attestation s s' h = ground arith
apply_action-Aside unpause_attestation s s' h = ground arith

-- An execution that returns found the proposal pending, in time, with a quorum and a majority; it
-- applied its action and marked it executed.
pub execute_proposal-ok :
    (env : Env) (x : Address) (id : ℕ) (s s' : Dao)
    → execute_proposal env x id s ≡ ok (tt, s')
    → (p : Proposal) × (t : Dao) × (s.proposals id ≡ some p)
      × (is_pending p.status ≡ true)
      × (is_expired env p s ≡ false)
      × (quorum_met id s ≡ true)
      × (has_majority id s ≡ true)
      × (apply_action p.action s ≡ ok (tt, t))
      × (s' ≡ record t { proposals = store t.proposals p.id (record p { status = executed }) })
unfolding execute_proposal get_proposal_internal store_proposal
execute_proposal-ok env x id s s' h = elim (Option-cases (s.proposals id)) [
  | inl e ↦ absurd (ground (arith, e))
  | inr (p, e) ↦ elim (Result-cases (apply_action p.action s)) [
    | inr (bad, f) ↦ absurd (ground (arith, e, f))
    | inl ((u, t), f) ↦ (
      p,
      t,
      e,
      ground (arith, e, f),
      ground (arith, e, f),
      ground (arith, e, f),
      ground (arith, e, f),
      f,
      ground (arith, e, f),
    )
  ]
]

pub execute_proposal-Effect :
    (env : Env) (x : Address) (id : ℕ) (s s' : Dao)
    → execute_proposal env x id s ≡ ok (tt, s')
    → Effect s s'
execute_proposal-Effect env x id s s' h =
    let (p, t, found, live, early, enough, won, ran, result) =
      execute_proposal-ok env x id s s' h in
    let aside = apply_action-Aside p.action s t ran in
    subst (Effect s) (sym result) (record {
      change =
          moved id p executed found live
            (ap (λ m. store m p.id (record p { status = executed })) aside.proposals_kept)
            aside.next_kept;
      for_kept = aside.for_kept;
      against_kept = aside.against_kept;
      voted_kept = aside.voted_kept;
    })

pub cancel_proposal-Effect :
    (env : Env) (c : Address) (id : ℕ) (s s' : Dao)
    → cancel_proposal env c id s ≡ ok (tt, s')
    → Effect s s'
unfolding cancel_proposal get_proposal_internal store_proposal
cancel_proposal-Effect env c id s s' h = elim (Option-cases (s.proposals id)) [
  | inl e ↦ absurd (ground (arith, e))
  | inr (p, e) ↦ elim (Option-cases s.admin) [
    | inl no_admin ↦ record {
      change =
          moved id p rejected e (ground (arith, e)) (ground (arith, e, no_admin))
            (ground (arith, e, no_admin));
      for_kept = ground (arith, e, no_admin);
      against_kept = ground (arith, e, no_admin);
      voted_kept = ground (arith, e, no_admin);
    }
    | inr (a, f) ↦ record {
      change =
          moved id p rejected e (ground (arith, e)) (ground (arith, e, f)) (ground (arith, e, f));
      for_kept = ground (arith, e, f);
      against_kept = ground (arith, e, f);
      voted_kept = ground (arith, e, f);
    }
  ]
]
