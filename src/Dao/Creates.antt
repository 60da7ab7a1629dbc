-- ===== src/Dao/Creates.antt =====
-- The effect of the calls that create a proposal: it is new and pending, and no vote changes.
use veritasor_contracts.Prelude.{ℕ, ◌≡◌, Bool, Env, Address, ok, arith, Option-cases, inl, inr}
use veritasor_contracts.Dao.Types.{
  ProposalAction, Dao, FeeTuple, Balance, set_attestation_fee_config, set_attestation_fee_enabled,
  update_governance_config, pause_attestation, unpause_attestation,
}
use veritasor_contracts.Dao.Config.{
  require_token_holder, validate_min_votes, validate_proposal_duration, normalize_min_votes,
  normalize_duration,
}
use veritasor_contracts.Dao.Calls.{
  next_proposal_id, store_proposal, create, create_fee_config_proposal, create_fee_toggle_proposal,
  create_gov_config_proposal, create_pause_proposal, create_unpause_proposal,
}
use veritasor_contracts.Dao.Status.{made}
use veritasor_contracts.Dao.Effects.{Effect}

create-Effect :
    (env : Env) (c : Address) (action : ProposalAction) (n : ℕ) (s s' : Dao)
    → create env c action s ≡ ok (n, s')
    → Effect s s'
unfolding create next_proposal_id store_proposal
create-Effect env c action n s s' h = record {
  change = made env c action (ground arith) (ground arith);
  for_kept = ground arith;
  against_kept = ground arith;
  voted_kept = ground arith;
}

-- The five ways to create a proposal come down to `create` in the same storage.
module _ (balance : Balance) (env : Env) where
  pub create_fee_config_proposal-Effect :
      (c : Address) (config : FeeTuple) (n : ℕ) (s s' : Dao)
      → create_fee_config_proposal balance env c config s ≡ ok (n, s')
      → Effect s s'
  unfolding create_fee_config_proposal require_token_holder
  create_fee_config_proposal-Effect c config n s s' h =
      create-Effect env c (set_attestation_fee_config config) n s s'
        (elim (Option-cases s.governance_token) [
          | inl e ↦ ground (arith, e)
          | inr (t, e) ↦ ground (arith, e)
        ])

  pub create_fee_toggle_proposal-Effect :
      (c : Address) (on : Bool) (n : ℕ) (s s' : Dao)
      → create_fee_toggle_proposal balance env c on s ≡ ok (n, s')
      → Effect s s'
  unfolding create_fee_toggle_proposal require_token_holder
  create_fee_toggle_proposal-Effect c on n s s' h =
      create-Effect env c (set_attestation_fee_enabled on) n s s'
        (elim (Option-cases s.governance_token) [
          | inl e ↦ ground (arith, e)
          | inr (t, e) ↦ ground (arith, e)
        ])

  pub create_gov_config_proposal-Effect :
      (c : Address) (mv d n : ℕ) (s s' : Dao)
      → create_gov_config_proposal balance env c mv d s ≡ ok (n, s')
      → Effect s s'
  unfolding create_gov_config_proposal validate_min_votes validate_proposal_duration
      require_token_holder
  create_gov_config_proposal-Effect c mv d n s s' h =
      create-Effect env c (update_governance_config (normalize_min_votes mv) (normalize_duration d))
        n s s'
        (elim (Option-cases s.governance_token) [
          | inl e ↦ ground (arith, e)
          | inr (t, e) ↦ ground (arith, e)
        ])

  pub create_pause_proposal-Effect :
      (c : Address) (n : ℕ) (s s' : Dao)
      → create_pause_proposal balance env c s ≡ ok (n, s')
      → Effect s s'
  unfolding create_pause_proposal require_token_holder
  create_pause_proposal-Effect c n s s' h =
      create-Effect env c pause_attestation n s s' (elim (Option-cases s.governance_token) [
        | inl e ↦ ground (arith, e)
        | inr (t, e) ↦ ground (arith, e)
      ])

  pub create_unpause_proposal-Effect :
      (c : Address) (n : ℕ) (s s' : Dao)
      → create_unpause_proposal balance env c s ≡ ok (n, s')
      → Effect s s'
  unfolding create_unpause_proposal require_token_holder
  create_unpause_proposal-Effect c n s s' h =
      create-Effect env c unpause_attestation n s s' (elim (Option-cases s.governance_token) [
        | inl e ↦ ground (arith, e)
        | inr (t, e) ↦ ground (arith, e)
      ])
