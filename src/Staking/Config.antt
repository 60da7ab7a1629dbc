-- ===== src/Staking/Config.antt =====
-- The calls that set up and configure the staking contract, when they return.
use veritasor_contracts.Prelude.{
  ℕ, ◌≤◌, ◌≡◌, ◌≢◌, ◌↔◌, true, false, some, Env, Address, ok, arith, is_some, Option-cases, inl,
  inr,
}
use veritasor_contracts.Prelude.Int.{ℤ, pos, ◌<ℤ◌}
use veritasor_contracts.Staking.Types.{Staking, max_unbonding_period}
use veritasor_contracts.Staking.Entries.{
  initialize, set_min_stake, set_dispute_contract, set_unbonding_period,
}

-- The parameter checks of `initialize`.
pub record IsSetup (env : Env) (admin token treasury : Address) (min_stake : ℤ) (dispute : Address)
    (unbonding : ℕ) : Type 0 where
  pub signed : env.authorized admin ≡ true
  pub min_positive : pos 0 <ℤ min_stake
  pub unbonding_le : unbonding ≤ max_unbonding_period
  pub token_apart : token ≢ env.current_contract
  pub treasury_apart : treasury ≢ env.current_contract
  pub dispute_apart : dispute ≢ env.current_contract
  pub admin_ne_treasury : admin ≢ treasury
  pub token_ne_treasury : token ≢ treasury
  pub dispute_ne_treasury : dispute ≢ treasury

module _ {L : Type 0} where
  abbrev pub configured : Address → Address → Address → ℤ → Address → ℕ → Staking L → Staking L
  configured admin token treasury min_stake dispute unbonding s = record s {
    admin = some admin;
    token = some token;
    treasury = some treasury;
    min_stake = some min_stake;
    dispute_contract = some dispute;
    unbonding_period = some unbonding;
  }

  -- `initialize` returns exactly when the contract has no admin yet and every parameter check
  -- holds, and then it stores the six parameters.
  pub initialize_iff :
      (env : Env) (admin token treasury : Address) (min_stake : ℤ) (dispute : Address)
      (unbonding : ℕ) (s s' : Staking L)
      → (initialize env admin token treasury min_stake dispute unbonding s ≡ ok (tt, s')) ↔ (
          (is_some s.admin ≡ false)
          × IsSetup env admin token treasury min_stake dispute unbonding
          × (s' ≡ configured admin token treasury min_stake dispute unbonding s))
  unfolding initialize
  initialize_iff env admin token treasury min_stake dispute unbonding s s' = (
    λ h. (ground arith, ground arith, ground arith),
    λ (fresh, setup, same). ground (arith, fresh, setup, same),
  )

  -- A minimum stake is stored exactly under the admin's authorisation and when it is positive.
  pub set_min_stake_iff :
      (env : Env) (x : ℤ) (s s' : Staking L)
      → (set_min_stake env x s ≡ ok (tt, s')) ↔ (
          (admin : Address) × (s.admin ≡ some admin)
          × (env.authorized admin ≡ true)
          × (pos 0 <ℤ x)
          × (s' ≡ record s { min_stake = some x }))
  unfolding set_min_stake
  set_min_stake_iff env x s s' = (
    λ h. elim (Option-cases s.admin) [
      | inl absent ↦ absurd (ground arith)
      | inr (admin, e) ↦ (admin, e, ground arith, ground arith, ground arith)
    ],
    λ (admin, e, signed, positive, same). ground (arith, e, signed, positive, same),
  )

  pub set_dispute_contract-ok :
      (env : Env) (d : Address) (s s' : Staking L)
      → set_dispute_contract env d s ≡ ok (tt, s')
      → (admin : Address) × (s.admin ≡ some admin)
        × (env.authorized admin ≡ true)
        × (s' ≡ record s { dispute_contract = some d })
  unfolding set_dispute_contract
  set_dispute_contract-ok env d s s' h = elim (Option-cases s.admin) [
    | inl absent ↦ absurd (ground arith)
    | inr (admin, e) ↦ (admin, e, ground arith, ground arith)
  ]

  -- An unbonding period is stored exactly under the admin's authorisation, whatever its length.
  pub set_unbonding_period_iff :
      (env : Env) (u : ℕ) (s s' : Staking L)
      → (set_unbonding_period env u s ≡ ok (tt, s')) ↔ (
          (admin : Address) × (s.admin ≡ some admin)
          × (env.authorized admin ≡ true)
          × (s' ≡ record s { unbonding_period = some u }))
  unfolding set_unbonding_period
  set_unbonding_period_iff env u s s' = (
    λ h. elim (Option-cases s.admin) [
      | inl absent ↦ absurd (ground arith)
      | inr (admin, e) ↦ (admin, e, ground arith, ground arith)
    ],
    λ (admin, e, signed, same). ground (arith, e, signed, same),
  )
