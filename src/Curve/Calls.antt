-- ===== src/Curve/Calls.antt =====
-- The calls of the pricing contract.
use veritasor_contracts.Prelude.{
  ℕ, ◌+◌, ◌-◌, ◌*◌, min, max, Bool, true, not, ◌&&◌, List, [], ◌∷◌, length, Option, none, some, Env,
  Address, Result, ok, err, ensure, gets, modify, expect, lift, ◌>>=◌, ◌>>◌, ⊤, is_some, ltb, leb,
  ◌==◌, if◌then◌else◌,
}
use veritasor_contracts.Prelude.Int.{ℤ, ltb_ℤ, leb_ℤ, u32_max, u64_max}
use veritasor_contracts.Curve.Types.{
  PricingPolicy, RevenueTier, PricingOutput, Error, unauthorized, already_initialized,
  not_initialized, not_admin, max_apr_too_large, min_above_max, base_outside, premium_too_large,
  too_many_tiers, tiers_not_ascending, discount_too_large, discounts_falling, score_too_large,
  no_policy, policy_disabled, no_attestation_contract, attestation_missing, attestation_revoked,
  Call, Attestations,
}

unfoldable pub initialize : Env → Address → Call ⊤
initialize env admin = do
  ensure (env.authorized admin) unauthorized
  present ← gets (λ s. is_some s.admin)
  ensure (not present) already_initialized
  modify (λ s. record s { admin = some admin })

unfoldable pub require_admin : Env → Address → Call ⊤
require_admin env admin = do
  stored ← gets (λ s. s.admin)
  stored_admin ← expect stored not_initialized
  ensure (admin == stored_admin) not_admin
  ensure (env.authorized admin) unauthorized

unfoldable pub set_attestation_contract : Env → Address → Address → Call ⊤
set_attestation_contract env admin contract = do
  require_admin env admin
  modify (λ s. record s { attestation_contract = some contract })

unfoldable pub set_pricing_policy : Env → Address → PricingPolicy → Call ⊤
set_pricing_policy env admin policy = do
  require_admin env admin
  ensure (leb policy.max_apr_bps 10000) max_apr_too_large
  ensure (leb policy.min_apr_bps policy.max_apr_bps) min_above_max
  ensure (leb policy.min_apr_bps policy.base_apr_bps && leb policy.base_apr_bps policy.max_apr_bps)
      base_outside
  ensure (leb policy.risk_premium_bps_per_point 1000) premium_too_large
  modify (λ s. record s { pricing_policy = some policy })

-- A first tier, or one above the earlier threshold.
abbrev pub is_above : Option ℤ → ℤ → Bool
is_above none r = true
is_above (some prev) r = ltb_ℤ prev r

-- The loop of `set_revenue_tiers`, from the earlier threshold and discount.
unfoldable pub check_tiers : List RevenueTier → Option ℤ → ℕ → Result Error ⊤
check_tiers [] prev_revenue prev_discount = ok tt
check_tiers (t ∷ ts) prev_revenue prev_discount =
    let rest = check_tiers ts (some t.min_revenue) t.discount_bps in
    if not (is_above prev_revenue t.min_revenue)
    then err tiers_not_ascending
    else if ltb 10000 t.discount_bps
    then err discount_too_large
    else if ltb t.discount_bps prev_discount
    then err discounts_falling
    else rest

unfoldable pub set_revenue_tiers : Env → Address → List RevenueTier → Call ⊤
set_revenue_tiers env admin tiers = do
  require_admin env admin
  ensure (leb (length tiers) 20) too_many_tiers
  lift (check_tiers tiers none 0)
  modify (λ s. record s { revenue_tiers = some tiers })

unfoldable pub scaled_risk_premium_bps : ℕ → ℕ → ℕ
scaled_risk_premium_bps anomaly_score per_point =
    min (min (anomaly_score * per_point) u64_max) u32_max

-- The loop of `find_tier_discount`: the best discount and its tier, from the best so far.
unfoldable pub find_from : ℤ → List RevenueTier → ℕ → ℕ → ℕ → ℕ × ℕ
find_from revenue [] idx best tier = (best, tier)
find_from revenue (t ∷ ts) idx best tier =
    let better = leb_ℤ t.min_revenue revenue && ltb best t.discount_bps in
    find_from revenue ts (idx + 1) (if better then t.discount_bps else best)
      (if better then idx + 1 else tier)

unfoldable pub find_tier_discount : Option (List RevenueTier) → ℤ → ℕ × ℕ
find_tier_discount none revenue = (0, 0)
find_tier_discount (some tiers) revenue = find_from revenue tiers 0 0 0

unfoldable pub assemble_pricing_output : PricingPolicy → ℕ → ℕ → ℕ → PricingOutput
assemble_pricing_output policy risk_premium_bps tier_discount_bps tier_level =
    let combined = min (min (policy.base_apr_bps + risk_premium_bps) u64_max) u32_max in
    record {
      apr_bps = min (max (combined - tier_discount_bps) policy.min_apr_bps) policy.max_apr_bps;
      base_apr_bps = policy.base_apr_bps;
      risk_premium_bps = risk_premium_bps;
      tier_discount_bps = tier_discount_bps;
      tier_level = tier_level;
    }

unfoldable pub pricing_output_for_inputs :
    Option (List RevenueTier) → PricingPolicy → ℤ → ℕ → PricingOutput
pricing_output_for_inputs tiers policy revenue anomaly_score =
    let found = find_tier_discount tiers revenue in
    assemble_pricing_output policy
      (scaled_risk_premium_bps anomaly_score policy.risk_premium_bps_per_point) found.0 found.1

unfoldable pub get_pricing_quote : ℤ → ℕ → Call PricingOutput
get_pricing_quote revenue anomaly_score = do
  ensure (leb anomaly_score 100) score_too_large
  stored ← gets (λ s. s.pricing_policy)
  policy ← expect stored no_policy
  ensure policy.enabled policy_disabled
  gets (λ s. pricing_output_for_inputs s.revenue_tiers policy revenue anomaly_score)

unfoldable pub calculate_pricing : Attestations → Address → ℕ → ℤ → ℕ → Call PricingOutput
calculate_pricing attestations business period revenue anomaly_score = do
  ensure (leb anomaly_score 100) score_too_large
  stored ← gets (λ s. s.pricing_policy)
  policy ← expect stored no_policy
  ensure policy.enabled policy_disabled
  known ← gets (λ s. s.attestation_contract)
  contract ← expect known no_attestation_contract
  ensure (attestations.has_attestation contract business period) attestation_missing
  ensure (not (attestations.has_revocation contract business period)) attestation_revoked
  gets (λ s. pricing_output_for_inputs s.revenue_tiers policy revenue anomaly_score)
