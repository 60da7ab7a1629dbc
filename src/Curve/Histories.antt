-- ===== src/Curve/Histories.antt =====
-- Histories of the pricing contract, and the policies that they store.
use veritasor_contracts.Prelude.{
  ◌≤◌, ◌≡◌, sym, subst, ◌∙◌, List, none, some, some_injective, Env, Address, ok, arith,
  Option-cases, Result-cases, inl, inr,
}
use veritasor_contracts.Curve.Types.{PricingPolicy, RevenueTier, Curve}
use veritasor_contracts.Curve.Calls.{
  initialize, require_admin, set_attestation_contract, set_pricing_policy, check_tiers,
  set_revenue_tiers,
}

pub record IsPolicy (p : PricingPolicy) : Type 0 where
  pub ordered : p.min_apr_bps ≤ p.base_apr_bps
  pub capped : p.base_apr_bps ≤ p.max_apr_bps
  pub whole : p.max_apr_bps ≤ 10000
  pub premium : p.risk_premium_bps_per_point ≤ 1000

-- A returning call that may change the storage.
pub data Step (s s' : Curve) : Type 0 where
  initializing : (env : Env) (admin : Address) → initialize env admin s ≡ ok (tt, s') → Step s s'
  setting_contract :
      (env : Env) (admin c : Address)
      → set_attestation_contract env admin c s ≡ ok (tt, s')
      → Step s s'
  setting_policy :
      (env : Env) (admin : Address) (p : PricingPolicy)
      → set_pricing_policy env admin p s ≡ ok (tt, s')
      → Step s s'
  setting_tiers :
      (env : Env) (admin : Address) (ts : List RevenueTier)
      → set_revenue_tiers env admin ts s ≡ ok (tt, s')
      → Step s s'

abbrev pub deployed : Curve
deployed = record {
  admin = none;
  attestation_contract = none;
  pricing_policy = none;
  revenue_tiers = none;
}

pub data History : Curve → Type 0 where
  start : History deployed
  then_step : {s s' : Curve} → History s → Step s s' → History s'

require_admin_kept :
    (env : Env) (admin : Address) (s s' : Curve) → require_admin env admin s ≡ ok (tt, s') → s' ≡ s
unfolding require_admin
require_admin_kept env admin s s' h = elim (Option-cases s.admin) [
  | inl e ↦ absurd (ground (arith, e))
  | inr (a, e) ↦ ground (arith, e)
]

set_pricing_policy-ok :
    (env : Env) (admin : Address) (p : PricingPolicy) (s s' : Curve)
    → set_pricing_policy env admin p s ≡ ok (tt, s')
    → IsPolicy p × (s'.pricing_policy ≡ some p)
unfolding set_pricing_policy
set_pricing_policy-ok env admin p s s' h = elim (Result-cases (require_admin env admin s)) [
  | inr (bad, f) ↦ absurd (ground (arith, f))
  | inl ((u, t), f) ↦ (
    record {
      ordered = ground (arith, f);
      capped = ground (arith, f);
      whole = ground (arith, f);
      premium = ground (arith, f);
    },
    ground (arith, f),
  )
]

-- The calls other than `set_pricing_policy` keep the policy.
policy_kept_by_initialize :
    (env : Env) (admin : Address) (s s' : Curve)
    → initialize env admin s ≡ ok (tt, s')
    → s'.pricing_policy ≡ s.pricing_policy
unfolding initialize
policy_kept_by_initialize env admin s s' h = ground arith

policy_kept_by_contract :
    (env : Env) (admin c : Address) (s s' : Curve)
    → set_attestation_contract env admin c s ≡ ok (tt, s')
    → s'.pricing_policy ≡ s.pricing_policy
unfolding set_attestation_contract
policy_kept_by_contract env admin c s s' h = elim (Result-cases (require_admin env admin s)) [
  | inr (bad, f) ↦ absurd (ground (arith, f))
  | inl ((u, t), f) ↦ ground (arith, f, require_admin_kept env admin s t f)
]

policy_kept_by_tiers :
    (env : Env) (admin : Address) (ts : List RevenueTier) (s s' : Curve)
    → set_revenue_tiers env admin ts s ≡ ok (tt, s')
    → s'.pricing_policy ≡ s.pricing_policy
unfolding set_revenue_tiers
policy_kept_by_tiers env admin ts s s' h = elim (Result-cases (require_admin env admin s)) [
  | inr (bad, f) ↦ absurd (ground (arith, f))
  | inl ((u, t), f) ↦ elim (Result-cases (check_tiers ts none 0)) [
    | inr (bad, g) ↦ absurd (ground (arith, f, g))
    | inl (v, g) ↦ ground (arith, f, g, require_admin_kept env admin s t f)
  ]
]

pub History-IsPolicy :
    (s : Curve) (p : PricingPolicy) → History s → s.pricing_policy ≡ some p → IsPolicy p
History-IsPolicy s p start stored = absurd (ground arith)
History-IsPolicy s p (then_step {s = t} past (initializing env admin h)) stored =
    History-IsPolicy t p past (sym (policy_kept_by_initialize env admin t s h) ∙ stored)
History-IsPolicy s p (then_step {s = t} past (setting_contract env admin c h)) stored =
    History-IsPolicy t p past (sym (policy_kept_by_contract env admin c t s h) ∙ stored)
History-IsPolicy s p (then_step {s = t} past (setting_tiers env admin ts h)) stored =
    History-IsPolicy t p past (sym (policy_kept_by_tiers env admin ts t s h) ∙ stored)
History-IsPolicy s p (then_step {s = t} past (setting_policy env admin q h)) stored =
    let (good, new) = set_pricing_policy-ok env admin q t s h in
    subst IsPolicy (some_injective q p (sym new ∙ stored)) good
