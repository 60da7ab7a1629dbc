-- ===== src/Curve/Rate.antt =====
-- A larger revenue never gives a higher rate, and a higher anomaly score never a lower one.
use native.Mathlib.Nat.{mul-le-mul_right}
use veritasor_contracts.Prelude.{ℕ, ◌+◌, ◌≤◌, List, [], ◌∷◌, Option, none, some, arith}
use veritasor_contracts.Prelude.Int.{ℤ, ◌≤ℤ◌}
use veritasor_contracts.Curve.Types.{PricingPolicy, RevenueTier}
use veritasor_contracts.Curve.Calls.{
  scaled_risk_premium_bps, find_from, find_tier_discount, assemble_pricing_output,
  pricing_output_for_inputs,
}

find_from_monotone :
    (ts : List RevenueTier) (r q : ℤ) (i j b c l m : ℕ)
    → r ≤ℤ q
    → b ≤ c
    → (find_from r ts i b l).0 ≤ (find_from q ts j c m).0
unfolding find_from
find_from_monotone [] r q i j b c l m more le = le
find_from_monotone (t ∷ ts) r q i j b c l m more le =
    find_from_monotone ts r q (i + 1) (j + 1) _ _ _ _ more (ground arith)

discount_monotone :
    (tiers : Option (List RevenueTier)) (r q : ℤ)
    → r ≤ℤ q
    → (find_tier_discount tiers r).0 ≤ (find_tier_discount tiers q).0
unfolding find_tier_discount
discount_monotone none r q more = omega arith
discount_monotone (some tiers) r q more =
    find_from_monotone tiers r q 0 0 0 0 0 0 more (omega arith)

premium_monotone :
    (a b per : ℕ) → a ≤ b → scaled_risk_premium_bps a per ≤ scaled_risk_premium_bps b per
unfolding scaled_risk_premium_bps
premium_monotone a b per le = omega (arith, mul-le-mul_right per le)

assemble_monotone :
    (p : PricingPolicy) (x y d e l m : ℕ)
    → x ≤ y
    → e ≤ d
    → (assemble_pricing_output p x d l).apr_bps ≤ (assemble_pricing_output p y e m).apr_bps
unfolding assemble_pricing_output
assemble_monotone p x y d e l m le lower = omega arith

pub output_monotone :
    (tiers : Option (List RevenueTier)) (p : PricingPolicy) (r q : ℤ) (a b : ℕ)
    → r ≤ℤ q
    → a ≤ b
    → (pricing_output_for_inputs tiers p q a).apr_bps
      ≤ (pricing_output_for_inputs tiers p r b).apr_bps
unfolding pricing_output_for_inputs
output_monotone tiers p r q a b more le =
    assemble_monotone p _ _ _ _ _ _ (premium_monotone a b p.risk_premium_bps_per_point le)
      (discount_monotone tiers r q more)
