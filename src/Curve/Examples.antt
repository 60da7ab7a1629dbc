-- ===== src/Curve/Examples.antt =====
-- Prices under a policy with two tiers, and the theorems at them.
use veritasor_contracts.Prelude.{
  ◌≤◌, ◌≡◌, refl, true, false, List, [], ◌∷◌, none, some, Env, Address, ok, err, settle, arith,
}
use veritasor_contracts.Prelude.Int.{pos}
use veritasor_contracts.Curve.Types.{
  PricingPolicy, RevenueTier, PricingOutput, Curve, Attestations, discounts_falling,
}
use veritasor_contracts.Curve.Calls.{
  initialize, require_admin, set_attestation_contract, set_pricing_policy, check_tiers,
  set_revenue_tiers, scaled_risk_premium_bps, find_from, find_tier_discount,
  assemble_pricing_output, pricing_output_for_inputs, get_pricing_quote, calculate_pricing,
}
use veritasor_contracts.Curve.Histories.{
  deployed, History, start, then_step, initializing, setting_contract, setting_policy,
  setting_tiers,
}
use veritasor_contracts.Curve.Price.{calculate_pricing_bounded, calculate_pricing_monotone}

abbrev anyone : Env
anyone = record { timestamp = 0; sequence = 0; authorized = λ a. true; current_contract = 99 }

abbrev attested : Attestations
attested = record { has_attestation = λ c b p. true; has_revocation = λ c b p. false }

program : Unit {0}
unfolding initialize require_admin set_attestation_contract set_pricing_policy check_tiers
    set_revenue_tiers scaled_risk_premium_bps find_from find_tier_discount assemble_pricing_output
    pricing_output_for_inputs get_pricing_quote calculate_pricing
program = tt

abbrev policy : PricingPolicy
policy = record {
  base_apr_bps = 1000;
  min_apr_bps = 300;
  max_apr_bps = 3000;
  risk_premium_bps_per_point = 10;
  enabled = true;
}

-- The second and the third tier have the same discount.
abbrev tiers : List RevenueTier
tiers =
    record { min_revenue = pos 1000; discount_bps = 100 }
    ∷ record { min_revenue = pos 5000; discount_bps = 250 }
    ∷ record { min_revenue = pos 9000; discount_bps = 250 }
    ∷ []

abbrev c1 : Curve
c1 = settle deployed (initialize anyone 1 deployed)

abbrev c2 : Curve
c2 = settle c1 (set_attestation_contract anyone 1 20 c1)

abbrev c3 : Curve
c3 = settle c2 (set_pricing_policy anyone 1 policy c2)

abbrev c4 : Curve
c4 = settle c3 (set_revenue_tiers anyone 1 tiers c3)

h4 : History c4
unfolding program
h4 =
    then_step
      (then_step
        (then_step (then_step start (initializing anyone 1 refl))
          (setting_contract anyone 1 20 refl))
        (setting_policy anyone 1 policy refl))
      (setting_tiers anyone 1 tiers refl)

abbrev low_price : PricingOutput
low_price = record {
  apr_bps = 1200;
  base_apr_bps = 1000;
  risk_premium_bps = 300;
  tier_discount_bps = 100;
  tier_level = 1;
}

abbrev high_price : PricingOutput
high_price = record {
  apr_bps = 950;
  base_apr_bps = 1000;
  risk_premium_bps = 200;
  tier_discount_bps = 250;
  tier_level = 2;
}

-- A revenue above the third threshold is reported at the second tier, whose discount is the same.
priced :
    (calculate_pricing attested 5 202601 (pos 1500) 30 c4 ≡ ok (low_price, c4))
    × (calculate_pricing attested 5 202602 (pos 9500) 20 c4 ≡ ok (high_price, c4))
    × (check_tiers
          (record { min_revenue = pos 1; discount_bps = 9 }
            ∷ record { min_revenue = pos 2; discount_bps = 8 }
            ∷ [])
          none
          0
        ≡ err discounts_falling)
unfolding program
priced = (refl, refl, refl)

calculate_pricing_bounded_example :
    (p : PricingPolicy) × (c : Address) × (c4.pricing_policy ≡ some p)
    × (c4.attestation_contract ≡ some c)
    × (p.enabled ≡ true)
    × (30 ≤ 100)
    × (attested.has_attestation c 5 202601 ≡ true)
    × (attested.has_revocation c 5 202601 ≡ false)
    × (p.min_apr_bps ≤ 1200)
    × (1200 ≤ p.max_apr_bps)
    × (p.max_apr_bps ≤ 10000)
    × (c4 ≡ c4)
    × (get_pricing_quote (pos 1500) 30 c4 ≡ ok (low_price, c4))
unfolding program
calculate_pricing_bounded_example =
    calculate_pricing_bounded attested 5 202601 30 (pos 1500) low_price c4 c4 h4 refl

calculate_pricing_monotone_example : 950 ≤ 1200
unfolding program
calculate_pricing_monotone_example =
    calculate_pricing_monotone attested attested 5 5 202601 202602 30 20 (pos 1500) (pos 9500)
      low_price high_price c4 c4 c4 refl refl (omega arith) (omega arith)
