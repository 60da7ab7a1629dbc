-- ===== src/Curve/Price.antt =====
-- What every price is.
use veritasor_contracts.Prelude.{
  ℕ, ◌≤◌, ◌≡◌, sym, subst, ◌∙◌, ap, true, false, List, Option, some, some_injective, Address, ok,
  arith, Option-cases, inl, inr,
}
use veritasor_contracts.Prelude.Int.{ℤ, ◌≤ℤ◌}
use veritasor_contracts.Curve.Types.{PricingPolicy, RevenueTier, PricingOutput, Curve, Attestations}
use veritasor_contracts.Curve.Calls.{
  assemble_pricing_output, pricing_output_for_inputs, get_pricing_quote, calculate_pricing,
}
use veritasor_contracts.Curve.Rate.{output_monotone}
use veritasor_contracts.Curve.Histories.{IsPolicy, History, History-IsPolicy}

-- What a returning price is, and under which conditions.
calculate_pricing-ok :
    (attestations : Attestations) (b : Address) (period score : ℕ) (r : ℤ) (out : PricingOutput)
    (s s' : Curve)
    → calculate_pricing attestations b period r score s ≡ ok (out, s')
    → (p : PricingPolicy) × (c : Address) × (s.pricing_policy ≡ some p)
      × (s.attestation_contract ≡ some c)
      × (p.enabled ≡ true)
      × (score ≤ 100)
      × (attestations.has_attestation c b period ≡ true)
      × (attestations.has_revocation c b period ≡ false)
      × (out ≡ pricing_output_for_inputs s.revenue_tiers p r score)
      × (s' ≡ s)
unfolding calculate_pricing
calculate_pricing-ok attestations b period score r out s s' h =
    elim (Option-cases s.pricing_policy) [
      | inl e ↦ absurd (ground (arith, e))
      | inr (p, e) ↦ elim (Option-cases s.attestation_contract) [
        | inl f ↦ absurd (ground (arith, e, f))
        | inr (c, f) ↦ (
          p,
          c,
          e,
          f,
          ground (arith, e, f),
          ground (arith, e, f),
          ground (arith, e, f),
          ground (arith, e, f),
          ground (arith, e, f),
          ground (arith, e, f),
        )
      ]
    ]

output_within :
    (tiers : Option (List RevenueTier)) (p : PricingPolicy) (r : ℤ) (score : ℕ)
    → IsPolicy p
    → (p.min_apr_bps ≤ (pricing_output_for_inputs tiers p r score).apr_bps)
      × ((pricing_output_for_inputs tiers p r score).apr_bps ≤ p.max_apr_bps)
unfolding pricing_output_for_inputs assemble_pricing_output
output_within tiers p r score v = (omega (arith, v.ordered, v.capped), omega arith)

-- A price that is returned after any history: the policy is enabled, the score is at most 100, the
-- attestation exists and is not revoked, the rate is within the bounds of the policy, of which the
-- upper one is at most 10000 basis points, the storage is unchanged, and the quote for the same
-- revenue and score is the same.
pub calculate_pricing_bounded :
    (attestations : Attestations) (b : Address) (period score : ℕ) (r : ℤ) (out : PricingOutput)
    (s s' : Curve)
    → History s
    → calculate_pricing attestations b period r score s ≡ ok (out, s')
    → (p : PricingPolicy) × (c : Address) × (s.pricing_policy ≡ some p)
      × (s.attestation_contract ≡ some c)
      × (p.enabled ≡ true)
      × (score ≤ 100)
      × (attestations.has_attestation c b period ≡ true)
      × (attestations.has_revocation c b period ≡ false)
      × (p.min_apr_bps ≤ out.apr_bps)
      × (out.apr_bps ≤ p.max_apr_bps)
      × (p.max_apr_bps ≤ 10000)
      × (s' ≡ s)
      × (get_pricing_quote r score s ≡ ok (out, s))
unfolding get_pricing_quote
calculate_pricing_bounded attestations b period score r out s s' past h =
    let (p, c, stored, known, enabled, few, attested, valid, same, kept) =
      calculate_pricing-ok attestations b period score r out s s' h in
    let v = History-IsPolicy s p past stored in
    let (low, high) = output_within s.revenue_tiers p r score v in
    (
      p,
      c,
      stored,
      known,
      enabled,
      few,
      attested,
      valid,
      subst (λ x. p.min_apr_bps ≤ x.apr_bps) (sym same) low,
      subst (λ x. x.apr_bps ≤ p.max_apr_bps) (sym same) high,
      v.whole,
      kept,
      ground (arith, stored, enabled, few, same),
    )

-- Of two prices under the same storage, the one for a revenue at least as large and a score at most
-- as high has a rate that is not higher.
pub calculate_pricing_monotone :
    (attestations attestations' : Attestations) (b c : Address) (period period' x y : ℕ) (r q : ℤ)
    (out out' : PricingOutput) (s t t' : Curve)
    → calculate_pricing attestations b period r x s ≡ ok (out, t)
    → calculate_pricing attestations' c period' q y s ≡ ok (out', t')
    → r ≤ℤ q
    → y ≤ x
    → out'.apr_bps ≤ out.apr_bps
calculate_pricing_monotone attestations attestations' b c period period' x y r q out out' s t t' h k
      more less =
    let (p, d, stored, known, enabled, few, attested, valid, same, kept) =
      calculate_pricing-ok attestations b period x r out s t h in
    let (p', d', stored', known', enabled', few', attested', valid', same', kept') =
      calculate_pricing-ok attestations' c period' y q out' s t' k in
    let one : p' ≡ p = some_injective p' p (sym stored' ∙ stored) in
    let rate : out'.apr_bps ≡ (pricing_output_for_inputs s.revenue_tiers p q y).apr_bps =
      ap (λ o. o.apr_bps) same'
      ∙ ap (λ o. (pricing_output_for_inputs s.revenue_tiers o q y).apr_bps) one in
    omega
      (arith, rate, ap (λ o. o.apr_bps) same, output_monotone s.revenue_tiers p r q y x more less)
