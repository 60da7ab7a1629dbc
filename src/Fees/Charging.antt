-- ===== src/Fees/Charging.antt =====
-- What a business is charged, and what a collection does.
use veritasor_contracts.Prelude.{
  ℕ, ◌*◌, ◌≤◌, ◌<◌, ◌≡◌, ◌⊎◌, inl, inr, true, Option, some, Address, ok, arith, Bool-cases,
  Option-cases, Result-cases, ◌∙◌, ap, sym,
}
use veritasor_contracts.Prelude.Int.{ℤ, pos, ◌<ℤ◌, ◌≤ℤ◌, i128_mod, ltb_ℤ}
use veritasor_contracts.Fees.{
  Fees, FeeConfig, get_tier_discount, get_business_tier, get_business_count, get_volume_thresholds,
  get_volume_discounts_vec, volume_discount_for_count, get_effective_fee_config, discounted_fee,
  calculate_fee, pay_fee, collect_fee_from,
}
use veritasor_contracts.Fees.Compute.{effective, compute_fee_small}
use veritasor_contracts.Fees.Brackets.{Earns, Earns-le, walk_brackets_all}
use veritasor_contracts.Fees.Valid.{IsValidFees}

positive : (f : ℤ) → ltb_ℤ (pos 0) f ≡ true → pos 0 <ℤ f
positive f h = ground arith

module _ {L : Type 0} where
  volume_discount-Earns :
      (s : Fees L) (count : ℕ)
      → IsValidFees s
      → (d : ℕ) × (volume_discount_for_count s count ≡ ok d)
        × Earns (get_volume_thresholds s) (get_volume_discounts_vec s) count d
  unfolding volume_discount_for_count
  volume_discount-Earns s count v =
      walk_brackets_all (get_volume_thresholds s) (get_volume_discounts_vec s) count v.same_length

  discounted_fee_lem :
      (s : Fees L) (business : Address) (c : FeeConfig) (b d : ℕ)
      → c.base_fee ≡ pos b
      → b * 100000000 < i128_mod
      → get_tier_discount s (get_business_tier s business) ≤ 10000
      → d ≤ 10000
      → volume_discount_for_count s (get_business_count s business) ≡ ok d
      → discounted_fee s business c
        ≡ ok (pos (effective b (get_tier_discount s (get_business_tier s business)) d))
  unfolding discounted_fee
  discounted_fee_lem s business c b d base small ht hd run =
      rw (run, base, discounted_fee)
        (compute_fee_small b (get_tier_discount s (get_business_tier s business)) d small ht hd)

  -- With valid tables and a base fee below 2 ^ 127 / 10 ^ 8, an enabled configuration charges the
  -- documented formula on the discount of the business's tier and on that of the highest volume
  -- threshold it has reached.
  pub calculate_fee_lem :
      (dao_config : Address → Option FeeConfig) (s : Fees L) (business : Address) (c : FeeConfig)
      (b : ℕ)
      → IsValidFees s
      → get_effective_fee_config dao_config s ≡ some c
      → c.enabled ≡ true
      → c.base_fee ≡ pos b
      → b * 100000000 < i128_mod
      → (d : ℕ) × Earns
          (get_volume_thresholds s)
          (get_volume_discounts_vec s)
          (get_business_count s business)
          d
        × (calculate_fee dao_config s business
            ≡ ok (pos (effective b (get_tier_discount s (get_business_tier s business)) d)))
  unfolding calculate_fee
  calculate_fee_lem dao_config s business c b v found on base small =
      let (d, run, earns) = volume_discount-Earns s (get_business_count s business) v in
      let le =
        Earns-le (get_volume_thresholds s) (get_volume_discounts_vec s)
          (get_business_count s business) d v.discounts_le earns in
      let fee =
        discounted_fee_lem s business c b d base small
          (v.tier_discount_le (get_business_tier s business)) le run in
      (d, earns, rw (found, on, calculate_fee) fee)

  pay_fee-ok :
      (dao_config : Address → Option FeeConfig)
      (transfer : Address → Address → Address → ℤ → L → Option L) (payer : Address) (fee paid : ℤ)
      (s s' : Fees L)
      → pay_fee dao_config transfer payer fee s ≡ ok (paid, s')
      → (c : FeeConfig) × (ledger : L) × (get_effective_fee_config dao_config s ≡ some c)
        × (transfer c.token payer c.collector fee s.ledger ≡ some ledger)
        × (s' ≡ record s { ledger = ledger })
        × (paid ≡ fee)
  unfolding pay_fee
  pay_fee-ok dao_config transfer payer fee paid s s' h =
      elim (Option-cases (get_effective_fee_config dao_config s)) [
        | inl no_config ↦ absurd (ground (arith, no_config))
        | inr (c, found) ↦ elim (Option-cases (transfer c.token payer c.collector fee s.ledger)) [
          | inl failed ↦ absurd (ground (arith, found, failed))
          | inr (ledger, moved) ↦
              (c, ledger, found, moved, ground (arith, found, moved), ground (arith, found, moved))
        ]
      ]

  -- A collection that returns has charged what `calculate_fee` says: nothing moves for a fee of
  -- zero, and a positive fee is one transfer from the payer to the collector of the effective
  -- configuration, with no other change.
  pub collect_fee_from-ok :
      (dao_config : Address → Option FeeConfig)
      (transfer : Address → Address → Address → ℤ → L → Option L) (payer business : Address)
      (fee : ℤ) (s s' : Fees L)
      → collect_fee_from dao_config transfer payer business s ≡ ok (fee, s')
      → (calculate_fee dao_config s business ≡ ok fee)
        × (((fee ≤ℤ pos 0) × (s' ≡ s))
            ⊎ ((pos 0 <ℤ fee)
                × ((c : FeeConfig) × (ledger : L) × (get_effective_fee_config dao_config s ≡ some c)
                    × (transfer c.token payer c.collector fee s.ledger ≡ some ledger)
                    × (s' ≡ record s { ledger = ledger }))))
  unfolding collect_fee_from
  collect_fee_from-ok dao_config transfer payer business fee s s' h =
      elim (Result-cases (calculate_fee dao_config s business)) [
        | inr (e, failed) ↦ absurd (ground (arith, failed))
        | inl (f, run) ↦ elim (Bool-cases (ltb_ℤ (pos 0) f)) [
          | inr free ↦
              let same : f ≡ fee = ground (arith, run) in
              (ground (arith, run), inl (ground arith, ground (arith, run)))
          | inl due ↦
              let paid : pay_fee dao_config transfer payer f s ≡ ok (fee, s') =
                rw (run, due, collect_fee_from) at h in
              let (c, ledger, found, moved, after, same) =
                pay_fee-ok dao_config transfer payer f fee s s' paid in
              (
                run ∙ ap ok (sym same),
                inr (rw same (positive f due), (c, ledger, found, rw same moved, after)),
              )
        ]
      ]
