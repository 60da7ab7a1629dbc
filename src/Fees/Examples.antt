-- ===== src/Fees/Examples.antt =====
-- Tests of the fees and the theorems at concrete inputs.
use veritasor_contracts.Prelude.{
  settle, ℕ, ◌≤◌, ◌≡◌, ◌⊎◌, refl, true, [], ◌∷◌, Option, none, some, Address, ok, err, arith, ◌==◌,
  if◌then◌else◌,
}
use veritasor_contracts.Prelude.Int.{div_ℤ, ◌-ℤ◌, ◌*ℤ◌, ℤ, pos, ◌+ℤ◌, ◌<ℤ◌, ◌≤ℤ◌}
use veritasor_contracts.Fees.{
  Fees, FeeConfig, fee_overflow, compute_fee, get_tier_discount, get_business_tier,
  get_business_count, get_volume_thresholds, get_volume_discounts_vec, set_volume_brackets,
  volume_discount_for_count, strictly_ascending, discounts_ok, set_tier_discount, set_business_tier,
  not_ascending, get_effective_fee_config, discounted_fee, calculate_fee, collect_fee_from,
}
use veritasor_contracts.Fees.Compute.{effective, compute_fee_laws}
use veritasor_contracts.Fees.Brackets.{Earns}
use veritasor_contracts.Fees.Valid.{
  IsValidFees, start, setting_discount, setting_tier, setting_brackets, Settings-IsValidFees,
}
use veritasor_contracts.Fees.Charging.{calculate_fee_lem, collect_fee_from-ok}

abbrev usdc : FeeConfig
usdc = record { token = 1; collector = 2; base_fee = pos 1000000; enabled = true }

-- Tier 1 has 20 %, the brackets are 10 and 50 attestations, business 7 is in tier 1 with 12.
abbrev some_fees : Fees ℤ
some_fees = record {
  fee_config = some usdc;
  pending_fee_config = none;
  dao = none;
  tier_discount = λ t. if t == 1 then some 2000 else none;
  business_tier = λ b. if b == 7 then some 1 else none;
  business_count = λ b. if b == 7 then some 12 else none;
  volume_thresholds = some (10 ∷ 50 ∷ []);
  volume_discounts = some (500 ∷ 1000 ∷ []);
  ledger = pos 0;
}

abbrev no_dao : Address → Option FeeConfig
no_dao a = none

abbrev move : Address → Address → Address → ℤ → ℤ → Option ℤ
move token from to amount total = some (total +ℤ amount)

some_fees-IsValidFees : IsValidFees some_fees
unfolding get_business_tier get_tier_discount get_volume_thresholds get_volume_discounts_vec
    strictly_ascending discounts_ok
some_fees-IsValidFees = record {
  tier_le = λ b. ground arith;
  tier_discount_le = λ t. ground arith;
  same_length = refl;
  ascending = (omega arith, tt);
  discounts_le = (omega arith, (omega arith, tt));
}

charged : calculate_fee no_dao some_fees 7 ≡ ok (pos 760000)
unfolding calculate_fee discounted_fee compute_fee get_business_count volume_discount_for_count ◌*ℤ◌
    ◌-ℤ◌ get_tier_discount get_business_tier div_ℤ
charged = refl

discount_7 : volume_discount_for_count some_fees 12 ≡ ok 500
unfolding volume_discount_for_count
discount_7 = refl

-- One of the products overflows in one order of the discounts and not in the other.
order_at_the_limit :
    (compute_fee (pos 17014118346046923173168730371588411) 0 10000 ≡ err fee_overflow)
    × (compute_fee (pos 17014118346046923173168730371588411) 10000 0 ≡ ok (pos 0))
unfolding compute_fee ◌*ℤ◌ ◌-ℤ◌ div_ℤ
order_at_the_limit = (refl, refl)

compute_fee_laws_example :
    (fee fee' : ℕ) × (compute_fee (pos 1000000) 2000 500 ≡ ok (pos fee))
    × (compute_fee (pos 1000000) 500 2000 ≡ ok (pos fee))
    × (compute_fee (pos 1000000) 3000 700 ≡ ok (pos fee'))
    × (fee' ≤ fee)
    × (fee ≤ 1000000)
compute_fee_laws_example =
    compute_fee_laws 1000000 2000 3000 500 700 (omega arith) (omega arith) (omega arith)
      (omega arith) (omega arith)

calculate_fee_lem_example :
    (d : ℕ) × Earns
      (get_volume_thresholds some_fees)
      (get_volume_discounts_vec some_fees)
      (get_business_count some_fees 7)
      d
    × (calculate_fee no_dao some_fees 7
        ≡ ok (
            pos
              (effective 1000000 (get_tier_discount some_fees (get_business_tier some_fees 7)) d)))
unfolding get_effective_fee_config
calculate_fee_lem_example =
    calculate_fee_lem no_dao some_fees 7 usdc 1000000 some_fees-IsValidFees refl refl refl
      (omega arith)

collect_fee_from-ok_example :
    (calculate_fee no_dao some_fees 7 ≡ ok (pos 760000))
    × (((pos 760000 ≤ℤ pos 0) × (record some_fees { ledger = pos 760000 } ≡ some_fees))
        ⊎ ((pos 0 <ℤ pos 760000)
            × ((c : FeeConfig) × (ledger : ℤ) × (get_effective_fee_config no_dao some_fees ≡ some c)
                × (move c.token 7 c.collector (pos 760000) (pos 0) ≡ some ledger)
                × (record some_fees { ledger = pos 760000 }
                    ≡ record some_fees { ledger = ledger }))))
unfolding collect_fee_from discounted_fee compute_fee get_business_count ◌+ℤ◌
    volume_discount_for_count ◌*ℤ◌ ◌-ℤ◌ get_tier_discount get_business_tier div_ℤ
collect_fee_from-ok_example =
    collect_fee_from-ok no_dao move 7 7 (pos 760000) some_fees
      (record some_fees { ledger = pos 760000 }) refl

abbrev no_fees : Fees ℤ
no_fees = record some_fees {
  tier_discount = λ t. none;
  business_tier = λ b. none;
  volume_thresholds = none;
  volume_discounts = none;
}

abbrev fees_1 : Fees ℤ
fees_1 = settle no_fees (set_tier_discount 2 2000 no_fees)

abbrev fees_2 : Fees ℤ
fees_2 = settle fees_1 (set_business_tier 7 2 fees_1)

abbrev fees_3 : Fees ℤ
fees_3 = settle fees_2 (set_volume_brackets (5 ∷ 8 ∷ []) (300 ∷ 900 ∷ []) fees_2)

-- Two equal thresholds are refused.
equal_thresholds : set_volume_brackets (5 ∷ 5 ∷ []) (300 ∷ 900 ∷ []) fees_3 ≡ err not_ascending
unfolding set_volume_brackets
equal_thresholds = refl

Settings-IsValidFees_example : IsValidFees fees_3
unfolding set_tier_discount set_business_tier set_volume_brackets
Settings-IsValidFees_example =
    Settings-IsValidFees no_fees fees_3
      (record {
        no_discount = λ t. refl;
        no_tier = λ b. refl;
        no_thresholds = refl;
        no_discounts = refl;
      })
      (setting_brackets (5 ∷ 8 ∷ []) (300 ∷ 900 ∷ [])
        (setting_tier 7 2 (setting_discount 2 2000 start refl) refl) refl)
