-- ===== src/Fees.antt =====
-- Dynamic attestation fees, contracts/attestation/src/dynamic_fees.rs: the configuration, the tier
-- and volume discounts, the fee and its collection.
mod Compute
mod Brackets
mod Valid
mod Charging
mod Examples
use veritasor_contracts.Prelude.{
  ℕ, zero, suc, ◌+◌, ◌-◌, Bool, true, false, not, ◌&&◌, List, [], ◌∷◌, Option, none, some, get_or,
  Env, Address, Result, ok, err, Action, pure, ensure, gets, modify, expect, ◌>>=◌, ◌>>◌, ⊤, Slots,
  store, is_some, ltb, leb, ◌==◌, if◌then◌else◌, length, get_elem?,
}
use veritasor_contracts.Prelude.Int.{ℤ, pos, ◌-ℤ◌, ◌*ℤ◌, div_ℤ, ltb_ℤ, leb_ℤ, checked, u64_max}

pub record FeeConfig : Type 0 where
  pub token : Address
  pub collector : Address
  pub base_fee : ℤ
  pub enabled : Bool

pub record PendingFeeConfig : Type 0 where
  pub config : FeeConfig
  pub effective_at : ℕ
  pub proposed_by : Address

-- The panics, named for their messages.
pub data Error : Type 0 where
  base_fee_negative fee_overflow fee_negative fee_exceeds_base : Error
  tier_exceeds_max discount_too_high lengths_differ not_ascending missing_element : Error
  count_overflow no_fee_config transfer_failed : Error

-- The fee part of the instance storage, and the token's ledger.
pub record Fees (L : Type 0) : Type 0 where
  pub fee_config : Option FeeConfig
  pub pending_fee_config : Option PendingFeeConfig
  pub dao : Option Address
  pub tier_discount : Slots ℕ
  pub business_tier : Slots ℕ
  pub business_count : Slots ℕ
  pub volume_thresholds : Option (List ℕ)
  pub volume_discounts : Option (List ℕ)
  pub ledger : L

abbrev pub max_tier : ℕ
max_tier = 9

-- `assert!(0 <= fee <= base_fee)` at the end of `compute_fee`
unfoldable pub in_range : ℤ → ℤ → Result Error ℤ
in_range base_fee fee =
    if not (leb_ℤ (pos 0) fee)
    then err fee_negative
    else if not (leb_ℤ fee base_fee)
    then err fee_exceeds_base
    else ok fee

unfoldable pub compute_fee : ℤ → ℕ → ℕ → Result Error ℤ
unfolding in_range
compute_fee base_fee tier_discount_bps volume_discount_bps =
    let tier_factor = pos 10000 -ℤ pos tier_discount_bps in
    let vol_factor = pos 10000 -ℤ pos volume_discount_bps in
    if not (leb_ℤ (pos 0) base_fee)
    then err base_fee_negative
    else elim (checked (base_fee *ℤ tier_factor)) [
      | none ↦ err fee_overflow
      | some scaled ↦ elim (checked (scaled *ℤ vol_factor)) [
        | none ↦ err fee_overflow
        | some product ↦ in_range base_fee (div_ℤ product 100000000)
      ]
    ]

-- The `while` loop of `volume_discount_for_count`, from the highest bracket down.
unfoldable pub walk_brackets : ℕ → List ℕ → List ℕ → ℕ → Result Error ℕ
walk_brackets zero thresholds discounts count = ok 0
walk_brackets (suc i) thresholds discounts count =
    let below = walk_brackets i thresholds discounts count in
    elim (get_elem? thresholds i) [
      | none ↦ err missing_element
      | some threshold ↦
          if leb threshold count
          then elim (get_elem? discounts i) [ none ↦ err missing_element | some d ↦ ok d ]
          else below
    ]

unfoldable pub strictly_ascending : List ℕ → Bool
strictly_ascending [] = true
strictly_ascending (x ∷ []) = true
strictly_ascending (x ∷ y ∷ rest) = ltb x y && strictly_ascending (y ∷ rest)

unfoldable pub discounts_ok : List ℕ → Bool
discounts_ok [] = true
discounts_ok (d ∷ ds) = leb d 10000 && discounts_ok ds

module _ {L : Type 0} where
  unfoldable pub check_and_apply_pending_fee_config : Env → Fees L → Bool × Fees L
  check_and_apply_pending_fee_config env s = elim s.pending_fee_config [
    | none ↦ (false, s)
    | some p ↦
        if leb p.effective_at env.timestamp
        then (true, record s { fee_config = some p.config; pending_fee_config = none })
        else (false, s)
  ]

  unfoldable pub set_fee_enabled : Bool → Fees L → Fees L
  set_fee_enabled enabled s = elim s.fee_config [
    | none ↦ s
    | some c ↦ record s { fee_config = some (record c { enabled = enabled }) }
  ]

  unfoldable pub get_tier_discount : Fees L → ℕ → ℕ
  get_tier_discount s tier = get_or (s.tier_discount tier) 0

  unfoldable pub set_tier_discount : ℕ → ℕ → Action Error (Fees L) ⊤
  set_tier_discount tier discount_bps = do
    _ ← ensure (leb tier max_tier) tier_exceeds_max
    _ ← ensure (leb discount_bps 10000) discount_too_high
    modify λ s. record s { tier_discount = store s.tier_discount tier discount_bps }

  unfoldable pub get_business_tier : Fees L → Address → ℕ
  get_business_tier s business = get_or (s.business_tier business) 0

  unfoldable pub set_business_tier : Address → ℕ → Action Error (Fees L) ⊤
  set_business_tier business tier = do
    _ ← ensure (leb tier max_tier) tier_exceeds_max
    modify λ s. record s { business_tier = store s.business_tier business tier }

  unfoldable pub get_business_count : Fees L → Address → ℕ
  get_business_count s business = get_or (s.business_count business) 0

  unfoldable pub increment_business_count : Address → Action Error (Fees L) ℕ
  unfolding get_business_count
  increment_business_count business = do
    count ← gets (λ s. get_business_count s business)
    _ ← ensure (ltb count u64_max) count_overflow
    _ ← modify λ s. record s { business_count = store s.business_count business (count + 1) }
    pure (count + 1)

  unfoldable pub get_volume_thresholds : Fees L → List ℕ
  get_volume_thresholds s = get_or s.volume_thresholds []

  unfoldable pub get_volume_discounts_vec : Fees L → List ℕ
  get_volume_discounts_vec s = get_or s.volume_discounts []

  unfoldable pub set_volume_brackets : List ℕ → List ℕ → Action Error (Fees L) ⊤
  unfolding strictly_ascending discounts_ok
  set_volume_brackets thresholds discounts = do
    _ ← ensure (length thresholds == length discounts) lengths_differ
    _ ← ensure (strictly_ascending thresholds) not_ascending
    _ ← ensure (discounts_ok discounts) discount_too_high
    modify λ s. record s { volume_thresholds = some thresholds; volume_discounts = some discounts }

  unfoldable pub volume_discount_for_count : Fees L → ℕ → Result Error ℕ
  unfolding walk_brackets get_volume_thresholds get_volume_discounts_vec
  volume_discount_for_count s count =
      walk_brackets (length (get_volume_thresholds s)) (get_volume_thresholds s)
        (get_volume_discounts_vec s) count

  -- The fee under a given configuration, with the discounts of a business.
  unfoldable pub discounted_fee : Fees L → Address → FeeConfig → Result Error ℤ
  discounted_fee s business config =
      let tier_disc = get_tier_discount s (get_business_tier s business) in
      elim (volume_discount_for_count s (get_business_count s business)) [
        | err e ↦ err e
        | ok vol_disc ↦ compute_fee config.base_fee tier_disc vol_disc
      ]

  -- `dao_config` is the answer of the contract at an address to `get_attestation_fee_config`.
  module _ (dao_config : Address → Option FeeConfig) where
    unfoldable pub get_fee_config_from_dao : Fees L → Option FeeConfig
    get_fee_config_from_dao s = elim s.dao [ none ↦ none | some dao ↦ dao_config dao ]

    unfoldable pub get_effective_fee_config : Fees L → Option FeeConfig
    unfolding get_fee_config_from_dao
    get_effective_fee_config s = elim (get_fee_config_from_dao s) [
      | some c ↦ some c
      | none ↦ s.fee_config
    ]

    unfoldable pub calculate_fee : Fees L → Address → Result Error ℤ
    unfolding get_effective_fee_config discounted_fee
    calculate_fee s business = elim (get_effective_fee_config s) [
      | none ↦ ok (pos 0)
      | some config ↦ if config.enabled then discounted_fee s business config else ok (pos 0)
    ]

    -- `transfer` is `token::Client::transfer`: the token, the sender, the receiver, the amount.
    module _ (transfer : Address → Address → Address → ℤ → L → Option L) where
      unfoldable pub pay_fee : Address → ℤ → Action Error (Fees L) ℤ
      unfolding get_effective_fee_config
      pay_fee payer fee = do
        found ← gets get_effective_fee_config
        config ← expect found no_fee_config
        moved ← gets (λ s. transfer config.token payer config.collector fee s.ledger)
        ledger ← expect moved transfer_failed
        _ ← modify λ s. record s { ledger = ledger }
        pure fee

      unfoldable pub collect_fee_from : Address → Address → Action Error (Fees L) ℤ
      unfolding calculate_fee pay_fee
      collect_fee_from payer business s = elim (calculate_fee s business) [
        | err e ↦ err e
        | ok fee ↦ if ltb_ℤ (pos 0) fee then pay_fee payer fee s else ok (fee, s)
      ]

      unfoldable pub collect_fee : Address → Action Error (Fees L) ℤ
      unfolding collect_fee_from
      collect_fee business = collect_fee_from business business
