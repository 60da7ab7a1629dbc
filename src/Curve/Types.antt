-- ===== src/Curve/Types.antt =====
-- The data of the pricing contract and its storage.
use veritasor_contracts.Prelude.{ℕ, Bool, List, Option, Address, Action}
use veritasor_contracts.Prelude.Int.{ℤ}

pub record PricingPolicy : Type 0 where
  pub base_apr_bps : ℕ
  pub min_apr_bps : ℕ
  pub max_apr_bps : ℕ
  pub risk_premium_bps_per_point : ℕ
  pub enabled : Bool

pub record RevenueTier : Type 0 where
  pub min_revenue : ℤ
  pub discount_bps : ℕ

pub record PricingOutput : Type 0 where
  pub apr_bps : ℕ
  pub base_apr_bps : ℕ
  pub risk_premium_bps : ℕ
  pub tier_discount_bps : ℕ
  pub tier_level : ℕ

-- The panics, named for their messages.
pub data Error : Type 0 where
  unauthorized already_initialized not_initialized not_admin : Error
  max_apr_too_large min_above_max base_outside premium_too_large : Error
  too_many_tiers tiers_not_ascending discount_too_large discounts_falling : Error
  score_too_large no_policy policy_disabled no_attestation_contract : Error
  attestation_missing attestation_revoked : Error

-- A field for each constructor of `DataKey`.
pub record Curve : Type 0 where
  pub admin : Option Address
  pub attestation_contract : Option Address
  pub pricing_policy : Option PricingPolicy
  pub revenue_tiers : Option (List RevenueTier)

abbrev pub Call : Type 0 → Type 0
Call A = Action Error Curve A

-- What the attestation contract at an address says of a business and a period, which is a number
-- that is only compared: whether there is an attestation, and whether it is revoked.
pub record Attestations : Type 0 where
  pub has_attestation : Address → Address → ℕ → Bool
  pub has_revocation : Address → Address → ℕ → Bool
