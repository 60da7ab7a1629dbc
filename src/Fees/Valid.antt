-- ===== src/Fees/Valid.antt =====
-- The invariant of the discount tables, and the setters that keep it.
use veritasor_contracts.Prelude.{
  sym, subst, ℕ, ◌≤◌, ◌<◌, ◌≡◌, refl, true, List, [], ◌∷◌, All, none, Address, ok, arith, length,
}
use veritasor_contracts.Fees.{
  Fees, max_tier, discounts_ok, strictly_ascending, get_tier_discount, set_tier_discount,
  get_business_tier, set_business_tier, get_volume_thresholds, get_volume_discounts_vec,
  set_volume_brackets,
}

-- Each number is below the next.
abbrev pub IsAscending : List ℕ → Type 0
IsAscending [] = Unit
IsAscending (x ∷ []) = Unit
IsAscending (x ∷ y ∷ rest) = (x < y) × IsAscending (y ∷ rest)

strictly_ascending-IsAscending : (xs : List ℕ) → strictly_ascending xs ≡ true → IsAscending xs
unfolding strictly_ascending
strictly_ascending-IsAscending [] h = tt
strictly_ascending-IsAscending (x ∷ []) h = tt
strictly_ascending-IsAscending (x ∷ y ∷ rest) h =
    (ground arith, strictly_ascending-IsAscending (y ∷ rest) (ground arith))

discounts_ok-All : (ds : List ℕ) → discounts_ok ds ≡ true → All (λ d. d ≤ 10000) ds
unfolding discounts_ok
discounts_ok-All [] h = tt
discounts_ok-All (d ∷ ds) h = (ground arith, discounts_ok-All ds (ground arith))

module _ {L : Type 0} where
  pub record IsValidFees (s : Fees L) : Type 0 where
    pub tier_le : (b : Address) → get_business_tier s b ≤ max_tier
    pub tier_discount_le : (t : ℕ) → get_tier_discount s t ≤ 10000
    pub same_length : length (get_volume_thresholds s) ≡ length (get_volume_discounts_vec s)
    pub ascending : IsAscending (get_volume_thresholds s)
    pub discounts_le : All (λ d. d ≤ 10000) (get_volume_discounts_vec s)

  -- `set_tier_discount` accepts only a tier of at most 9 with a discount of at most 10000, and
  -- then the tables stay valid.
  pub set_tier_discount-IsValidFees :
      (tier discount : ℕ) (s s' : Fees L)
      → IsValidFees s
      → set_tier_discount tier discount s ≡ ok (tt, s')
      → IsValidFees s' × (get_tier_discount s' tier ≡ discount) × (tier ≤ max_tier)
  unfolding set_tier_discount get_tier_discount get_business_tier get_volume_thresholds
      get_volume_discounts_vec
  set_tier_discount-IsValidFees tier discount s s' v h = (
    record {
      tier_le = λ b. ground (arith, v.tier_le b);
      tier_discount_le = λ t. ground (arith, v.tier_discount_le t);
      same_length = ground (arith, v.same_length);
      ascending = ground (arith, v.ascending);
      discounts_le = ground (arith, v.discounts_le);
    },
    ground arith,
    ground arith,
  )

  -- `set_business_tier` accepts only a tier of at most 9, and then the tables stay valid.
  pub set_business_tier-IsValidFees :
      (business : Address) (tier : ℕ) (s s' : Fees L)
      → IsValidFees s
      → set_business_tier business tier s ≡ ok (tt, s')
      → IsValidFees s' × (get_business_tier s' business ≡ tier)
  unfolding set_business_tier get_tier_discount get_business_tier get_volume_thresholds
      get_volume_discounts_vec
  set_business_tier-IsValidFees business tier s s' v h = (
    record {
      tier_le = λ b. ground (arith, v.tier_le b);
      tier_discount_le = λ t. ground (arith, v.tier_discount_le t);
      same_length = ground (arith, v.same_length);
      ascending = ground (arith, v.ascending);
      discounts_le = ground (arith, v.discounts_le);
    },
    ground arith,
  )

  -- Brackets that `set_volume_brackets` accepts keep valid tables valid and are what is stored.
  pub set_volume_brackets-IsValidFees :
      (thresholds discounts : List ℕ) (s s' : Fees L)
      → IsValidFees s
      → set_volume_brackets thresholds discounts s ≡ ok (tt, s')
      → IsValidFees s'
        × (get_volume_thresholds s' ≡ thresholds)
        × (get_volume_discounts_vec s' ≡ discounts)
  unfolding set_volume_brackets get_tier_discount get_business_tier get_volume_thresholds
      get_volume_discounts_vec
  set_volume_brackets-IsValidFees ths ds s s' v h =
      let thresholds_set : get_volume_thresholds s' ≡ ths = ground arith in
      let discounts_set : get_volume_discounts_vec s' ≡ ds = ground arith in
      (
        record {
          tier_le = λ b. ground (arith, v.tier_le b);
          tier_discount_le = λ t. ground (arith, v.tier_discount_le t);
          same_length = ground arith;
          ascending =
              subst IsAscending (sym thresholds_set)
                (strictly_ascending-IsAscending ths (ground arith));
          discounts_le =
              subst (All (λ d. d ≤ 10000)) (sym discounts_set) (discounts_ok-All ds (ground arith));
        },
        thresholds_set,
        discounts_set,
      )

  -- A storage in which no discount is set.
  pub record IsUnset (s : Fees L) : Type 0 where
    pub no_discount : (t : ℕ) → s.tier_discount t ≡ none
    pub no_tier : (b : Address) → s.business_tier b ≡ none
    pub no_thresholds : s.volume_thresholds ≡ none
    pub no_discounts : s.volume_discounts ≡ none

  -- Returning calls of the three setters of the tables, one after the other.
  pub data Settings (s : Fees L) : Fees L → Type 0 where
    start : Settings s s
    setting_discount :
        {t u : Fees L} (tier discount : ℕ)
        → Settings s t
        → set_tier_discount tier discount t ≡ ok (tt, u)
        → Settings s u
    setting_tier :
        {t u : Fees L} (business : Address) (tier : ℕ)
        → Settings s t
        → set_business_tier business tier t ≡ ok (tt, u)
        → Settings s u
    setting_brackets :
        {t u : Fees L} (thresholds discounts : List ℕ)
        → Settings s t
        → set_volume_brackets thresholds discounts t ≡ ok (tt, u)
        → Settings s u

  unset-IsValidFees : (s : Fees L) → IsUnset s → IsValidFees s
  unfolding get_tier_discount get_business_tier get_volume_thresholds get_volume_discounts_vec
  unset-IsValidFees s e = record {
    tier_le = λ b. ground (arith, e.no_tier b);
    tier_discount_le = λ t. ground (arith, e.no_discount t);
    same_length = rw (e.no_thresholds, e.no_discounts) refl;
    ascending = rw e.no_thresholds tt;
    discounts_le = rw e.no_discounts tt;
  }

  -- From a storage in which no discount is set, every run of returning calls of the three setters
  -- leaves the tables valid: no tier is above 9, no tier discount above 10000, there are as many
  -- volume thresholds as volume discounts, each threshold is below the next, and no volume discount
  -- is above 10000.
  pub Settings-IsValidFees : (s s' : Fees L) → IsUnset s → Settings s s' → IsValidFees s'
  Settings-IsValidFees s s' e start = unset-IsValidFees s e
  Settings-IsValidFees s s' e (setting_discount {t = t} tier discount past h) =
      (set_tier_discount-IsValidFees tier discount t s' (Settings-IsValidFees s t e past) h).0
  Settings-IsValidFees s s' e (setting_tier {t = t} business tier past h) =
      (set_business_tier-IsValidFees business tier t s' (Settings-IsValidFees s t e past) h).0
  Settings-IsValidFees s s' e (setting_brackets {t = t} ths ds past h) =
      (set_volume_brackets-IsValidFees ths ds t s' (Settings-IsValidFees s t e past) h).0
