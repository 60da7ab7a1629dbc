-- ===== src/Fees/Compute.antt =====
-- The arithmetic of `compute_fee`.
use native.Mathlib.Nat.{mul-le-mul, mul-le-mul_left, mul_right_comm}
use veritasor_contracts.Prelude.{
  ℕ, ◌-◌, ◌*◌, ◌/◌, ◌≤◌, ◌<◌, ◌≡◌, ◌∙◌, ap, ok, arith, inl, inr, Option-cases,
}
use veritasor_contracts.Prelude.Int.{
  *ℤ_pos, -ℤ_pos, div_ℤ_pos, checked_pos, ℤ, pos, ◌-ℤ◌, ◌*ℤ◌, div_ℤ, ◌≤ℤ◌, checked, i128_mod,
}
use veritasor_contracts.Fees.{compute_fee, in_range}

-- The documented formula, over the natural numbers.
abbrev pub effective : ℕ → ℕ → ℕ → ℕ
effective base tier vol = base * (10000 - tier) * (10000 - vol) / 100000000

pub effective-le : (base tier vol : ℕ) → effective base tier vol ≤ base
effective-le base tier vol =
    let once : base * (10000 - tier) ≤ base * 10000 = mul-le-mul_left base (omega arith) in
    let twice : base * (10000 - tier) * (10000 - vol) ≤ base * 10000 * 10000 =
      mul-le-mul once (omega arith) in
    omega (arith, twice)

pub effective_antitone :
    (base tier tier' vol vol' : ℕ)
    → tier ≤ tier'
    → vol ≤ vol'
    → effective base tier' vol' ≤ effective base tier vol
effective_antitone base tier tier' vol vol' ht hv =
    let once : base * (10000 - tier') ≤ base * (10000 - tier) =
      mul-le-mul_left base (omega arith) in
    let twice : base * (10000 - tier') * (10000 - vol') ≤ base * (10000 - tier) * (10000 - vol) =
      mul-le-mul once (omega arith) in
    omega (arith, twice)

in_range_pos : (base fee : ℕ) → fee ≤ base → in_range (pos base) (pos fee) ≡ ok (pos fee)
unfolding in_range
in_range_pos base fee h = ground arith

-- Where both products stay below 2 ^ 127, the fee is the documented formula.
pub compute_fee-effective :
    (base tier vol : ℕ)
    → tier ≤ 10000
    → vol ≤ 10000
    → base * (10000 - tier) < i128_mod
    → base * (10000 - tier) * (10000 - vol) < i128_mod
    → compute_fee (pos base) tier vol ≡ ok (pos (effective base tier vol))
unfolding compute_fee
compute_fee-effective base tier vol ht hv once twice =
    let first = checked_pos (base * (10000 - tier)) once in
    let second = checked_pos (base * (10000 - tier) * (10000 - vol)) twice in
    rw
      (
        -ℤ_pos 10000 tier ht,
        *ℤ_pos base (10000 - tier),
        first,
        -ℤ_pos 10000 vol hv,
        *ℤ_pos (base * (10000 - tier)) (10000 - vol),
        second,
        div_ℤ_pos (base * (10000 - tier) * (10000 - vol)) 100000000,
      )
      (ground (arith, in_range_pos base (effective base tier vol) (effective-le base tier vol)))

in_range_ok : (base fee fee' : ℤ) → in_range base fee ≡ ok fee' → (pos 0 ≤ℤ fee') × (fee' ≤ℤ base)
unfolding in_range
in_range_ok base fee fee' h = (ground arith, ground arith)

-- Whatever the discounts, a fee that is returned lies between 0 and the base fee.
pub compute_fee-bounds :
    (base : ℤ) (tier vol : ℕ) (fee : ℤ)
    → compute_fee base tier vol ≡ ok fee
    → (pos 0 ≤ℤ base) × (pos 0 ≤ℤ fee) × (fee ≤ℤ base)
unfolding compute_fee
compute_fee-bounds base tier vol fee h =
    elim (Option-cases (checked (base *ℤ (pos 10000 -ℤ pos tier)))) [
      | inl over ↦ absurd (ground arith)
      | inr (scaled, e) ↦ elim (Option-cases (checked (scaled *ℤ (pos 10000 -ℤ pos vol)))) [
        | inl over ↦ absurd (ground arith)
        | inr (product, e') ↦
            let r = in_range_ok base (div_ℤ product 100000000) fee in
            (ground (arith, r), ground (arith, r), ground (arith, r))
      ]
    ]

pub compute_fee_small :
    (base tier vol : ℕ)
    → base * 100000000 < i128_mod
    → tier ≤ 10000
    → vol ≤ 10000
    → compute_fee (pos base) tier vol ≡ ok (pos (effective base tier vol))
compute_fee_small base tier vol small ht hv =
    let once : base * (10000 - tier) ≤ base * 10000 = mul-le-mul_left base (omega arith) in
    let twice : base * (10000 - tier) * (10000 - vol) ≤ base * 10000 * 10000 =
      mul-le-mul once (omega arith) in
    compute_fee-effective base tier vol ht hv (omega (arith, once)) (omega (arith, twice))

effective_comm : (base tier vol : ℕ) → effective base tier vol ≡ effective base vol tier
effective_comm base tier vol =
    ap (λ n. n / 100000000) (mul_right_comm base (10000 - tier) (10000 - vol))

-- For a base fee below 2 ^ 127 / 10 ^ 8 and discounts of at most 10000, the fee is returned, the two
-- discounts may be swapped, larger discounts give no larger fee, and the fee is at most the base
-- fee.
pub compute_fee_laws :
    (base tier tier' vol vol' : ℕ)
    → base * 100000000 < i128_mod
    → tier ≤ tier'
    → tier' ≤ 10000
    → vol ≤ vol'
    → vol' ≤ 10000
    → (fee fee' : ℕ) × (compute_fee (pos base) tier vol ≡ ok (pos fee))
      × (compute_fee (pos base) vol tier ≡ ok (pos fee))
      × (compute_fee (pos base) tier' vol' ≡ ok (pos fee'))
      × (fee' ≤ fee)
      × (fee ≤ base)
compute_fee_laws base tier tier' vol vol' small ht ht' hv hv' =
    let ge : tier ≤ 10000 = omega arith in
    let ge' : vol ≤ 10000 = omega arith in
    (
      effective base tier vol,
      effective base tier' vol',
      compute_fee_small base tier vol small ge ge',
      compute_fee_small base vol tier small ge' ge
          ∙ ap (λ n. ok (pos n)) (effective_comm base vol tier),
      compute_fee_small base tier' vol' small ht' hv',
      effective_antitone base tier tier' vol vol' ht hv,
      effective-le base tier vol,
    )
