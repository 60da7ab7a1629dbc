-- ===== src/Settlement/Amounts.antt =====
-- The repayment and its parts, over the natural numbers.
use native.Mathlib.Nat.{div-mul-le_self}
use veritasor_contracts.Prelude.{
  ℕ, zero, suc, ◌+◌, ◌-◌, ◌*◌, ◌/◌, ◌≤◌, ◌<◌, ◌≡◌, refl, ◌∙◌, ap, Bool, ◌&&◌, List, [], ◌∷◌, some,
  map, sum, arith, leb, min, Bool-cases, inl, inr,
}
use veritasor_contracts.Prelude.Int.{
  saturated, ℤ, pos, pos_part, ◌+ℤ◌, ◌-ℤ◌, ◌*ℤ◌, div_ℤ, ltb_ℤ, leb_ℤ, checked, *ℤ_pos, +ℤ_pos,
  -ℤ_pos, div_ℤ_pos,
}
use veritasor_contracts.Settlement.Types.{Agreement}
use veritasor_contracts.Settlement.Calls.{share_of, repayment, parts}

-- The limit of an agreement is a natural number and its share is at most the whole.
pub record IsAgreement (a : Agreement) (limit : ℕ) : Type 0 where
  pub capped : a.max_repayment_amount ≡ pos limit
  pub within : a.revenue_share_bps ≤ 10000

saturated-le : (n : ℕ) → pos_part (saturated (pos n)) ≤ n
unfolding saturated
saturated-le n = ground arith

saturated_nonneg : (n : ℕ) → saturated (pos n) ≡ pos (pos_part (saturated (pos n)))
unfolding saturated
saturated_nonneg n = ground arith

share_of-le : (r bps : ℕ) → share_of r bps * 10000 ≤ r * bps
unfolding share_of
share_of-le r bps =
    let le = div-mul-le_self (min (r * bps) 340282366920938463463374607431768211455) 10000 in
    omega (arith, le)

-- A repayment is at most the limit of as many periods, and at most the share of the revenue.
pub repayment-le :
    (a : Agreement) (limit n : ℕ) (total : ℤ)
    → IsAgreement a limit
    → (m : ℕ) × (repayment a total n ≡ pos m)
      × (m ≤ limit * n)
      × (m * 10000 ≤ pos_part total * a.revenue_share_bps)
unfolding repayment
repayment-le a limit n total v =
    let bounded : saturated (a.max_repayment_amount *ℤ pos n) ≡ saturated (pos (limit * n)) =
      ap (λ x. saturated (x *ℤ pos n)) v.capped ∙ ap saturated (*ℤ_pos limit n) in
    let bound = saturated-le (limit * n) in
    let most = bounded ∙ saturated_nonneg (limit * n) in
    let share = share_of-le (pos_part total) a.revenue_share_bps in
    let s = share_of (pos_part total) a.revenue_share_bps in
    let c = pos_part (saturated (pos (limit * n))) in
    let due : Bool =
      leb_ℤ (saturated (a.min_revenue_threshold *ℤ pos n)) total && ltb_ℤ (pos 0) total in
    elim (Bool-cases due) [
      | inr idle ↦ (0, ground (arith, idle), omega arith, omega arith)
      | inl owed ↦ elim (Bool-cases (leb s c)) [
        | inl below ↦ (s, ground (arith, owed, most, below), ground (arith, below, bound), share)
        | inr above ↦ (c, ground (arith, owed, most, above), bound, ground (arith, above, share))
      ]
    ]

abbrev pub equal_parts : ℕ → ℕ → ℕ → List ℕ
equal_parts part last zero = []
equal_parts part last (suc zero) = last ∷ []
equal_parts part last (suc (suc n)) = part ∷ equal_parts part last (suc n)

-- The parts of an amount for a number of periods: the last has the remainder.
abbrev pub amounts_of : ℕ → ℕ → List ℕ
amounts_of m n = equal_parts (m / n) (m / n + (m - m / n * n)) n

sum-equal_parts : (part last n : ℕ) → sum (equal_parts part last (suc n)) ≡ part * n + last
sum-equal_parts part last zero = omega arith
sum-equal_parts part last (suc n) = omega (arith, sum-equal_parts part last n)

pub sum-amounts_of : (m n : ℕ) → sum (amounts_of m (suc n)) ≡ m
sum-amounts_of m n =
    let le = div-mul-le_self m (suc n) in
    sum-equal_parts (m / suc n) (m / suc n + (m - m / suc n * suc n)) n ∙ omega (arith, le)

parts_lem : (part last n : ℕ) → parts (pos part) (pos last) n ≡ map pos (equal_parts part last n)
unfolding parts
parts_lem part last zero = refl
parts_lem part last (suc zero) = refl
parts_lem part last (suc (suc n)) = ap (λ xs. pos part ∷ xs) (parts_lem part last (suc n))

checked_same : {x y : ℤ} (last : ℤ) → x ≡ y → checked x ≡ some last → last ≡ y
checked_same last same h = ground (arith, same, h)

-- A part with the remainder.
pub last_lem :
    (m n : ℕ)
    → div_ℤ (pos m) n +ℤ (pos m -ℤ div_ℤ (pos m) n *ℤ pos n) ≡ pos (m / n + (m - m / n * n))
last_lem m n =
    let le = div-mul-le_self m n in
    let part = div_ℤ_pos m n in
    let rest : pos m -ℤ div_ℤ (pos m) n *ℤ pos n ≡ pos (m - m / n * n) =
      ap (λ x. pos m -ℤ x *ℤ pos n) part
      ∙ ap (λ x. pos m -ℤ x) (*ℤ_pos (m / n) n)
      ∙ -ℤ_pos m (m / n * n) le in
    ap (λ x. x +ℤ (pos m -ℤ div_ℤ (pos m) n *ℤ pos n)) part
    ∙ ap (λ x. pos (m / n) +ℤ x) rest
    ∙ +ℤ_pos (m / n) (m - m / n * n)

-- The parts that the code computes.
pub parts-amounts_of :
    (m n : ℕ) (last : ℤ)
    → 0 < n
    → checked (div_ℤ (pos m) n +ℤ (pos m -ℤ div_ℤ (pos m) n *ℤ pos n)) ≡ some last
    → parts (div_ℤ (pos m) n) last n ≡ map pos (amounts_of m n)
parts-amounts_of m n last positive h =
    let part = div_ℤ_pos m n in
    let same : last ≡ pos (m / n + (m - m / n * n)) = checked_same last (last_lem m n) h in
    ap (λ x. parts x last n) part
    ∙ ap (λ x. parts (pos (m / n)) x n) same
    ∙ parts_lem (m / n) (m / n + (m - m / n * n)) n
