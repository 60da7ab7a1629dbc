-- ===== src/Share/Split.antt =====
-- The code's division of a revenue is the division over the natural numbers.
use veritasor_contracts.Prelude.{
  ℕ, ◌+◌, ◌*◌, ◌/◌, ◌≤◌, ◌<◌, ◌≡◌, sym, subst, ◌∙◌, ap, List, [], ◌∷◌, map, some, ok, arith, sum,
}
use veritasor_contracts.Prelude.Int.{
  pos, ◌+ℤ◌, ◌-ℤ◌, ◌*ℤ◌, checked, checked_pos, i128_mod, +ℤ_pos, -ℤ_pos, *ℤ_pos, div_ℤ_pos,
}
use veritasor_contracts.Share.Types.{Stakeholder}
use veritasor_contracts.Share.Calls.{calculate_share, allocate, add_residual, sum_amounts, divide}
use veritasor_contracts.Share.Floor.{
  total_bps, floors, split, residual_of, raise_first, residual_bounded, sum-split,
}

-- Products with the shares fit an `i128`.
abbrev pub IsSmall : ℕ → Type 0
IsSmall a = a * 10000 < i128_mod

calculate_share_lem :
    (a b : ℕ) → a * b < i128_mod → calculate_share (pos a) b ≡ ok (pos (a * b / 10000))
unfolding calculate_share
calculate_share_lem a b small =
    let fits : checked (pos a *ℤ pos b) ≡ some (pos (a * b)) =
      ap checked (*ℤ_pos a b) ∙ checked_pos (a * b) small in
    ground (arith, fits, div_ℤ_pos (a * b) 10000)

-- The loop, from any total that leaves room for the whole revenue.
allocate_lem :
    (a t : ℕ) (xs : List Stakeholder)
    → a * total_bps xs < i128_mod
    → t + sum (floors a xs) < i128_mod
    → allocate (pos a) xs (pos t) ≡ ok (map pos (floors a xs), pos (t + sum (floors a xs)))
unfolding allocate floors total_bps
allocate_lem a t [] small room = ap (λ n. ok ([], pos n)) (omega arith)
allocate_lem a t (x ∷ xs) small room =
    let share = calculate_share_lem a x.share_bps (omega arith) in
    let here = a * x.share_bps / 10000 in
    let fits : checked (pos t +ℤ pos here) ≡ some (pos (t + here)) =
      ap checked (+ℤ_pos t here) ∙ checked_pos (t + here) (omega arith) in
    let rest = allocate_lem a (t + here) xs (omega arith) (omega arith) in
    ground (arith, share, fits, rest)

sum_amounts_lem :
    (ns : List ℕ) (t : ℕ)
    → t + sum ns < i128_mod
    → sum_amounts (map pos ns) (pos t) ≡ ok (pos (t + sum ns))
unfolding sum_amounts
sum_amounts_lem [] t room = ap (λ n. ok (pos n)) (omega arith)
sum_amounts_lem (n ∷ ns) t room =
    let fits : checked (pos t +ℤ pos n) ≡ some (pos (t + n)) =
      ap checked (+ℤ_pos t n) ∙ checked_pos (t + n) (omega arith) in
    let rest = sum_amounts_lem ns (t + n) (omega arith) in ground (arith, fits, rest)

add_residual_lem :
    (r n : ℕ) (ns : List ℕ)
    → n + r < i128_mod
    → add_residual (pos r) (map pos (n ∷ ns)) ≡ ok (map pos (raise_first r (n ∷ ns)))
unfolding add_residual
add_residual_lem r n ns room =
    let fits : checked (pos n +ℤ pos r) ≡ some (pos (n + r)) =
      ap checked (+ℤ_pos n r) ∙ checked_pos (n + r) room in
    ground (arith, fits)

add_residual-floors :
    (a : ℕ) (x : Stakeholder) (xs : List Stakeholder)
    → sum (floors a (x ∷ xs)) ≤ a
    → IsSmall a
    → add_residual (pos (residual_of a (x ∷ xs))) (map pos (floors a (x ∷ xs)))
      ≡ ok (map pos (split a (x ∷ xs)))
unfolding floors split
add_residual-floors a x xs below small =
    add_residual_lem (residual_of a (x ∷ xs)) (a * x.share_bps / 10000) (floors a xs)
      (omega (arith, below))

empty_total : total_bps [] ≡ 10000 → ⊥
unfolding total_bps
empty_total whole = ground arith

-- For shares that make up the whole and a revenue whose products with them fit, the code returns
-- the division over the natural numbers.
pub divide_lem :
    (a : ℕ) (xs : List Stakeholder)
    → total_bps xs ≡ 10000
    → IsSmall a
    → divide (pos a) xs ≡ ok (map pos (split a xs))
unfolding divide
divide_lem a [] whole small = absurd (empty_total whole)
divide_lem a (x ∷ xs) whole small =
    let (below, few) = residual_bounded a (x ∷ xs) whole in
    let loop : allocate (pos a) (x ∷ xs) (pos 0)
        ≡ ok (map pos (floors a (x ∷ xs)), pos (sum (floors a (x ∷ xs)))) =
      allocate_lem a 0 (x ∷ xs) (subst (λ n. a * n < i128_mod) (sym whole) small) (omega arith)
      ∙ ap (λ n. ok (map pos (floors a (x ∷ xs)), pos n)) (omega arith) in
    let rest : checked (pos a -ℤ pos (sum (floors a (x ∷ xs))))
        ≡ some (pos (residual_of a (x ∷ xs))) =
      ap checked (-ℤ_pos a (sum (floors a (x ∷ xs))) below)
      ∙ checked_pos (residual_of a (x ∷ xs)) (omega arith) in
    let raised = add_residual-floors a x xs below small in
    let all : sum_amounts (map pos (split a (x ∷ xs))) (pos 0) ≡ ok (pos a) =
      sum_amounts_lem (split a (x ∷ xs)) 0 (omega (arith, sum-split a (x ∷ xs) whole))
      ∙ ap (λ n. ok (pos n)) (omega (arith, sum-split a (x ∷ xs) whole)) in
    ground (arith, loop, rest, raised, all)
