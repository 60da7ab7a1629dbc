-- ===== src/Share/Floor.antt =====
-- The division of a revenue over the natural numbers: floors, and the residual for the first.
use veritasor_contracts.Prelude.{
  ap, refl, suc, ℕ, ◌+◌, ◌-◌, ◌*◌, ◌/◌, ◌≤◌, ◌<◌, ◌≡◌, subst, ◌∙◌, List, [], ◌∷◌, length, sum,
  arith,
}
use veritasor_contracts.Share.Types.{Stakeholder}

unfoldable pub total_bps : List Stakeholder → ℕ
total_bps [] = 0
total_bps (x ∷ xs) = x.share_bps + total_bps xs

unfoldable pub floors : ℕ → List Stakeholder → List ℕ
floors a [] = []
floors a (x ∷ xs) = (a * x.share_bps / 10000) ∷ floors a xs

abbrev pub residual_of : ℕ → List Stakeholder → ℕ
residual_of a xs = a - sum (floors a xs)

abbrev pub raise_first : ℕ → List ℕ → List ℕ
raise_first r [] = []
raise_first r (n ∷ ns) = (n + r) ∷ ns

-- What each stakeholder is due: its floor, and the first the residual as well.
unfoldable pub split : ℕ → List Stakeholder → List ℕ
split a xs = raise_first (residual_of a xs) (floors a xs)

pub floors_upper : (a : ℕ) (xs : List Stakeholder) → 10000 * sum (floors a xs) ≤ a * total_bps xs
unfolding floors total_bps
floors_upper a [] = omega arith
floors_upper a (x ∷ xs) = omega (arith, floors_upper a xs)

pub floors_lower :
    (a : ℕ) (xs : List Stakeholder)
    → a * total_bps xs ≤ 10000 * sum (floors a xs) + 9999 * length xs
unfolding floors total_bps
floors_lower a [] = omega arith
floors_lower a (x ∷ xs) = omega (arith, floors_lower a xs)

-- The residual is less than the number of stakeholders.
pub residual_bounded :
    (a : ℕ) (xs : List Stakeholder)
    → total_bps xs ≡ 10000
    → (sum (floors a xs) ≤ a) × (residual_of a xs < length xs)
unfolding total_bps floors
residual_bounded a [] whole = absurd (ground arith)
residual_bounded a (x ∷ xs) whole =
    let upper : 10000 * sum (floors a (x ∷ xs)) ≤ a * 10000 =
      subst (λ n. 10000 * sum (floors a (x ∷ xs)) ≤ a * n) whole (floors_upper a (x ∷ xs)) in
    let lower : a * 10000 ≤ 10000 * sum (floors a (x ∷ xs)) + 9999 * length (x ∷ xs) =
      subst (λ n. a * n ≤ 10000 * sum (floors a (x ∷ xs)) + 9999 * length (x ∷ xs)) whole
        (floors_lower a (x ∷ xs)) in
    (omega (arith, upper), omega (arith, upper, lower))

sum-raise_first : (r n : ℕ) (ns : List ℕ) → sum (raise_first r (n ∷ ns)) ≡ r + sum (n ∷ ns)
sum-raise_first r n ns = omega arith

-- Nothing is lost and nothing is added.
pub sum-split : (a : ℕ) (xs : List Stakeholder) → total_bps xs ≡ 10000 → sum (split a xs) ≡ a
unfolding split total_bps floors
sum-split a [] whole = absurd (ground arith)
sum-split a (x ∷ xs) whole =
    let (below, small) = residual_bounded a (x ∷ xs) whole in
    sum-raise_first (residual_of a (x ∷ xs)) (a * x.share_bps / 10000) (floors a xs)
    ∙ omega (arith, below)

length-floors : (a : ℕ) (xs : List Stakeholder) → length (floors a xs) ≡ length xs
unfolding floors
length-floors a [] = refl
length-floors a (x ∷ xs) = ap suc (length-floors a xs)

length-raise_first : (r : ℕ) (ns : List ℕ) → length (raise_first r ns) ≡ length ns
length-raise_first r [] = refl
length-raise_first r (n ∷ ns) = refl

pub length-split : (a : ℕ) (xs : List Stakeholder) → length (split a xs) ≡ length xs
unfolding split
length-split a xs = length-raise_first (residual_of a xs) (floors a xs) ∙ length-floors a xs
