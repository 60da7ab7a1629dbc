-- ===== src/Fees/Brackets.antt =====
-- Which bracket `volume_discount_for_count` picks.
use veritasor_contracts.Prelude.{
  All, ℕ, zero, suc, ◌≤◌, ◌<◌, ◌≡◌, ◌⊎◌, inl, inr, refl, List, [], ◌∷◌, some, ok, arith, leb,
  length, get_elem?, Bool-cases, some_injective, sym, ap, ◌∙◌,
}
use veritasor_contracts.Fees.{walk_brackets}

-- The discount that a count earns: that of the highest threshold which the count reaches, or none.
pub Earns : List ℕ → List ℕ → ℕ → ℕ → Type 0
Earns thresholds discounts count d =
    ((d ≡ 0) × ((j t : ℕ) → get_elem? thresholds j ≡ some t → count < t))
    ⊎ ((i threshold : ℕ) × (get_elem? thresholds i ≡ some threshold)
        × (threshold ≤ count)
        × (get_elem? discounts i ≡ some d)
        × ((j t : ℕ) → i < j → get_elem? thresholds j ≡ some t → count < t))

get_elem?_in : (xs : List ℕ) (i : ℕ) → i < length xs → (x : ℕ) × (get_elem? xs i ≡ some x)
get_elem?_in [] i h = absurd (omega arith)
get_elem?_in (x ∷ xs) zero h = (x, refl)
get_elem?_in (x ∷ xs) (suc i) h = get_elem?_in xs i (omega arith)

get_elem?-lt : (xs : List ℕ) (i x : ℕ) → get_elem? xs i ≡ some x → i < length xs
get_elem?-lt [] i x h = absurd (ground arith)
get_elem?-lt (y ∷ xs) zero x h = omega arith
get_elem?-lt (y ∷ xs) (suc i) x h = omega (arith, get_elem?-lt xs i x h)

above_from :
    (ths : List ℕ) (i t count : ℕ)
    → get_elem? ths i ≡ some t
    → count < t
    → ((j u : ℕ) → suc i ≤ j → get_elem? ths j ≡ some u → count < u)
    → (j u : ℕ) → i ≤ j
    → get_elem? ths j ≡ some u
    → count < u
above_from ths i t count at_i lt above j u le e = elim (Bool-cases (leb (suc i) j)) [
  | inl later ↦ above j u (ground arith) e
  | inr here ↦
      let same : j ≡ i = ground arith in
      let found : some u ≡ some t = sym e ∙ ap (get_elem? ths) same ∙ at_i in
      omega (arith, some_injective u t found)
]

-- The walk from `i` down, where every threshold from `i` on is above the count.
walk_brackets-Earns :
    (i : ℕ) (thresholds discounts : List ℕ) (count : ℕ)
    → length thresholds ≡ length discounts
    → i ≤ length thresholds
    → ((j t : ℕ) → i ≤ j → get_elem? thresholds j ≡ some t → count < t)
    → (d : ℕ) × (walk_brackets i thresholds discounts count ≡ ok d)
      × Earns thresholds discounts count d
unfolding walk_brackets Earns
walk_brackets-Earns zero ths ds count same le above =
    (0, refl, inl (refl, λ j t e. above j t (omega arith) e))
walk_brackets-Earns (suc i) ths ds count same le above =
    let (t, at_i) = get_elem?_in ths i (omega arith) in
    let (d, at_d) = get_elem?_in ds i (omega arith) in
    elim (Bool-cases (leb t count)) [
      | inl reached ↦ (
        d,
        ground (arith, at_i, at_d),
        inr (i, t, at_i, ground arith, at_d, λ j t' lt e. above j t' (omega arith) e),
      )
      | inr high ↦
          let (r, run, earns) =
            walk_brackets-Earns i ths ds count same (omega arith)
              (above_from ths i t count at_i (ground arith) above) in
          (r, ground (arith, at_i, run), earns)
    ]

-- Over thresholds and discounts of one length the walk returns, and it returns the discount of the
-- highest threshold that the count reaches, or 0 when it reaches none.
pub walk_brackets_all :
    (thresholds discounts : List ℕ) (count : ℕ)
    → length thresholds ≡ length discounts
    → (d : ℕ) × (walk_brackets (length thresholds) thresholds discounts count ≡ ok d)
      × Earns thresholds discounts count d
walk_brackets_all ths ds count same =
    walk_brackets-Earns (length ths) ths ds count same (omega arith)
      (λ j t le e. absurd (omega (arith, get_elem?-lt ths j t e)))

All-get_elem? :
    (ds : List ℕ) (i d : ℕ) → All (λ x. x ≤ 10000) ds → get_elem? ds i ≡ some d → d ≤ 10000
All-get_elem? [] i d h e = absurd (ground arith)
All-get_elem? (x ∷ xs) zero d h e = ground arith
All-get_elem? (x ∷ xs) (suc i) d h e = All-get_elem? xs i d h.1 e

pub Earns-le :
    (ths ds : List ℕ) (count d : ℕ) → All (λ x. x ≤ 10000) ds → Earns ths ds count d → d ≤ 10000
unfolding Earns
Earns-le ths ds count d h (inl (zero_d, above)) = omega arith
Earns-le ths ds count d h (inr (i, t, e, le, at_d, above)) = All-get_elem? ds i d h at_d
