-- ===== src/RateLimit/Counting.antt =====
-- What the scan over the stored timestamps computes, in terms of plain counts.
use veritasor_contracts.Prelude.{
  ℕ, ◌+◌, ◌≤◌, ◌≡◌, refl, ◌∙◌, ◌&&◌, List, [], ◌∷◌, ◌++◌, arith, leb, if◌then◌else◌, length,
  Bool-cases, inl, inr,
}
use mathlib.Core.List.{append-nil, append_assoc}
use native.Mathlib.Nat.{add-zero}
use veritasor_contracts.RateLimit.{scan}

-- How many entries lie in `[from, to]`, and how many at or after `from`.
abbrev pub count_between : ℕ → ℕ → List ℕ → ℕ
count_between from to [] = 0
count_between from to (x ∷ xs) =
    (if leb from x && leb x to then 1 else 0) + count_between from to xs

abbrev pub count_since : ℕ → List ℕ → ℕ
count_since from [] = 0
count_since from (x ∷ xs) = (if leb from x then 1 else 0) + count_since from xs

-- The entries at or after `from`, in order.
abbrev pub since : ℕ → List ℕ → List ℕ
since from [] = []
since from (x ∷ xs) = if leb from x then x ∷ since from xs else since from xs

pub count_since-append :
    (from : ℕ) (xs ys : List ℕ)
    → count_since from (xs ++ ys) ≡ count_since from xs + count_since from ys
count_since-append from [] ys = omega arith
count_since-append from (x ∷ xs) ys = ground (arith, count_since-append from xs ys)

pub count_between-append :
    (from to : ℕ) (xs ys : List ℕ)
    → count_between from to (xs ++ ys) ≡ count_between from to xs + count_between from to ys
count_between-append from to [] ys = omega arith
count_between-append from to (x ∷ xs) ys = ground (arith, count_between-append from to xs ys)

pub count_between-le : (from to : ℕ) (xs : List ℕ) → count_between from to xs ≤ count_since from xs
count_between-le from to [] = omega arith
count_between-le from to (x ∷ xs) = ground (arith, count_between-le from to xs)

pub count_since_mono :
    (from from' : ℕ) (xs : List ℕ) → from ≤ from' → count_since from' xs ≤ count_since from xs
count_since_mono from from' [] h = omega arith
count_since_mono from from' (x ∷ xs) h = ground (arith, count_since_mono from from' xs h)

pub length-since : (from : ℕ) (xs : List ℕ) → length (since from xs) ≡ count_since from xs
length-since from [] = refl
length-since from (x ∷ xs) = ground (arith, length-since from xs)

pub count_since-since :
    (from from' : ℕ) (xs : List ℕ)
    → from ≤ from'
    → count_since from' (since from xs) ≡ count_since from' xs
count_since-since from from' [] h = refl
count_since-since from from' (x ∷ xs) h = ground (arith, count_since-since from from' xs h)

pub since-since : (from : ℕ) (xs : List ℕ) → since from (since from xs) ≡ since from xs
since-since from [] = refl
since-since from (x ∷ xs) = ground (arith, since-since from xs)

length-since-le : (from : ℕ) (xs : List ℕ) → length (since from xs) ≤ length xs
length-since-le from [] = omega arith
length-since-le from (x ∷ xs) = ground (arith, length-since-le from xs)

-- Nothing is pruned if the length stays.
pub since_of_length :
    (from : ℕ) (xs : List ℕ) → length xs ≡ length (since from xs) → since from xs ≡ xs
since_of_length from [] h = refl
since_of_length from (x ∷ xs) h = ground (arith, length-since-le from xs, since_of_length from xs)

-- The accumulating loop, in closed form.
pub scan_lem :
    (cutoff burst_cutoff : ℕ) (xs active : List ℕ) (w b : ℕ)
    → cutoff ≤ burst_cutoff
    → scan cutoff burst_cutoff xs active w b
      ≡ (active ++ since cutoff xs, w + count_since cutoff xs, b + count_since burst_cutoff xs)
unfolding scan
scan_lem c d [] active w b h = rw (append-nil, add-zero, add-zero)
scan_lem c d (x ∷ xs) active w b h = elim (Bool-cases (leb c x)) [
  | inl recent ↦ rw recent (
      scan_lem c d xs (active ++ x ∷ []) (w + 1) (if leb d x then b + 1 else b) h
      ∙ ground (arith, append_assoc active (x ∷ []) (since c xs)))
  | inr old ↦ rw old (scan_lem c d xs active w b h ∙ ground arith)
]
