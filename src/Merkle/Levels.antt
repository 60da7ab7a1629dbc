-- ===== src/Merkle/Levels.antt =====
-- One level of a tree and the next: lengths, nodes and their parents.
use veritasor_contracts.Prelude.{
  ℕ, zero, suc, ◌+◌, ◌-◌, ◌/◌, ◌%◌, ◌<◌, ◌≡◌, refl, List, [], ◌∷◌, get_or, arith, ltb, ◌==◌,
  if◌then◌else◌, All, length, get_elem?, inl, inr, Bool-cases,
}
use veritasor_contracts.Merkle.{Hash, compute_hash, next_level, is_left, sibling_of}
use veritasor_contracts.Merkle.Bytes.{IsHash, compute_hash-IsHash}

pub length-next_level : (level : List Hash) → length (next_level level) ≡ (length level + 1) / 2
unfolding next_level
length-next_level [] = omega arith
length-next_level (x ∷ []) = omega arith
length-next_level (x ∷ y ∷ rest) = omega (arith, length-next_level rest)

pub next_level-All : (level : List Hash) → All IsHash level → All IsHash (next_level level)
unfolding next_level
next_level-All [] h = tt
next_level-All (x ∷ []) h = (compute_hash-IsHash x x h.0 h.0, tt)
next_level-All (x ∷ y ∷ rest) h = (compute_hash-IsHash x y h.0 h.1.0, next_level-All rest h.1.1)

-- The node at an index, with the empty one out of range.
abbrev pub node : List Hash → ℕ → Hash
node level i = get_or (get_elem? level i) []

pub node-IsHash : (level : List Hash) (i : ℕ) → All IsHash level → IsHash (node level i)
node-IsHash [] i h = tt
node-IsHash (x ∷ xs) zero h = h.0
node-IsHash (x ∷ xs) (suc i) h = node-IsHash xs i h.1

pub sibling_of-IsHash : (level : List Hash) (i : ℕ) → All IsHash level → IsHash (sibling_of level i)
unfolding sibling_of
sibling_of-IsHash level i h =
    elim (Bool-cases (ltb (if is_left i then i + 1 else i - 1) (length level))) [
      | inl inside ↦ rw inside (node-IsHash level (if is_left i then i + 1 else i - 1) h)
      | inr outside ↦ rw outside (node-IsHash level i h)
    ]

sibling_of-suc :
    (x y : Hash) (rest : List Hash) (i : ℕ)
    → sibling_of (x ∷ y ∷ rest) (suc (suc i)) ≡ sibling_of rest i
unfolding sibling_of
sibling_of-suc x y rest i =
    let parity : suc (suc i) % 2 ≡ i % 2 = omega arith in
    elim (Bool-cases (i % 2 == 0)) [
      | inl even ↦
          let next : suc (suc i) + 1 ≡ suc (suc (i + 1)) = omega arith in
          rw (parity, even, next) (ground arith)
      | inr odd ↦
          let back : suc (suc i) - 1 ≡ suc (suc (i - 1)) = ground arith in
          rw (parity, odd, back) (ground arith)
    ]

sibling_of_last : (x : Hash) → sibling_of (x ∷ []) 0 ≡ x
unfolding sibling_of
sibling_of_last x = refl

sibling_of_pair :
    (x y : Hash) (rest : List Hash)
    → (sibling_of (x ∷ y ∷ rest) 0 ≡ y) × (sibling_of (x ∷ y ∷ rest) 1 ≡ x)
unfolding sibling_of
sibling_of_pair x y rest = (ground arith, ground arith)

-- The parent of a node hashes the node and its sibling, the left one first.
pub parent_lem :
    (level : List Hash) (i : ℕ)
    → i < length level
    → node (next_level level) (i / 2) ≡ (
        if is_left i
        then compute_hash (node level i) (sibling_of level i)
        else compute_hash (sibling_of level i) (node level i))
unfolding next_level
parent_lem [] i h = absurd (omega arith)
parent_lem (x ∷ []) zero h = rw sibling_of_last
parent_lem (x ∷ []) (suc i) h = absurd (omega arith)
parent_lem (x ∷ y ∷ rest) zero h = rw (sibling_of_pair x y rest).0
parent_lem (x ∷ y ∷ rest) (suc zero) h = rw (sibling_of_pair x y rest).1
parent_lem (x ∷ y ∷ rest) (suc (suc i)) h =
    let parity : suc (suc i) % 2 ≡ i % 2 = omega arith in
    let half : suc (suc i) / 2 ≡ suc (i / 2) = omega arith in
    rw (parity, half, sibling_of-suc x y rest i) (parent_lem rest i (omega arith))
