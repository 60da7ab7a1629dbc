-- ===== src/Merkle.antt =====
-- Merkle trees and proofs, contracts/common/src/merkle.rs. A `BytesN<32>` is the list of its bytes.
mod Bytes
mod Levels
mod RoundTrip
mod Forgery
mod Examples
use Prim.Native.Nat.{bit_xor}
use veritasor_contracts.Prelude.{
  ℕ, zero, suc, ◌+◌, ◌-◌, ◌*◌, ◌/◌, ◌%◌, Bool, true, false, not, ◌&&◌, List, [], ◌∷◌, ◌++◌, Option,
  none, some, get_or, Result, ok, err, ltb, leb, ◌==◌, if◌then◌else◌, length, get_elem?,
}

pub data MerkleError : Type 0 where
  empty_tree invalid_proof index_out_of_bounds malformed_input max_depth_exceeded : MerkleError
  duplicate_leaves : MerkleError

abbrev pub Hash : Type 0
Hash = List ℕ

pub record MerkleProof : Type 0 where
  pub leaf : Hash
  pub proof : List Hash
  pub path : List Bool

pub record MerkleTree : Type 0 where
  pub root : Hash
  pub leaves : List Hash
  pub internal_nodes : List Hash

abbrev pub max_tree_depth : ℕ
max_tree_depth = 64

-- `u8::rotate_left(3)`
abbrev pub rotate_left_3 : ℕ → ℕ
rotate_left_3 x = (x * 8) % 256 + x / 32

-- `left.get(i).unwrap_or(0)`
abbrev pub byte_at : Hash → ℕ → ℕ
byte_at h i = get_or (get_elem? h i) 0

-- One round of the loop of `compute_hash`.
unfoldable pub mix : ℕ → ℕ → ℕ → ℕ
mix i left_byte right_byte =
    rotate_left_3 (bit_xor (bit_xor left_byte right_byte) ((i * 0x9E) % 256))

-- The rounds from `i` on, `n` of them.
unfoldable pub mix_from : ℕ → ℕ → Hash → Hash → Hash
mix_from zero i left right = []
mix_from (suc n) i left right =
    mix i (byte_at left i) (byte_at right i) ∷ mix_from n (suc i) left right

unfoldable pub compute_hash : Hash → Hash → Hash
unfolding mix mix_from
compute_hash left right = mix_from 32 0 left right

-- The `for` loop over a level in steps of two: a last node with no sibling is paired with itself.
unfoldable pub next_level : List Hash → List Hash
next_level [] = []
next_level (x ∷ []) = compute_hash x x ∷ []
next_level (x ∷ y ∷ rest) = compute_hash x y ∷ next_level rest

-- The `while` loop of `build_merkle_tree`, by the depth `64 - level_depth` that is left.
unfoldable pub build_levels : ℕ → List Hash → List Hash → Result MerkleError (List Hash × List Hash)
unfolding next_level
build_levels zero level nodes =
    if ltb 1 (length level) then err max_depth_exceeded else ok (level, nodes)
build_levels (suc depth) level nodes =
    let next = next_level level in
    let rest = build_levels depth next (nodes ++ next) in
    if ltb 1 (length level) then rest else ok (level, nodes)

unfoldable pub build_merkle_tree : List Hash → Result MerkleError MerkleTree
unfolding build_levels
build_merkle_tree [] = err empty_tree
build_merkle_tree (x ∷ xs) = elim (build_levels max_tree_depth (x ∷ xs) []) [
  | err e ↦ err e
  | ok (top, nodes) ↦
      ok (record { root = get_or (get_elem? top 0) []; leaves = x ∷ xs; internal_nodes = nodes })
]

abbrev pub is_left : ℕ → Bool
is_left idx = idx % 2 == 0

-- The node that `generate_proof` pushes at a level: the sibling, or the node itself at the end.
unfoldable pub sibling_of : List Hash → ℕ → Hash
sibling_of level idx =
    let sibling_idx = if is_left idx then idx + 1 else idx - 1 in
    if ltb sibling_idx (length level)
    then get_or (get_elem? level sibling_idx) []
    else get_or (get_elem? level idx) []

-- The `while` loop of `generate_proof` on fuel; `none` means that the fuel ran out.
unfoldable pub prove_levels :
    ℕ → List Hash → ℕ → List Hash → List Bool → Option (List Hash × List Bool)
unfolding next_level sibling_of
prove_levels zero level idx proof path = none
prove_levels (suc fuel) level idx proof path =
    let rest =
      prove_levels fuel (next_level level) (idx / 2) (proof ++ sibling_of level idx ∷ [])
        (path ++ not (is_left idx) ∷ []) in
    if ltb 1 (length level) then rest else some (proof, path)

unfoldable pub generate_proof : MerkleTree → ℕ → Option (Result MerkleError MerkleProof)
unfolding prove_levels
generate_proof tree index =
    if leb (length tree.leaves) index
    then some (err index_out_of_bounds)
    else elim (prove_levels (length tree.leaves + 1) tree.leaves index [] []) [
      | none ↦ none
      | some (proof, path) ↦ some (
          ok
            (record { leaf = get_or (get_elem? tree.leaves index) []; proof = proof; path = path }))
    ]

unfoldable pub hash_eq : Hash → Hash → Bool
hash_eq [] [] = true
hash_eq (x ∷ xs) (y ∷ ys) = x == y && hash_eq xs ys
hash_eq _ _ = false

-- The loop of `verify_proof`, whose two lists have one length.
unfoldable pub fold_proof : Hash → List Hash → List Bool → Hash
fold_proof current (sibling ∷ proof) (is_right ∷ path) =
    fold_proof (if is_right then compute_hash current sibling else compute_hash sibling current)
      proof path
fold_proof current _ _ = current

unfoldable pub verify_proof : Hash → MerkleProof → Result MerkleError Bool
unfolding fold_proof hash_eq
verify_proof root p =
    if not (length p.proof == length p.path)
    then err malformed_input
    else if ltb max_tree_depth (length p.proof)
    then err max_depth_exceeded
    else if hash_eq (fold_proof p.leaf p.proof p.path) root
    then ok true
    else err invalid_proof

unfoldable pub verify_leaf_membership : MerkleTree → Hash → ℕ → Result MerkleError Bool
unfolding hash_eq
verify_leaf_membership tree leaf index =
    if leb (length tree.leaves) index
    then err index_out_of_bounds
    else if not (hash_eq leaf (get_or (get_elem? tree.leaves index) []))
    then err invalid_proof
    else ok true

unfoldable pub compute_root : List Hash → Result MerkleError Hash
unfolding build_merkle_tree
compute_root leaves = elim (build_merkle_tree leaves) [ err e ↦ err e | ok tree ↦ ok tree.root ]
