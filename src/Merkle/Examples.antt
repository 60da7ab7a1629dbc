-- ===== src/Merkle/Examples.antt =====
-- Tests of the Merkle tree and the theorems at concrete inputs.
use veritasor_contracts.Prelude.{
  ℕ, zero, suc, ◌<◌, ◌≡◌, refl, true, List, [], ◌∷◌, some, ok, err, arith, length, All,
}
use veritasor_contracts.Merkle.{
  Hash, MerkleProof, MerkleTree, compute_root, empty_tree, build_merkle_tree, generate_proof,
  verify_proof,
}
use veritasor_contracts.Merkle.Bytes.{IsHash}
use veritasor_contracts.Merkle.Levels.{node}
use veritasor_contracts.Merkle.RoundTrip.{generate-verify}
use veritasor_contracts.Merkle.Forgery.{verify_proof-forged}

replicate : ℕ → ℕ → Hash
replicate zero b = []
replicate (suc n) b = b ∷ replicate n b

replicate-IsHash : (n b : ℕ) → b < 256 → IsHash (replicate n b)
unfolding replicate
replicate-IsHash zero b h = tt
replicate-IsHash (suc n) b h = (h, replicate-IsHash n b h)

abbrev leaf : ℕ → Hash
leaf b = replicate 32 b

abbrev three_leaves : List Hash
three_leaves = leaf 1 ∷ leaf 2 ∷ leaf 3 ∷ []

three_leaves-IsHash : All IsHash three_leaves
three_leaves-IsHash = (
  replicate-IsHash 32 1 (omega arith),
  (replicate-IsHash 32 2 (omega arith), (replicate-IsHash 32 3 (omega arith), tt)),
)

empty_root : compute_root [] ≡ err empty_tree
unfolding compute_root
empty_root = refl

generate-verify_example :
    (tree : MerkleTree) × (p : MerkleProof) × (build_merkle_tree three_leaves ≡ ok tree)
    × (generate_proof tree 2 ≡ some (ok p))
    × (p.leaf ≡ node three_leaves 2)
    × (verify_proof tree.root p ≡ ok true)
generate-verify_example =
    generate-verify three_leaves 2 three_leaves-IsHash (omega arith) (omega arith)

verify_proof-forged_example :
    (sibling : Hash) × IsHash sibling
    × (length sibling ≡ 32)
    × (verify_proof (leaf 7) (record { leaf = leaf 9; proof = sibling ∷ []; path = true ∷ [] })
        ≡ ok true)
unfolding replicate
verify_proof-forged_example =
    verify_proof-forged (leaf 7) (leaf 9) (replicate-IsHash 32 7 (omega arith))
      (replicate-IsHash 32 9 (omega arith)) refl
