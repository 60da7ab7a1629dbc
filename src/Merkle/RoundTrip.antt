-- ===== src/Merkle/RoundTrip.antt =====
-- Every tree builds, and every proof that is generated from it verifies against its root.
use mathlib.Core.List.{append_assoc, append-nil}
use veritasor_contracts.Prelude.{
  ℕ, zero, suc, ◌+◌, ◌/◌, ◌^◌, ◌≤◌, ◌<◌, ◌≡◌, refl, ◌∙◌, Bool, true, false, not, List, [], ◌∷◌,
  ◌++◌, some, ok, arith, ltb, leb, ==_refl, if◌then◌else◌, All, length, inl, inr, Bool-cases,
}
use native.Mathlib.Nat.{pow-suc}
use veritasor_contracts.Merkle.{
  Hash, MerkleProof, MerkleTree, compute_hash, next_level, build_levels, build_merkle_tree, is_left,
  sibling_of, prove_levels, generate_proof, hash_eq, fold_proof, verify_proof, max_tree_depth,
}
use veritasor_contracts.Merkle.Bytes.{IsHash, compute_hash_comm}
use veritasor_contracts.Merkle.Levels.{
  length-next_level, next_level-All, node, node-IsHash, sibling_of-IsHash, parent_lem,
}

-- A level of at most 2 ^ depth nodes is reduced to its top within the depth.
build_levels_total :
    (depth : ℕ) (level nodes : List Hash)
    → length level ≤ 2 ^ depth
    → (r : List Hash × List Hash) × (build_levels depth level nodes ≡ ok r)
unfolding build_levels
build_levels_total zero level nodes fits = ((level, nodes), ground arith)
build_levels_total (suc depth) level nodes fits = elim (Bool-cases (ltb 1 (length level))) [
  | inl more ↦ rw more (
      build_levels_total depth (next_level level) (nodes ++ next_level level)
        (omega (arith, length-next_level level, pow-suc 2 depth)))
  | inr done ↦ ((level, nodes), rw done)
]

-- One step of the fold from a node to its parent, on either side.
fold_parent :
    (level : List Hash) (i : ℕ)
    → All IsHash level
    → i < length level
    → (if not (is_left i)
        then compute_hash (node level i) (sibling_of level i)
        else compute_hash (sibling_of level i) (node level i))
      ≡ node (next_level level) (i / 2)
fold_parent level i h lt =
    let swap =
      compute_hash_comm (node level i) (sibling_of level i) (node-IsHash level i h)
        (sibling_of-IsHash level i h) in
    ground (arith, swap, parent_lem level i lt)

-- Where the loop of `build_merkle_tree` stops and where it goes on.
build_stops :
    (depth : ℕ) (level nodes top nodes' : List Hash)
    → build_levels depth level nodes ≡ ok (top, nodes')
    → ltb 1 (length level) ≡ false
    → level ≡ top
unfolding build_levels
build_stops zero level nodes top nodes' built done = ground arith
build_stops (suc depth) level nodes top nodes' built done = ground arith

build_small :
    (level nodes top nodes' : List Hash)
    → build_levels 0 level nodes ≡ ok (top, nodes')
    → ltb 1 (length level) ≡ false
unfolding build_levels
build_small level nodes top nodes' built = ground arith

build_goes_on :
    (depth : ℕ) (level nodes top nodes' : List Hash)
    → build_levels (suc depth) level nodes ≡ ok (top, nodes')
    → ltb 1 (length level) ≡ true
    → build_levels depth (next_level level) (nodes ++ next_level level) ≡ ok (top, nodes')
unfolding build_levels
build_goes_on depth level nodes top nodes' built large = rw large at built

prove_stops :
    (fuel : ℕ) (level : List Hash) (i : ℕ) (proof : List Hash) (path : List Bool)
    → ltb 1 (length level) ≡ false
    → prove_levels (suc fuel) level i proof path ≡ some (proof ++ [], path ++ [])
unfolding prove_levels
prove_stops fuel level i proof path done =
    rw done (ground (arith, append-nil proof, append-nil path))

only_node :
    (level top : List Hash) (i : ℕ)
    → ltb 1 (length level) ≡ false
    → i < length level
    → level ≡ top
    → node level i ≡ node top 0
only_node level top i done lt same = let first : i ≡ 0 = ground arith in rw (first, same)

prove_levels_lem :
    (depth fuel : ℕ) (level nodes top nodes' : List Hash) (i : ℕ) (proof : List Hash)
    (path : List Bool)
    → build_levels depth level nodes ≡ ok (top, nodes')
    → All IsHash level
    → i < length level
    → length level < fuel
    → (more : List Hash) × (dirs : List Bool) × (prove_levels fuel level i proof path
        ≡ some (proof ++ more, path ++ dirs))
      × (fold_proof (node level i) more dirs ≡ node top 0)
      × (length more ≤ depth)
      × (length dirs ≡ length more)
unfolding prove_levels fold_proof
prove_levels_lem depth zero level nodes top nodes' i proof path built h lt fits =
    absurd (omega arith)
prove_levels_lem zero (suc fuel) level nodes top nodes' i proof path built h lt fits =
    let done = build_small level nodes top nodes' built in
    (
      [],
      [],
      prove_stops fuel level i proof path done,
      only_node level top i done lt (build_stops 0 level nodes top nodes' built done),
      omega arith,
      refl,
    )
prove_levels_lem (suc depth) (suc fuel) level nodes top nodes' i proof path built h lt fits =
    elim (Bool-cases (ltb 1 (length level))) [
      | inr done ↦ (
        [],
        [],
        prove_stops fuel level i proof path done,
        only_node level top i done lt (build_stops (suc depth) level nodes top nodes' built done),
        omega arith,
        refl,
      )
      | inl large ↦
          let next : List Hash = next_level level in
          let sib : Hash = sibling_of level i in
          let dir : Bool = not (is_left i) in
          let shorter = length-next_level level in
          let (more, dirs, run, fold, le, same) =
            prove_levels_lem depth fuel next (nodes ++ next) top nodes' (i / 2) (proof ++ sib ∷ [])
              (path ++ dir ∷ []) (build_goes_on depth level nodes top nodes' built large)
              (next_level-All level h) (ground (arith, shorter)) (ground (arith, shorter)) in
          (
            sib ∷ more,
            dir ∷ dirs,
            rw large (
                run
                ∙ ground
                    (arith, append_assoc proof (sib ∷ []) more, append_assoc path (dir ∷ []) dirs)),
            rw (fold_parent level i h lt) fold,
            omega (arith, le),
            omega (arith, same),
          )
    ]

hash_eq_refl : (h : Hash) → hash_eq h h ≡ true
unfolding hash_eq
hash_eq_refl [] = refl
hash_eq_refl (x ∷ xs) = rw (==_refl x) (hash_eq_refl xs)

pub verify_proof_ok :
    (root : Hash) (p : MerkleProof)
    → length p.path ≡ length p.proof
    → length p.proof ≤ max_tree_depth
    → fold_proof p.leaf p.proof p.path ≡ root
    → verify_proof root p ≡ ok true
unfolding verify_proof
verify_proof_ok root p same le fold = ground (arith, hash_eq_refl root)

build_merkle_tree_ok :
    (x : Hash) (xs top nodes : List Hash)
    → build_levels max_tree_depth (x ∷ xs) [] ≡ ok (top, nodes)
    → build_merkle_tree (x ∷ xs)
      ≡ ok (record { root = node top 0; leaves = x ∷ xs; internal_nodes = nodes })
unfolding build_merkle_tree
build_merkle_tree_ok x xs top nodes built = rw (built, build_merkle_tree)

generate_proof_ok :
    (tree : MerkleTree) (i : ℕ) (proof : List Hash) (path : List Bool)
    → i < length tree.leaves
    → prove_levels (length tree.leaves + 1) tree.leaves i [] [] ≡ some (proof, path)
    → generate_proof tree i
      ≡ some (ok (record { leaf = node tree.leaves i; proof = proof; path = path }))
unfolding generate_proof
generate_proof_ok tree i proof path lt run =
    let inside : leb (length tree.leaves) i ≡ false = ground arith in rw (inside, run)

-- Every list of at most 2 ^ 64 leaves made of bytes builds a tree, and for every index into it a proof is
-- generated which carries the leaf at that index and verifies against the root.
pub generate-verify :
    (leaves : List Hash) (i : ℕ)
    → All IsHash leaves
    → length leaves ≤ 2 ^ 64
    → i < length leaves
    → (tree : MerkleTree) × (p : MerkleProof) × (build_merkle_tree leaves ≡ ok tree)
      × (generate_proof tree i ≡ some (ok p))
      × (p.leaf ≡ node leaves i)
      × (verify_proof tree.root p ≡ ok true)
generate-verify [] i h fits lt = absurd (omega arith)
generate-verify (x ∷ xs) i h fits lt =
    let leaves : List Hash = x ∷ xs in
    let ((top, nodes), built) = build_levels_total max_tree_depth leaves [] fits in
    let (proof, path, run, fold, le, same) =
      prove_levels_lem max_tree_depth (length leaves + 1) leaves [] top nodes i [] [] built h lt
        (omega arith) in
    let tree : MerkleTree = record { root = node top 0; leaves = leaves; internal_nodes = nodes } in
    let p : MerkleProof = record { leaf = node leaves i; proof = proof; path = path } in
    (
      tree,
      p,
      build_merkle_tree_ok x xs top nodes built,
      generate_proof_ok tree i proof path lt run,
      refl,
      verify_proof_ok tree.root p same le fold,
    )
