-- ===== src/Merkle/Forgery.antt =====
-- The hash of a pair of nodes can be inverted: a proof for any leaf against any root.
use Prim.Native.Nat.{bit_xor}
use veritasor_contracts.Prelude.{
  ℕ, zero, suc, ◌+◌, ◌*◌, ◌/◌, ◌%◌, ◌<◌, ◌≡◌, refl, ◌∙◌, ap, true, List, [], ◌∷◌, ok, arith, length,
}
use veritasor_contracts.Merkle.{
  Hash, mix, mix_from, compute_hash, byte_at, rotate_left_3, fold_proof, verify_proof,
}
use veritasor_contracts.Merkle.Bytes.{IsHash, bit_xor_laws, byte_at-lt}
use veritasor_contracts.Merkle.RoundTrip.{verify_proof_ok}

tabulate : ℕ → ℕ → (ℕ → ℕ) → List ℕ
tabulate zero i f = []
tabulate (suc n) i f = f i ∷ tabulate n (suc i) f

byte_at-tabulate : (n i : ℕ) (f : ℕ → ℕ) (j : ℕ) → j < n → byte_at (tabulate n i f) j ≡ f (i + j)
unfolding tabulate
byte_at-tabulate zero i f j lt = absurd (omega arith)
byte_at-tabulate (suc n) i f zero lt = ap f (omega arith)
byte_at-tabulate (suc n) i f (suc j) lt =
    byte_at-tabulate n (suc i) f j (omega arith) ∙ ap f (omega arith)

byte_at-tabulate_0 : (n : ℕ) (f : ℕ → ℕ) (j : ℕ) → j < n → byte_at (tabulate n 0 f) j ≡ f j
byte_at-tabulate_0 n f j lt = byte_at-tabulate n 0 f j lt ∙ ap f (omega arith)

tabulate-All : (n i : ℕ) (f : ℕ → ℕ) → ((j : ℕ) → f j < 256) → IsHash (tabulate n i f)
unfolding tabulate
tabulate-All zero i f h = tt
tabulate-All (suc n) i f h = (h i, tabulate-All n (suc i) f h)

length-tabulate : (n i : ℕ) (f : ℕ → ℕ) → length (tabulate n i f) ≡ n
unfolding tabulate
length-tabulate zero i f = refl
length-tabulate (suc n) i f = omega (arith, length-tabulate n (suc i) f)

tabulate_shift : (n i : ℕ) (f : ℕ → ℕ) → tabulate n (suc i) f ≡ tabulate n i (λ j. f (suc j))
unfolding tabulate
tabulate_shift zero i f = refl
tabulate_shift (suc n) i f = rw (tabulate_shift n (suc i) f)

tabulate-byte_at : (h : Hash) → tabulate (length h) 0 (byte_at h) ≡ h
unfolding tabulate
tabulate-byte_at [] = refl
tabulate-byte_at (x ∷ xs) =
    ap (λ t. x ∷ t) (tabulate_shift (length xs) 0 (byte_at (x ∷ xs)) ∙ tabulate-byte_at xs)

abbrev rotate_right_3 : ℕ → ℕ
rotate_right_3 x = x / 8 + (x % 8) * 32

-- The sibling byte that mixes with a leaf byte to the wanted root byte.
forge_byte : ℕ → ℕ → ℕ → ℕ
forge_byte i leaf_byte root_byte =
    bit_xor leaf_byte (bit_xor (rotate_right_3 root_byte) ((i * 0x9E) % 256))

forge_byte-lt : (i l r : ℕ) → l < 256 → r < 256 → forge_byte i l r < 256
unfolding forge_byte
forge_byte-lt i l r hl hr =
    let k : ℕ = (i * 0x9E) % 256 in
    let w = (bit_xor_laws (rotate_right_3 r) k (omega arith) (omega arith)).0 in
    (bit_xor_laws l (bit_xor (rotate_right_3 r) k) hl w).0

mix-forge_byte : (i l r : ℕ) → l < 256 → r < 256 → mix i l (forge_byte i l r) ≡ r
unfolding mix forge_byte
mix-forge_byte i l r hl hr =
    let k : ℕ = (i * 0x9E) % 256 in
    let q : ℕ = rotate_right_3 r in
    let (w, comm, same) = bit_xor_laws q k (omega arith) (omega arith) in
    let outer = bit_xor_laws l (bit_xor q k) hl w in
    let inner = bit_xor_laws (bit_xor q k) k w (omega arith) in
    let back = bit_xor_laws k q (omega arith) (omega arith) in
    let undo : bit_xor (bit_xor l (bit_xor l (bit_xor q k))) k ≡ q =
      ap (λ z. bit_xor z k) outer.2 ∙ inner.1 ∙ ap (λ z. bit_xor k z) comm ∙ back.2 in
    ap rotate_left_3 undo ∙ omega arith

mix_from-forge :
    (n i : ℕ) (leaf sibling root : Hash)
    → ((j : ℕ)
        → i < j + 1
        → j < i + n
        → mix j (byte_at leaf j) (byte_at sibling j) ≡ byte_at root j)
    → mix_from n i leaf sibling ≡ tabulate n i (byte_at root)
unfolding mix_from tabulate
mix_from-forge zero i leaf sibling root h = refl
mix_from-forge (suc n) i leaf sibling root h = rw (
  h i (omega arith) (omega arith),
  mix_from-forge n (suc i) leaf sibling root (λ j lo hi. h j (omega arith) (omega arith)),
)

compute_hash-forge :
    (root leaf sibling : Hash)
    → length root ≡ 32
    → ((j : ℕ) → j < 32 → mix j (byte_at leaf j) (byte_at sibling j) ≡ byte_at root j)
    → compute_hash leaf sibling ≡ root
unfolding compute_hash
compute_hash-forge root leaf sibling len h =
    mix_from-forge 32 0 leaf sibling root (λ j lo hi. h j (omega arith))
    ∙ ap (λ n. tabulate n 0 (byte_at root)) (omega (arith, len))
    ∙ tabulate-byte_at root

fold_proof_one :
    (leaf sibling : Hash) → fold_proof leaf (sibling ∷ []) (true ∷ []) ≡ compute_hash leaf sibling
unfolding fold_proof
fold_proof_one leaf sibling = refl

-- For every root and every leaf of 32 bytes there is a sibling of 32 bytes with which the proof of
-- one step verifies, whichever leaves the root was built from.
pub verify_proof-forged :
    (root leaf : Hash)
    → IsHash root
    → IsHash leaf
    → length root ≡ 32
    → (sibling : Hash) × IsHash sibling
      × (length sibling ≡ 32)
      × (verify_proof root (record { leaf = leaf; proof = sibling ∷ []; path = true ∷ [] })
          ≡ ok true)
verify_proof-forged root leaf hr hl len =
    let byte : ℕ → ℕ = λ j. forge_byte j (byte_at leaf j) (byte_at root j) in
    let sibling : Hash = tabulate 32 0 byte in
    let meets : (j : ℕ) → j < 32 → mix j (byte_at leaf j) (byte_at sibling j) ≡ byte_at root j =
      λ j lt.
        ap (mix j (byte_at leaf j)) (byte_at-tabulate_0 32 byte j lt)
        ∙ mix-forge_byte j (byte_at leaf j) (byte_at root j) (byte_at-lt leaf j hl)
            (byte_at-lt root j hr) in
    (
      sibling,
      tabulate-All 32 0 byte (λ j.
          forge_byte-lt j (byte_at leaf j) (byte_at root j) (byte_at-lt leaf j hl)
            (byte_at-lt root j hr)),
      length-tabulate 32 0 byte,
      verify_proof_ok root (record { leaf = leaf; proof = sibling ∷ []; path = true ∷ [] }) refl
          (omega arith)
          (fold_proof_one leaf sibling ∙ compute_hash-forge root leaf sibling len meets),
    )
