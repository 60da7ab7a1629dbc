-- ===== src/Merkle/Bytes.antt =====
-- Exclusive or on bytes, by tables, and what they give for `compute_hash`.
use Prim.Native.Nat.{bit_xor}
use veritasor_contracts.Prelude.{
  Bool-cases, inl, inr, ℕ, zero, suc, ◌*◌, ◌%◌, ◌<◌, ◌≡◌, refl, Bool, true, ◌&&◌, [], ◌∷◌, arith,
  ltb, ◌==◌, All,
}
use veritasor_contracts.Merkle.{Hash, mix, mix_from, compute_hash, byte_at, rotate_left_3}

-- A test that passes on each number up to a bound, the bound left out.
passes : (ℕ → Bool) → ℕ → Bool
passes test zero = true
passes test (suc k) = passes test k && test k

passes-lt : (test : ℕ → Bool) (k b : ℕ) → b < k → passes test k ≡ true → test b ≡ true
unfolding passes
passes-lt test zero b below run = absurd (omega arith)
passes-lt test (suc k) b below run = elim (Bool-cases (b == k)) [
  | inl last ↦ let same : b ≡ k = ground arith in rw same (ground arith)
  | inr early ↦ passes-lt test k b (ground arith) (ground arith)
]

passes-bytes :
    (test : ℕ → ℕ → Bool)
    → passes (λ a. passes (test a) 256) 256 ≡ true
    → (a b : ℕ) → a < 256
    → b < 256
    → test a b ≡ true
passes-bytes test table a b ha hb =
    passes-lt (test a) 256 b hb (passes-lt (λ a. passes (test a) 256) 256 a ha table)

-- The three facts that are needed, at once: bytes stay bytes, order does not matter, and a byte
-- cancels itself.
xor_test : ℕ → ℕ → Bool
xor_test x y = ltb (bit_xor x y) 256 && bit_xor x y == bit_xor y x && bit_xor x (bit_xor x y) == y

xor_table : passes (λ a. passes (xor_test a) 256) 256 ≡ true
unfolding passes xor_test
xor_table = refl

pub bit_xor_laws :
    (x y : ℕ)
    → x < 256
    → y < 256
    → (bit_xor x y < 256) × (bit_xor x y ≡ bit_xor y x) × (bit_xor x (bit_xor x y) ≡ y)
unfolding xor_test
bit_xor_laws x y hx hy =
    let t = passes-bytes xor_test xor_table x y hx hy in
    (ground (arith, t), ground (arith, t), ground (arith, t))

abbrev pub IsHash : Hash → Type 0
IsHash = All (λ b. b < 256)

pub byte_at-lt : (h : Hash) (i : ℕ) → IsHash h → byte_at h i < 256
byte_at-lt [] i h = omega arith
byte_at-lt (x ∷ xs) zero h = h.0
byte_at-lt (x ∷ xs) (suc i) h = byte_at-lt xs i h.1

pub rotate_left_3-lt : (x : ℕ) → x < 256 → rotate_left_3 x < 256
rotate_left_3-lt x h = omega arith

mix-lt : (i a b : ℕ) → a < 256 → b < 256 → mix i a b < 256
unfolding mix
mix-lt i a b ha hb =
    let k : ℕ = (i * 0x9E) % 256 in
    let x = (bit_xor_laws a b ha hb).0 in
    rotate_left_3-lt (bit_xor (bit_xor a b) k) (bit_xor_laws (bit_xor a b) k x (omega arith)).0

mix_from-IsHash : (n i : ℕ) (l r : Hash) → IsHash l → IsHash r → IsHash (mix_from n i l r)
unfolding mix_from
mix_from-IsHash zero i l r hl hr = tt
mix_from-IsHash (suc n) i l r hl hr = (
  mix-lt i (byte_at l i) (byte_at r i) (byte_at-lt l i hl) (byte_at-lt r i hr),
  mix_from-IsHash n (suc i) l r hl hr,
)

pub compute_hash-IsHash : (l r : Hash) → IsHash l → IsHash r → IsHash (compute_hash l r)
unfolding compute_hash
compute_hash-IsHash l r hl hr = mix_from-IsHash 32 0 l r hl hr

mix_from_comm : (n i : ℕ) (l r : Hash) → IsHash l → IsHash r → mix_from n i l r ≡ mix_from n i r l
unfolding mix_from mix
mix_from_comm zero i l r hl hr = refl
mix_from_comm (suc n) i l r hl hr = rw (
  (bit_xor_laws (byte_at l i) (byte_at r i) (byte_at-lt l i hl) (byte_at-lt r i hr)).1,
  mix_from_comm n (suc i) l r hl hr,
)

-- The hash of a pair does not depend on the order of the pair.
pub compute_hash_comm : (l r : Hash) → IsHash l → IsHash r → compute_hash l r ≡ compute_hash r l
unfolding compute_hash
compute_hash_comm l r hl hr = mix_from_comm 32 0 l r hl hr
