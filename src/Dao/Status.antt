-- ===== src/Dao/Status.antt =====
-- What a call does to the stored proposals, and why a settled proposal stays as it is.
use veritasor_contracts.Prelude.{
  ℕ, ◌+◌, ◌<◌, ◌≡◌, ◌⊎◌, sym, ◌∙◌, ap, true, false, some, get_or, Env, Address, arith, store, Slots,
  ◌==◌, ==_iff, Bool-cases, inl, inr, some_injective,
}
use veritasor_contracts.Dao.Types.{ProposalStatus, ProposalAction, Proposal, Dao}
use veritasor_contracts.Dao.Calls.{is_pending, new_proposal}

abbrev pub next_id : Dao → ℕ
next_id s = get_or s.next_proposal_id 0

-- What any call does to the proposals `m` under the counter `k`: nothing, a new one, or a write
-- of another status to a pending one.
pub data Change (m m' : Slots Proposal) (k k' : ℕ) : Type 0 where
  same : m' ≡ m → k' ≡ k → Change m m' k k'
  made :
      (env : Env) (creator : Address) (action : ProposalAction)
      → m' ≡ store m k (new_proposal env creator action k)
      → k' ≡ k + 1
      → Change m m' k k'
  moved :
      (id : ℕ) (p : Proposal) (status : ProposalStatus)
      → m id ≡ some p
      → is_pending p.status ≡ true
      → m' ≡ store m p.id (record p { status = status })
      → k' ≡ k
      → Change m m' k k'

-- Every stored proposal stands under its own id, and ids at or past the counter are free.
abbrev pub IsNumbered : Slots Proposal → ℕ → Type 0
IsNumbered m k = (n : ℕ) (p : Proposal) → m n ≡ some p → (p.id ≡ n) × (n < k)

store-same : {A : Type 0} (m : Slots A) (k n : ℕ) (x : A) → (k == n) ≡ true → store m k x n ≡ some x
store-same m k n x h = rw h

store-other : {A : Type 0} (m : Slots A) (k n : ℕ) (x : A) → (k == n) ≡ false → store m k x n ≡ m n
store-other m k n x h = rw h

-- A lookup after a write finds the written value at its key, and the old one elsewhere.
store-cases :
    {A : Type 0} (f m : Slots A) (k n : ℕ) (x y : A)
    → f ≡ store m k x
    → f n ≡ some y
    → ((k ≡ n) × (y ≡ x)) ⊎ (((k == n) ≡ false) × (m n ≡ some y))
store-cases f m k n x y written found =
    let read : some y ≡ store m k x n = sym found ∙ ap (λ g. g n) written in
    elim (Bool-cases (k == n)) [
      | inl here ↦ inl ((==_iff k n).0 here, some_injective y x (read ∙ store-same m k n x here))
      | inr there ↦ inr (there, sym (read ∙ store-other m k n x there))
    ]

pub Change-IsNumbered :
    (m m' : Slots Proposal) (k k' : ℕ) → Change m m' k k' → IsNumbered m k → IsNumbered m' k'
Change-IsNumbered m m' k k' (same kept next) v n p e =
    let (own, below) = v n p (sym (ap (λ g. g n) kept) ∙ e) in (own, omega (arith, below, next))
Change-IsNumbered m m' k k' (made env creator action written next) v n p e =
    elim (store-cases m' m k n (new_proposal env creator action k) p written e) [
      | inl (here, new) ↦ (ap (λ q. q.id) new ∙ here, omega (arith, here, next))
      | inr (there, old) ↦ let (own, below) = v n p old in (own, omega (arith, below, next))
    ]
Change-IsNumbered m m' k k' (moved id q status found live written next) v n p e =
    elim (store-cases m' m q.id n (record q { status = status }) p written e) [
      | inl (here, new) ↦
          let (own, below) = v id q found in
          (ap (λ r. r.id) new ∙ here, omega (arith, own, below, here, next))
      | inr (there, old) ↦ let (own, below) = v n p old in (own, omega (arith, below, next))
    ]

-- A proposal that is not pending is never written again.
pub Change-settled :
    (m m' : Slots Proposal) (k k' : ℕ) (n : ℕ) (p : Proposal)
    → Change m m' k k'
    → IsNumbered m k
    → m n ≡ some p
    → is_pending p.status ≡ false
    → m' n ≡ some p
Change-settled m m' k k' n p (same kept next) v e settled = ap (λ g. g n) kept ∙ e
Change-settled m m' k k' n p (made env creator action written next) v e settled =
    let below = (v n p e).1 in
    let other : (k == n) ≡ false = ground arith in
    ap (λ g. g n) written ∙ store-other m k n (new_proposal env creator action k) other ∙ e
Change-settled m m' k k' n p (moved id q status found live written next) v e settled =
    elim (Bool-cases (q.id == n)) [
      | inr other ↦
          ap (λ g. g n) written ∙ store-other m q.id n (record q { status = status }) other ∙ e
      | inl here ↦
          let at_n : id ≡ n = sym (v id q found).0 ∙ (==_iff q.id n).0 here in
          let twin : q ≡ p = some_injective q p (sym found ∙ ap m at_n ∙ e) in
          let clash : true ≡ false = sym live ∙ ap (λ r. is_pending r.status) twin ∙ settled in
          absurd (ground arith)
    ]
