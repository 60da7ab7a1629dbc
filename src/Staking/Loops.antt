-- ===== src/Staking/Loops.antt =====
-- The queue loops in closed form, for queues whose amounts are not negative and fit an `i128`.
use veritasor_contracts.Prelude.{
  ℕ, ◌+◌, ◌-◌, ◌≤◌, ◌<◌, ◌≡◌, refl, ◌∙◌, List, [], ◌∷◌, ◌++◌, some, arith, leb, if◌then◌else◌, All,
  inl, inr, Bool-cases,
}
use mathlib.Core.List.{append-nil, append_assoc}
use veritasor_contracts.Prelude.Int.{
  ℤ, pos, ◌+ℤ◌, ◌-ℤ◌, pos_part, neg_part, checked, i128_mod, pos_of_nonneg,
}
use veritasor_contracts.Staking.Types.{PendingUnstake}
use veritasor_contracts.Staking.Queue.{split_queue, sum_queue, cut_entry, cut_queue}

-- The sum of a queue, and the part of it that is unlocked at `now`.
abbrev pub units : List PendingUnstake → ℕ
units [] = 0
units (p ∷ rest) = pos_part p.amount + units rest

abbrev pub due : ℕ → List PendingUnstake → ℕ
due now [] = 0
due now (p ∷ rest) = (if leb p.unlock_timestamp now then pos_part p.amount else 0) + due now rest

-- The entries that are still locked at `now`, in order.
abbrev pub waiting : ℕ → List PendingUnstake → List PendingUnstake
waiting now [] = []
waiting now (p ∷ rest) =
    if leb p.unlock_timestamp now then waiting now rest else p ∷ waiting now rest

-- The newest entries lowered by `excess` in all, and what of it is left.
abbrev pub cut : List PendingUnstake → ℕ → List PendingUnstake × ℕ
cut [] excess = ([], excess)
cut (p ∷ newer) excess =
    let (newer', left) = cut newer excess in
    (record p { amount = pos (pos_part p.amount - left) } ∷ newer', left - pos_part p.amount)

abbrev pub Plain : List PendingUnstake → Type 0
Plain = All (λ p. neg_part p.amount ≡ 0)

pub checked_add :
    (n : ℕ) (x : ℤ)
    → neg_part x ≡ 0
    → n + pos_part x < i128_mod
    → checked (pos n +ℤ x) ≡ some (pos (n + pos_part x))
unfolding ◌+ℤ◌
checked_add n x h fits = rw (pos_of_nonneg x h) (ground arith)

pub split_queue_lem :
    (now : ℕ) (q kept : List PendingUnstake) (n : ℕ)
    → Plain q
    → n + units q < i128_mod
    → split_queue now q kept (pos n) ≡ some (kept ++ waiting now q, pos (n + due now q))
unfolding split_queue
split_queue_lem now [] kept n plain fits = rw append-nil (ground arith)
split_queue_lem now (p ∷ rest) kept n plain fits = elim (Bool-cases (leb p.unlock_timestamp now)) [
  | inl unlocked ↦
      rw (unlocked, checked_add n p.amount plain.0 (omega arith))
        (split_queue_lem now rest kept (n + pos_part p.amount) plain.1 (omega arith) ∙ ground arith)
  | inr locked ↦ rw locked (
      split_queue_lem now rest (kept ++ p ∷ []) n plain.1 (omega arith)
      ∙ ground (arith, append_assoc kept (p ∷ []) (waiting now rest)))
]

-- The loop of `withdraw_unstaked` as it is called.
pub split_queue_start :
    (now : ℕ) (q : List PendingUnstake)
    → Plain q
    → units q < i128_mod
    → split_queue now q [] (pos 0) ≡ some (waiting now q, pos (due now q))
split_queue_start now q plain fits = split_queue_lem now q [] 0 plain (omega arith) ∙ ground arith

pub sum_queue_lem :
    (q : List PendingUnstake) (n : ℕ)
    → Plain q
    → n + units q < i128_mod
    → sum_queue q (pos n) ≡ some (pos (n + units q))
unfolding sum_queue
sum_queue_lem [] n plain fits = ground arith
sum_queue_lem (p ∷ rest) n plain fits =
    rw (checked_add n p.amount plain.0 (omega arith), sum_queue)
      (sum_queue_lem rest (n + pos_part p.amount) plain.1 (omega arith) ∙ ground arith)

cut_entry_lem :
    (p : PendingUnstake) (e : ℕ)
    → neg_part p.amount ≡ 0
    → pos_part p.amount < i128_mod
    → e < i128_mod
    → cut_entry p (pos e)
      ≡ some (record p { amount = pos (pos_part p.amount - e) }, pos (e - pos_part p.amount))
unfolding cut_entry ◌-ℤ◌
cut_entry_lem p e plain fits fits' = ground arith

pub cut-le : (q : List PendingUnstake) (e : ℕ) → (cut q e).1 ≤ e
cut-le [] e = omega arith
cut-le (p ∷ newer) e = omega (arith, cut-le newer e)

pub cut_queue_lem :
    (q : List PendingUnstake) (e : ℕ)
    → Plain q
    → units q < i128_mod
    → e < i128_mod
    → cut_queue q (pos e) ≡ some ((cut q e).0, pos (cut q e).1)
unfolding cut_queue
cut_queue_lem [] e plain fits fits' = refl
cut_queue_lem (p ∷ newer) e plain fits fits' = rw (
  cut_queue_lem newer e plain.1 (omega arith) fits',
  cut_entry_lem p (cut newer e).1 plain.0 (omega arith) (omega (arith, cut-le newer e)),
)
