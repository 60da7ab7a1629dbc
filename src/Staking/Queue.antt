-- ===== src/Staking/Queue.antt =====
-- The loops over the queue of pending unstakes.
use veritasor_contracts.Prelude.{
  ℕ, List, [], ◌∷◌, ◌++◌, Option, none, some, leb, ltb, if◌then◌else◌, last?,
}
use veritasor_contracts.Prelude.Int.{ℤ, pos, ◌+ℤ◌, ◌-ℤ◌, checked, ltb_ℤ, leb_ℤ}
use veritasor_contracts.Staking.Types.{PendingUnstake}

-- The loop of `withdraw_unstaked`: what is still locked, and the sum of what is not.
unfoldable pub split_queue :
    ℕ → List PendingUnstake → List PendingUnstake → ℤ → Option (List PendingUnstake × ℤ)
split_queue now [] remaining total = some (remaining, total)
split_queue now (p ∷ rest) remaining total =
    let due : Option (List PendingUnstake × ℤ) = elim (checked (total +ℤ p.amount)) [
      | none ↦ none
      | some total' ↦ split_queue now rest remaining total'
    ] in
    let later = split_queue now rest (remaining ++ p ∷ []) total in
    if leb p.unlock_timestamp now then due else later

-- The first loop of `slash`: the sum of the queue.
unfoldable pub sum_queue : List PendingUnstake → ℤ → Option ℤ
sum_queue [] total = some total
sum_queue (p ∷ rest) total = elim (checked (total +ℤ p.amount)) [
  | none ↦ none
  | some total' ↦ sum_queue rest total'
]

-- The body of the second loop of `slash`, at one entry.
unfoldable pub cut_entry : PendingUnstake → ℤ → Option (PendingUnstake × ℤ)
cut_entry p excess =
    if ltb_ℤ (pos 0) excess
    then (if leb_ℤ p.amount excess
        then elim (checked (excess -ℤ p.amount)) [
          | none ↦ none
          | some rest ↦ some (record p { amount = pos 0 }, rest)
        ]
        else elim (checked (p.amount -ℤ excess)) [
          | none ↦ none
          | some left ↦ some (record p { amount = left }, pos 0)
        ])
    else some (p, excess)

-- The second loop of `slash`, which runs from the newest entry, the last one, to the oldest.
unfoldable pub cut_queue : List PendingUnstake → ℤ → Option (List PendingUnstake × ℤ)
unfolding cut_entry
cut_queue [] excess = some ([], excess)
cut_queue (p ∷ newer) excess = elim (cut_queue newer excess) [
  | none ↦ none
  | some (newer', excess') ↦ elim (cut_entry p excess') [
    | none ↦ none
    | some (p', left) ↦ some (p' ∷ newer', left)
  ]
]

-- The unlock time of a new entry: `now + unbonding`, and not before that of the last entry.
unfoldable pub unlock_time : ℕ → List PendingUnstake → ℕ
unlock_time at queue = elim (last? queue) [
  | none ↦ at
  | some p ↦ (if ltb at p.unlock_timestamp then p.unlock_timestamp else at)
]
