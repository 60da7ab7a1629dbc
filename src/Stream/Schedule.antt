-- ===== src/Stream/Schedule.antt =====
-- The schedule time and the vested amount.
use veritasor_contracts.Prelude.{
  ℕ, ◌+◌, ◌-◌, Bool, false, none, some, get_or, Env, Result, ok, err, ltb, leb, if◌then◌else◌, min,
}
use veritasor_contracts.Prelude.Int.{ℤ, pos, ◌*ℤ◌, div_ℤ, ltb_ℤ, leb_ℤ, checked, u64_max}
use veritasor_contracts.Stream.Types.{
  VestingSchedule, lump, linear, Stream, Streams, Error, amount_not_positive, vesting_overflow,
  snapshot_missing,
}

-- `saturating_add` on `u64`
abbrev pub saturating_add : ℕ → ℕ → ℕ
saturating_add a b = min (a + b) u64_max

unfoldable pub is_paused : {L : Type 0} → Streams L → Bool
is_paused s = get_or s.paused false

-- `effective_vest_ledger_time`; `saturating_sub` is the subtraction of ℕ.
unfoldable pub effective_vest_ledger_time : {L : Type 0} → Env → Streams L → Result Error ℕ
unfolding is_paused
effective_vest_ledger_time env s =
    if is_paused s
    then (elim s.pause_snapshot [ none ↦ err snapshot_missing | some t ↦ ok t ])
    else elim s.vest_time_remap [
      | some m ↦ ok (saturating_add m.t_eff0 (env.timestamp - m.at_ledger))
      | none ↦ ok env.timestamp
    ]

-- `checked_mul(elapsed)` and `checked_div(duration)`
unfoldable pub accrued : ℤ → ℕ → ℕ → Result Error ℤ
accrued amount elapsed duration = elim (checked (amount *ℤ pos elapsed)) [
  | none ↦ err vesting_overflow
  | some v ↦ if leb duration 0 then err vesting_overflow else ok (div_ℤ v duration)
]

unfoldable pub vested_in : ℤ → VestingSchedule → ℕ → Result Error ℤ
unfolding accrued
vested_in amount (lump none) t_upper = ok amount
vested_in amount (lump (some c)) t_upper = if ltb t_upper c then ok (pos 0) else ok amount
vested_in amount (linear accrual_start accrual_end) t_upper =
    if leb t_upper accrual_start
    then ok (pos 0)
    else if leb accrual_end t_upper
    then ok amount
    else accrued amount (t_upper - accrual_start) (accrual_end - accrual_start)

unfoldable pub vested_by_schedule : ℤ → VestingSchedule → ℕ → Result Error ℤ
vested_by_schedule amount vesting t_upper =
    if ltb_ℤ (pos 0) amount then vested_in amount vesting t_upper else err amount_not_positive

unfoldable pub is_fully_paid : Stream → Bool
is_fully_paid s = leb_ℤ s.amount s.released_amount
