-- ===== src/Stream/Vesting.antt =====
-- The vested amount: what it is, that it never falls and never passes the funded amount.
use native.Mathlib.Nat.{mul-le-mul_left, div-le_of_le-mul}
use veritasor_contracts.Prelude.{
  ℕ, ◌-◌, ◌*◌, ◌/◌, ◌≤◌, ◌<◌, ◌≡◌, ◌∙◌, ap, none, some, ok, arith, ltb, leb, if◌then◌else◌,
  Bool-cases, inl, inr,
}
use veritasor_contracts.Prelude.Int.{
  ℤ, pos, ◌*ℤ◌, checked, i128_mod, div_mono, *ℤ_pos, div_ℤ_pos, checked_pos,
}
use veritasor_contracts.Stream.Types.{VestingSchedule, lump, linear}
use veritasor_contracts.Stream.Schedule.{accrued, vested_in, vested_by_schedule}

-- The amount that the schedule has vested, over the natural numbers.
unfoldable pub vested : ℕ → VestingSchedule → ℕ → ℕ
vested amount (lump none) t = amount
vested amount (lump (some c)) t = if ltb t c then 0 else amount
vested amount (linear from to) t =
    if leb t from then 0 else if leb to t then amount else amount * (t - from) / (to - from)

-- The product of the amount and the length of the accrual fits an `i128`.
abbrev pub IsSmall : ℕ → VestingSchedule → Type 0
IsSmall amount (lump cliff) = amount < i128_mod
IsSmall amount (linear from to) = amount * (to - from) < i128_mod

accrued_lem :
    (a elapsed duration : ℕ)
    → 0 < duration
    → elapsed ≤ duration
    → a * duration < i128_mod
    → accrued (pos a) elapsed duration ≡ ok (pos (a * elapsed / duration))
unfolding accrued
accrued_lem a elapsed duration positive le small =
    let product : a * elapsed ≤ a * duration = mul-le-mul_left a le in
    let fits : checked (pos a *ℤ pos elapsed) ≡ some (pos (a * elapsed)) =
      ap checked (*ℤ_pos a elapsed) ∙ checked_pos (a * elapsed) (omega (arith, product)) in
    ground (arith, fits, div_ℤ_pos (a * elapsed) duration)

pub vested_by_schedule_lem :
    (a : ℕ) (schedule : VestingSchedule) (t : ℕ)
    → 0 < a
    → IsSmall a schedule
    → vested_by_schedule (pos a) schedule t ≡ ok (pos (vested a schedule t))
unfolding vested_by_schedule vested_in vested
vested_by_schedule_lem a (lump none) t positive small = ground arith
vested_by_schedule_lem a (lump (some c)) t positive small = ground arith
vested_by_schedule_lem a (linear from to) t positive small = elim (Bool-cases (leb t from)) [
  | inl early ↦ ground arith
  | inr started ↦ elim (Bool-cases (leb to t)) [
    | inl over ↦ ground arith
    | inr running ↦
        let part = accrued_lem a (t - from) (to - from) (ground arith) (ground arith) small in
        ground (arith, part)
  ]
]

pub vested-le : (a : ℕ) (schedule : VestingSchedule) (t : ℕ) → vested a schedule t ≤ a
unfolding vested
vested-le a (lump none) t = omega arith
vested-le a (lump (some c)) t = ground arith
vested-le a (linear from to) t = elim (Bool-cases (leb t from)) [
  | inl early ↦ ground arith
  | inr started ↦ elim (Bool-cases (leb to t)) [
    | inl over ↦ ground arith
    | inr running ↦
        let le : t - from ≤ to - from = ground arith in
        let product : a * (t - from) ≤ a * (to - from) = mul-le-mul_left a le in
        let part : a * (t - from) / (to - from) ≤ a =
          div-le_of_le-mul (to - from) (omega (arith, product)) in
        ground (arith, part)
  ]
]

pub vested_monotone :
    (a : ℕ) (schedule : VestingSchedule) (t u : ℕ)
    → t ≤ u
    → vested a schedule t ≤ vested a schedule u
unfolding vested
vested_monotone a (lump none) t u le = omega arith
vested_monotone a (lump (some c)) t u le = ground arith
vested_monotone a (linear from to) t u le = elim (Bool-cases (leb t from)) [
  | inl early ↦ ground arith
  | inr started ↦ elim (Bool-cases (leb to u)) [
    | inl over ↦ ground (arith, vested-le a (linear from to) t)
    | inr running ↦
        let product : a * (t - from) ≤ a * (u - from) = mul-le-mul_left a (omega arith) in
        ground
          (arith, div_mono (to - from) (a * (t - from)) (a * (u - from)) (ground arith) product)
  ]
]

accrued-ok :
    (a elapsed duration : ℕ) (v : ℤ)
    → accrued (pos a) elapsed duration ≡ ok v
    → v ≡ pos (a * elapsed / duration)
unfolding accrued
accrued-ok a elapsed duration v h =
    let product : checked (pos a *ℤ pos elapsed) ≡ checked (pos (a * elapsed)) =
      ap checked (*ℤ_pos a elapsed) in
    ground (arith, product, div_ℤ_pos (a * elapsed) duration)

-- What the code returns is that amount, whether or not the product fits.
pub vested_by_schedule-ok :
    (a : ℕ) (schedule : VestingSchedule) (t : ℕ) (v : ℤ)
    → vested_by_schedule (pos a) schedule t ≡ ok v
    → v ≡ pos (vested a schedule t)
unfolding vested_by_schedule vested_in vested
vested_by_schedule-ok a (lump none) t v h = ground arith
vested_by_schedule-ok a (lump (some c)) t v h = ground arith
vested_by_schedule-ok a (linear from to) t v h = elim (Bool-cases (leb t from)) [
  | inl early ↦ ground arith
  | inr started ↦ elim (Bool-cases (leb to t)) [
    | inl over ↦ ground arith
    | inr running ↦ ground (arith, accrued-ok a (t - from) (to - from) v (ground arith))
  ]
]
