-- ===== src/Epochs/Rollover.antt =====
-- How the epoch counter follows the ledger clock.
use veritasor_contracts.Prelude.{
  ℕ, zero, suc, ◌+◌, ◌-◌, ◌/◌, ◌≤◌, ◌<◌, ◌≡◌, refl, ◌∙◌, List, [], ◌∷◌, ◌++◌, Option, none, some,
  Env, ok, err, arith,
}
use veritasor_contracts.Prelude.Int.{u64_max}
use veritasor_contracts.Epochs.{
  Epochs, cleanup_summary, epoch_advanced, fee_bucket_window_seconds, get_epoch,
  get_cleanup_count_for_epoch, advance_epoch, advance_times, handle_epoch_rollover,
}

abbrev advanced : Epochs → Epochs
advanced s = record s {
  epoch_counter = some (get_epoch s + 1);
  events =
      (s.events ++ cleanup_summary (get_epoch s) (get_cleanup_count_for_epoch (get_epoch s) s) ∷ [])
      ++ epoch_advanced (get_epoch s + 1) ∷ [];
}

advance_epoch_ok :
    (s : Epochs) → get_epoch s < u64_max → advance_epoch s ≡ ok (get_epoch s + 1, advanced s)
unfolding advance_epoch
advance_epoch_ok s room = ground arith

get_epoch-advanced : (s : Epochs) → get_epoch (advanced s) ≡ get_epoch s + 1
unfolding get_epoch
get_epoch-advanced s = refl

advance_times-suc :
    (n : ℕ) (s : Epochs)
    → get_epoch s < u64_max
    → advance_times (suc n) s ≡ advance_times n (advanced s)
unfolding advance_times
advance_times-suc n s room = ground (arith, advance_epoch_ok s room)

-- `n` epochs at once, where the counter has room for them.
advance_times_ok :
    (n : ℕ) (s : Epochs)
    → get_epoch s + n ≤ u64_max
    → (s' : Epochs) × (advance_times n s ≡ ok (tt, s')) × (get_epoch s' ≡ get_epoch s + n)
unfolding advance_times
advance_times_ok zero s room = (s, refl, omega arith)
advance_times_ok (suc n) s room =
    let one = get_epoch-advanced s in
    let (s', run, epoch) = advance_times_ok n (advanced s) (omega (arith, one)) in
    (s', advance_times-suc n s (omega arith) ∙ run, omega (arith, one, epoch))

abbrev pub bucket : Env → ℕ
bucket env = env.timestamp / fee_bucket_window_seconds

-- The counter is one more than the buckets since the first call.
pub record Follows (first : ℕ) (last : ℕ) (s : Epochs) : Type 0 where
  pub last_bucket : s.last_fee_bucket ≡ some last
  pub epoch : get_epoch s + first ≡ last + 1

get_epoch_frame :
    (s : Epochs) (b : ℕ) → get_epoch (record s { last_fee_bucket = some b }) ≡ get_epoch s
unfolding get_epoch
get_epoch_frame s b = refl

rollover_later :
    (env : Env) (s s' : Epochs) (last : ℕ)
    → s.last_fee_bucket ≡ some last
    → advance_times (bucket env - last) s ≡ ok (tt, s')
    → handle_epoch_rollover env s ≡ ok (tt, record s' { last_fee_bucket = some (bucket env) })
unfolding handle_epoch_rollover
rollover_later env s s' last stored run = ground (arith, stored, run)

rollover_first :
    (env : Env) (s s' : Epochs)
    → s.last_fee_bucket ≡ none
    → advance_times 1 s ≡ ok (tt, s')
    → handle_epoch_rollover env s ≡ ok (tt, record s' { last_fee_bucket = some (bucket env) })
unfolding handle_epoch_rollover
rollover_first env s s' stored run = ground (arith, stored, run)

rollover-Follows :
    (env : Env) (s : Epochs) (first last : ℕ)
    → Follows first last s
    → last ≤ bucket env
    → env.timestamp ≤ u64_max
    → (s' : Epochs) × (handle_epoch_rollover env s ≡ ok (tt, s')) × Follows first (bucket env) s'
rollover-Follows env s first last f later clock =
    let (s', run, epoch) = advance_times_ok (bucket env - last) s (omega (arith, f.epoch)) in
    (
      record s' { last_fee_bucket = some (bucket env) },
      rollover_later env s s' last f.last_bucket run,
      record {
        last_bucket = refl;
        epoch = omega (arith, f.epoch, epoch, get_epoch_frame s' (bucket env));
      },
    )

-- The calls of a history, each of which has to return.
unfoldable pub rollovers : List Env → Epochs → Option Epochs
rollovers [] s = some s
rollovers (env ∷ rest) s = elim (handle_epoch_rollover env s) [
  | err e ↦ none
  | ok (u, s') ↦ rollovers rest s'
]

-- The clock does not go back, and is a `u64`.
abbrev pub IsClock : ℕ → List Env → Type 0
IsClock last [] = Unit
IsClock last (env ∷ rest) =
    (last ≤ bucket env) × (env.timestamp ≤ u64_max) × IsClock (bucket env) rest

abbrev pub final : ℕ → List Env → ℕ
final last [] = last
final last (env ∷ rest) = final (bucket env) rest

rollovers_cons :
    (env : Env) (rest : List Env) (s t u : Epochs)
    → handle_epoch_rollover env s ≡ ok (tt, t)
    → rollovers rest t ≡ some u
    → rollovers (env ∷ rest) s ≡ some u
unfolding rollovers
rollovers_cons env rest s t u run runs = ground (arith, run, runs)

rollovers-Follows :
    (calls : List Env) (s : Epochs) (first last : ℕ)
    → Follows first last s
    → IsClock last calls
    → (s' : Epochs) × (rollovers calls s ≡ some s') × Follows first (final last calls) s'
unfolding rollovers
rollovers-Follows [] s first last f clock = (s, refl, f)
rollovers-Follows (env ∷ rest) s first last f clock =
    let (t, run, g) = rollover-Follows env s first last f clock.0 clock.1 in
    let (s', runs, h) = rollovers-Follows rest t first (bucket env) g clock.2 in
    (s', rollovers_cons env rest s t s' run runs, h)

abbrev pub fresh : Epochs
fresh = record {
  epoch_counter = none;
  last_fee_bucket = none;
  cleanup_counts = λ e. none;
  events = [];
}

first_epoch : get_epoch fresh ≡ 0
unfolding get_epoch
first_epoch = refl

-- From a fresh contract and a clock that does not go back, every rollover returns, and the epoch
-- counter ends at one more than the number of windows between the first call and the last one.
pub rollovers_lem :
    (env : Env) (calls : List Env)
    → env.timestamp ≤ u64_max
    → IsClock (bucket env) calls
    → (s : Epochs) × (rollovers (env ∷ calls) fresh ≡ some s)
      × (get_epoch s + bucket env ≡ final (bucket env) calls + 1)
      × (s.last_fee_bucket ≡ some (final (bucket env) calls))
rollovers_lem env calls small clock =
    let (t, run, epoch) = advance_times_ok 1 fresh (omega (arith, first_epoch)) in
    let t' : Epochs = record t { last_fee_bucket = some (bucket env) } in
    let f : Follows (bucket env) (bucket env) t' = record {
      last_bucket = refl;
      epoch = omega (arith, epoch, first_epoch, get_epoch_frame t (bucket env));
    } in
    let (s, runs, h) = rollovers-Follows calls t' (bucket env) (bucket env) f clock in
    (
      s,
      rollovers_cons env calls fresh t' s (rollover_first env fresh t refl run) runs,
      h.epoch,
      h.last_bucket,
    )
