-- ===== src/Epochs.antt =====
-- The epoch counter of the fee buckets, contracts/attestation/src/dynamic_fees.rs.
mod Rollover
mod Examples
use veritasor_contracts.Prelude.{
  ℕ, zero, suc, ◌+◌, ◌-◌, ◌/◌, List, [], ◌∷◌, ◌++◌, Option, none, some, get_or, Env, Action, pure,
  ensure, gets, modify, ◌>>=◌, ◌>>◌, ⊤, Slots, store, ltb, leb, min, ok, if◌then◌else◌,
}
use veritasor_contracts.Prelude.Int.{u64_max}

pub data Error : Type 0 where
  epoch_overflow : Error

-- What a boundary publishes: the number of cleanups of the epoch that ends, and the new epoch.
pub data Event : Type 0 where
  cleanup_summary : ℕ → ℕ → Event
  epoch_advanced : ℕ → Event

pub record Epochs : Type 0 where
  pub epoch_counter : Option ℕ
  pub last_fee_bucket : Option ℕ
  pub cleanup_counts : Slots ℕ
  pub events : List Event

abbrev pub fee_bucket_window_seconds : ℕ
fee_bucket_window_seconds = 86400

unfoldable pub get_epoch : Epochs → ℕ
get_epoch s = get_or s.epoch_counter 0

unfoldable pub get_cleanup_count_for_epoch : ℕ → Epochs → ℕ
get_cleanup_count_for_epoch epoch s = get_or (s.cleanup_counts epoch) 0

-- `saturating_add(1)`
unfoldable pub increment_cleanup_count : Epochs → Epochs
unfolding get_epoch get_cleanup_count_for_epoch
increment_cleanup_count s =
    let epoch = get_epoch s in
    record s {
      cleanup_counts =
          store s.cleanup_counts epoch (min (get_cleanup_count_for_epoch epoch s + 1) u64_max);
    }

unfoldable pub advance_epoch : Action Error Epochs ℕ
unfolding get_epoch get_cleanup_count_for_epoch
advance_epoch = do
  ending ← gets get_epoch
  removed ← gets (get_cleanup_count_for_epoch ending)
  modify (λ s. record s { events = s.events ++ cleanup_summary ending removed ∷ [] })
  ensure (ltb ending u64_max) epoch_overflow
  modify (λ s. record s { epoch_counter = some (ending + 1) })
  modify (λ s. record s { events = s.events ++ epoch_advanced (ending + 1) ∷ [] })
  pure (ending + 1)

-- The `for` loop of `handle_epoch_rollover`.
unfoldable pub advance_times : ℕ → Action Error Epochs ⊤
advance_times zero = pure tt
advance_times (suc n) = advance_epoch >>= λ _. advance_times n

unfoldable pub handle_epoch_rollover : Env → Action Error Epochs ⊤
unfolding advance_times
handle_epoch_rollover env = do
  let current_bucket = env.timestamp / fee_bucket_window_seconds
  stored ← gets (λ s. s.last_fee_bucket)
  _ ← elim stored [
    | none ↦ advance_times 1
    | some last_bucket ↦ advance_times (current_bucket - last_bucket)
  ]
  modify (λ s. record s { last_fee_bucket = some current_bucket })
