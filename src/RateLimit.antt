-- ===== src/RateLimit.antt =====
-- Sliding-window rate limits per business, contracts/attestation/src/rate_limit.rs. The state is
-- the instance storage under `DataKey::RateLimitConfig`, `SubmissionTimestamps(business)` and
-- `RateLimitHighWaterTimestamp(business)`. A `Vec` has fewer than 2 ^ 32 entries, so the `u32`
-- counters of the scan, which count entries, cannot overflow and are plain numbers.
mod Counting
mod Config
mod Check
mod Window
mod Isolation
mod Examples
use veritasor_contracts.Prelude.{
  ℕ, ◌+◌, ◌-◌, max, Bool, true, false, ◌&&◌, List, [], ◌∷◌, ◌++◌, Option, none, some, get_or, Env,
  Address, Action, Result, ok, ⊤, Slots, store, ensure, gets, modify, pure, ◌>>=◌, ◌>>◌, ltb, leb,
  ◌==◌, not, if◌then◌else◌, length,
}

pub data Error : Type 0 where
  max_submissions_zero max_submissions_limit window_zero window_limit : Error
  burst_max_zero burst_window_zero burst_max_above burst_window_above : Error
  rate_limit_exceeded burst_rate_limit_exceeded : Error

abbrev pub max_submissions_limit_const : ℕ
max_submissions_limit_const = 100

abbrev pub max_window_seconds : ℕ
max_window_seconds = 31536000

pub record RateLimitConfig : Type 0 where
  pub max_submissions : ℕ  -- u32
  pub window_seconds : ℕ  -- u64
  pub burst_max_submissions : ℕ  -- u32
  pub burst_window_seconds : ℕ  -- u64
  pub enabled : Bool

pub record RateState : Type 0 where
  pub config : Option RateLimitConfig
  pub timestamps : Slots (List ℕ)
  pub high_water : Slots ℕ

unfoldable pub set_rate_limit_config : RateLimitConfig → Action Error RateState ⊤
set_rate_limit_config c = do
  ensure (ltb 0 c.max_submissions) max_submissions_zero
  ensure (leb c.max_submissions max_submissions_limit_const) max_submissions_limit
  ensure (ltb 0 c.window_seconds) window_zero
  ensure (leb c.window_seconds max_window_seconds) window_limit
  ensure (ltb 0 c.burst_max_submissions) burst_max_zero
  ensure (ltb 0 c.burst_window_seconds) burst_window_zero
  ensure (leb c.burst_max_submissions c.max_submissions) burst_max_above
  ensure (leb c.burst_window_seconds c.window_seconds) burst_window_above
  modify (λ s. record s { config = some c })

unfoldable pub get_rate_limit_config : RateState → Option RateLimitConfig
get_rate_limit_config s = s.config

unfoldable pub get_timestamps : Address → RateState → List ℕ
get_timestamps business s = get_or (s.timestamps business) []

unfoldable pub set_timestamps : Address → List ℕ → RateState → RateState
set_timestamps business ts s = record s { timestamps = store s.timestamps business ts }

unfoldable pub effective_timestamp : Env → Address → RateState → ℕ
effective_timestamp env business s =
    max env.timestamp (get_or (s.high_water business) env.timestamp)

-- What `analyze_submission_windows` returns.
pub record Analysis : Type 0 where
  pub active : List ℕ
  pub original_len : ℕ
  pub window_count : ℕ
  pub burst_count : ℕ

-- The loop of `analyze_submission_windows` over the entries that are left.
unfoldable pub scan : ℕ → ℕ → List ℕ → List ℕ → ℕ → ℕ → List ℕ × ℕ × ℕ
scan cutoff burst_cutoff [] active window_count burst_count = (active, window_count, burst_count)
scan cutoff burst_cutoff (ts ∷ rest) active window_count burst_count =
    scan cutoff burst_cutoff rest (if leb cutoff ts then active ++ ts ∷ [] else active)
      (if leb cutoff ts then window_count + 1 else window_count)
      (if leb cutoff ts && leb burst_cutoff ts then burst_count + 1 else burst_count)

unfoldable pub analyze_submission_windows : Env → RateLimitConfig → Address → RateState → Analysis
unfolding scan effective_timestamp get_timestamps
analyze_submission_windows env config business s =
    let now = effective_timestamp env business s in
    let stored = get_timestamps business s in
    let (active, window_count, burst_count) =
      scan (now - config.window_seconds) (now - config.burst_window_seconds) stored [] 0 0 in
    record {
      active = active;
      original_len = length stored;
      window_count = window_count;
      burst_count = burst_count;
    }

-- `match get_rate_limit_config(env) { Some(c) if c.enabled => c, _ => return }`
abbrev pub active_config : RateState → Option RateLimitConfig
active_config s = elim s.config [ none ↦ none | some c ↦ (if c.enabled then some c else none) ]

-- The tail of `check_rate_limit`, once the windows have been analysed.
unfoldable pub check_with : RateLimitConfig → Address → Analysis → Action Error RateState ⊤
unfolding set_timestamps
check_with config business a = do
  modify (λ s. if a.original_len == length a.active then s else set_timestamps business a.active s)
  ensure (ltb a.window_count config.max_submissions) rate_limit_exceeded
  ensure (ltb a.burst_count config.burst_max_submissions) burst_rate_limit_exceeded

unfoldable pub check_rate_limit : Env → Address → Action Error RateState ⊤
unfolding check_with
check_rate_limit env business s = elim (active_config s) [
  | none ↦ ok (tt, s)
  | some config ↦ check_with config business (analyze_submission_windows env config business s) s
]

unfoldable pub record_submission : Env → Address → Action Error RateState ⊤
unfolding set_timestamps
record_submission env business s = elim (active_config s) [
  | none ↦ ok (tt, s)
  | some config ↦
      let now = effective_timestamp env business s in
      let a = analyze_submission_windows env config business s in
      let s' = set_timestamps business (a.active ++ now ∷ []) s in
      ok (tt, record s' { high_water = store s'.high_water business now })
]

unfoldable pub get_submission_count : Env → Address → RateState → ℕ
get_submission_count env business s = elim (active_config s) [
  | none ↦ 0
  | some config ↦ (analyze_submission_windows env config business s).window_count
]

unfoldable pub get_burst_submission_count : Env → Address → RateState → ℕ
get_burst_submission_count env business s = elim (active_config s) [
  | none ↦ 0
  | some config ↦ (analyze_submission_windows env config business s).burst_count
]
