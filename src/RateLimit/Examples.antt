-- ===== src/RateLimit/Examples.antt =====
-- The theorems of this component at concrete inputs, and runs of its code.
use veritasor_contracts.Prelude.{
  ◌↔◌, ◌<◌, ℕ, ◌-◌, ◌≤◌, ◌≡◌, refl, true, none, List, [], ◌∷◌, some, Env, Address, ok, err, arith,
  store,
}
use veritasor_contracts.RateLimit.{
  RateLimitConfig, RateState, burst_rate_limit_exceeded, analyze_submission_windows,
  check_rate_limit, record_submission,
}
use veritasor_contracts.RateLimit.Counting.{count_between}
use veritasor_contracts.RateLimit.Config.{IsValidConfig}
use veritasor_contracts.RateLimit.Check.{
  IsActive, time_at, in_window, in_burst, kept, pruned, submit, submitted, submit_iff,
}
use veritasor_contracts.RateLimit.Window.{history, window_bound}
use veritasor_contracts.RateLimit.Isolation.{submit_unlimited}

abbrev at : ℕ → Env
at t = record { timestamp = t; sequence = 0; authorized = λ a. true; current_contract = 99 }

abbrev three_a_minute : RateLimitConfig
three_a_minute = record {
  max_submissions = 3;
  window_seconds = 60;
  burst_max_submissions = 2;
  burst_window_seconds = 10;
  enabled = true;
}

abbrev fresh : RateState
fresh = record { config = some three_a_minute; timestamps = λ a. none; high_water = λ a. none }

abbrev subs : List (Env × Address)
subs =
    (at 100, 7)
    ∷ (at 101, 7)
    ∷ (at 50, 7)
    ∷ (at 102, 8)
    ∷ (at 115, 7)
    ∷ (at 120, 7)
    ∷ (at 162, 7)
    ∷ []

-- The submission with the clock set back to 50 and the fourth one of business 7 are refused.
history_run : (history 7 subs fresh []).1 ≡ 100 ∷ 101 ∷ 115 ∷ 162 ∷ []
unfolding history submit check_rate_limit record_submission analyze_submission_windows
history_run = refl

valid : IsValidConfig three_a_minute
valid = omega arith

window_bound_example :
    let log = (history 7 subs fresh []).1 in
    (count_between (120 - 60) 120 log ≤ 3) × (count_between (120 - 10) 120 log ≤ 2)
window_bound_example = window_bound three_a_minute 7 subs fresh valid refl refl refl refl 120

abbrev busy : RateState
busy = record fresh { timestamps = store (λ a. none) 7 (40 ∷ 55 ∷ 60 ∷ []) }

busy-IsActive : IsActive busy three_a_minute
busy-IsActive = ground arith

submit_iff_example :
    (submit (at 101) 7 busy ≡ ok (tt, submitted (at 101) three_a_minute 7 busy)) ↔ (
      (in_window (at 101) three_a_minute 7 busy < 3)
      × (in_burst (at 101) three_a_minute 7 busy < 2)
      × (submitted (at 101) three_a_minute 7 busy ≡ submitted (at 101) three_a_minute 7 busy))
submit_iff_example =
    submit_iff (at 101) three_a_minute 7 busy (submitted (at 101) three_a_minute 7 busy)
      busy-IsActive

accepted : submit (at 101) 7 busy ≡ ok (tt, submitted (at 101) three_a_minute 7 busy)
unfolding submit check_rate_limit record_submission analyze_submission_windows submitted pruned kept
    time_at
accepted = refl

unlimited :
    submit (at 5) 7 (record fresh { config = none }) ≡ ok (tt, record fresh { config = none })
unlimited = submit_unlimited (at 5) 7 (record fresh { config = none }) (λ c e. cc)

-- One submission in ten seconds: a second one exactly ten seconds later is refused, where
-- docs/attestation-rate-limits.md and a test beside the code have it accepted.
abbrev one_in_ten : RateState
one_in_ten = record {
  config = some (record three_a_minute { burst_max_submissions = 1 });
  timestamps = store (λ a. none) 7 (1000 ∷ []);
  high_water = store (λ a. none) 7 1000;
}

refused_at_cutoff : submit (at 1010) 7 one_in_ten ≡ err burst_rate_limit_exceeded
unfolding submit check_rate_limit record_submission analyze_submission_windows
refused_at_cutoff = refl
