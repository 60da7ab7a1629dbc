-- ===== src/RateLimit/Check.antt =====
-- What `check_rate_limit` and `record_submission` do, on each branch, in terms of counts.
use veritasor_contracts.Prelude.{
  ℕ, ◌-◌, ◌≤◌, ◌<◌, ◌≡◌, ◌↔◌, sym, ◌∙◌, ap, max, true, List, [], ◌∷◌, ◌++◌, some, get_or, Env,
  Address, Action, ok, err, ⊤, arith, ◌==◌, if◌then◌else◌, length, ◌>>◌, store,
}
use veritasor_contracts.RateLimit.{
  RateLimitConfig, RateState, Error, rate_limit_exceeded, burst_rate_limit_exceeded, get_timestamps,
  set_timestamps, effective_timestamp, analyze_submission_windows, check_with, check_rate_limit,
  record_submission, get_submission_count, get_burst_submission_count,
}
use veritasor_contracts.RateLimit.Counting.{
  count_since, since, scan_lem, since-since, since_of_length,
}

pub record IsActive (s : RateState) (c : RateLimitConfig) : Type 0 where
  pub configured : s.config ≡ some c
  pub enabled : c.enabled ≡ true
  pub nested : c.burst_window_seconds ≤ c.window_seconds

-- The time of a submission: the ledger time, or the business's last submission time if that is later.
unfoldable pub time_at : Env → Address → RateState → ℕ
time_at env business s = max env.timestamp (get_or (s.high_water business) 0)

pub effective_timestamp_lem :
    (env : Env) (business : Address) (s : RateState)
    → effective_timestamp env business s ≡ time_at env business s
unfolding effective_timestamp time_at
effective_timestamp_lem env business s = ground arith

-- The submissions of `business` in the full and in the burst window, seen at `env`.
unfoldable pub in_window : Env → RateLimitConfig → Address → RateState → ℕ
in_window env c business s =
    count_since (time_at env business s - c.window_seconds) (get_timestamps business s)

unfoldable pub in_burst : Env → RateLimitConfig → Address → RateState → ℕ
in_burst env c business s =
    count_since (time_at env business s - c.burst_window_seconds) (get_timestamps business s)

-- The entries that survive the pruning.
unfoldable pub kept : Env → RateLimitConfig → Address → RateState → List ℕ
kept env c business s =
    since (time_at env business s - c.window_seconds) (get_timestamps business s)

pub analyze_lem :
    (env : Env) (c : RateLimitConfig) (business : Address) (s : RateState)
    → c.burst_window_seconds ≤ c.window_seconds
    → analyze_submission_windows env c business s ≡ record {
      active = kept env c business s;
      original_len = length (get_timestamps business s);
      window_count = in_window env c business s;
      burst_count = in_burst env c business s;
    }
unfolding analyze_submission_windows in_window in_burst kept
analyze_lem env c business s h =
    rw
      (
        effective_timestamp_lem env business s,
        scan_lem (time_at env business s - c.window_seconds)
            (time_at env business s - c.burst_window_seconds) (get_timestamps business s) [] 0 0
            (omega arith),
      )
      (ground arith)

check_rate_limit_active :
    (env : Env) (c : RateLimitConfig) (business : Address) (s : RateState)
    → IsActive s c
    → check_rate_limit env business s
      ≡ check_with c business (analyze_submission_windows env c business s) s
unfolding check_rate_limit
check_rate_limit_active env c business s h = rw (h.configured, h.enabled)

-- The storage after the pruning of `check_rate_limit`.
unfoldable pub pruned : Env → RateLimitConfig → Address → RateState → RateState
pruned env c business s =
    if length (get_timestamps business s) == length (kept env c business s)
    then s
    else set_timestamps business (kept env c business s) s

-- The check under an enabled configuration: full window first, then the burst window, and the
-- call goes through exactly when both counts are below their limits.
pub check_rate_limit-cases :
    (env : Env) (c : RateLimitConfig) (business : Address) (s : RateState)
    → IsActive s c
    → (c.max_submissions ≤ in_window env c business s
        → check_rate_limit env business s ≡ err rate_limit_exceeded)
      × (in_window env c business s < c.max_submissions
          → c.burst_max_submissions ≤ in_burst env c business s
          → check_rate_limit env business s ≡ err burst_rate_limit_exceeded)
      × (in_window env c business s < c.max_submissions
          → in_burst env c business s < c.burst_max_submissions
          → check_rate_limit env business s ≡ ok (tt, pruned env c business s))
unfolding check_with pruned
check_rate_limit-cases env c business s h =
    rw (check_rate_limit_active env c business s h, analyze_lem env c business s h.nested)
      (λ full. ground arith, λ free full. ground arith, λ free calm. ground arith)

-- The entries and the clock are those of one business; the configuration stays.
pub pruned-kept :
    (env : Env) (c : RateLimitConfig) (business : Address) (s : RateState)
    → let s' = pruned env c business s in
      (get_timestamps business s' ≡ kept env c business s)
      × (s'.high_water ≡ s.high_water)
      × (s'.config ≡ s.config)
unfolding pruned get_timestamps set_timestamps kept
pruned-kept env c business s =
    let cutoff = time_at env business s - c.window_seconds in
    (
      ground (arith, since_of_length cutoff (get_or (s.timestamps business) [])),
      ground arith,
      ground arith,
    )

time_at_cong :
    (env : Env) (business : Address) (s s' : RateState)
    → s'.high_water ≡ s.high_water
    → time_at env business s' ≡ time_at env business s
unfolding time_at
time_at_cong env business s s' h = rw h

-- One rate-limited submission: the check, then the record after the attestation is written.
unfoldable pub submit : Env → Address → Action Error RateState ⊤
submit env business = do check_rate_limit env business; record_submission env business

-- The storage that an accepted submission leaves.
unfoldable pub submitted : Env → RateLimitConfig → Address → RateState → RateState
submitted env c business s =
    let now = time_at env business s in
    record (set_timestamps business (kept env c business s ++ now ∷ []) (pruned env c business s)) {
      high_water = store s.high_water business now;
    }

kept-pruned :
    (env : Env) (c : RateLimitConfig) (business : Address) (s : RateState)
    → kept env c business (pruned env c business s) ≡ kept env c business s
unfolding kept
kept-pruned env c business s =
    let (times, clock, same) = pruned-kept env c business s in
    rw (time_at_cong env business s (pruned env c business s) clock, times)
      (since-since (time_at env business s - c.window_seconds) (get_timestamps business s))

record_submission-pruned :
    (env : Env) (c : RateLimitConfig) (business : Address) (s : RateState)
    → IsActive s c
    → record_submission env business (pruned env c business s) ≡ ok (tt, submitted env c business s)
unfolding record_submission submitted set_timestamps
record_submission-pruned env c business s h =
    let (times, clock, same) = pruned-kept env c business s in
    ground (
      arith,
      analyze_lem env c business (pruned env c business s) h.nested,
      kept-pruned env c business s,
      time_at_cong env business s (pruned env c business s) clock,
      effective_timestamp_lem env business (pruned env c business s),
    )

pub submit-cases :
    (env : Env) (c : RateLimitConfig) (business : Address) (s : RateState)
    → IsActive s c
    → (c.max_submissions ≤ in_window env c business s
        → submit env business s ≡ err rate_limit_exceeded)
      × (in_window env c business s < c.max_submissions
          → c.burst_max_submissions ≤ in_burst env c business s
          → submit env business s ≡ err burst_rate_limit_exceeded)
      × (in_window env c business s < c.max_submissions
          → in_burst env c business s < c.burst_max_submissions
          → submit env business s ≡ ok (tt, submitted env c business s))
unfolding submit
submit-cases env c business s h =
    let (full, burst, free) = check_rate_limit-cases env c business s h in
    (
      λ p. ground (arith, full p),
      λ p q. ground (arith, burst p q),
      λ p q. ground (arith, free p q, record_submission-pruned env c business s h),
    )

-- A submission under an enabled configuration is accepted exactly when both windows have room, an
-- entry exactly at the cutoff still counting, and then its time is appended to the surviving
-- entries and becomes the clock. Its time is the ledger time, or the last one of the business if
-- that is later.
pub submit_iff :
    (env : Env) (c : RateLimitConfig) (business : Address) (s s' : RateState)
    → IsActive s c
    → (submit env business s ≡ ok (tt, s')) ↔ (
        (in_window env c business s < c.max_submissions)
        × (in_burst env c business s < c.burst_max_submissions)
        × (s' ≡ submitted env c business s))
submit_iff env c business s s' h =
    let (full, burst, free) = submit-cases env c business s h in
    (
      λ run. (ground (arith, full), ground (arith, full, burst), ground (arith, full, burst, free)),
      λ (room, burst_room, same). free room burst_room ∙ ap (λ t. ok (tt, t)) (sym same),
    )

-- The two counters that the contract reports are the counts that decide a submission.
pub counts_lem :
    (env : Env) (c : RateLimitConfig) (business : Address) (s : RateState)
    → IsActive s c
    → (get_submission_count env business s ≡ in_window env c business s)
      × (get_burst_submission_count env business s ≡ in_burst env c business s)
unfolding get_submission_count get_burst_submission_count
counts_lem env c business s h = (
  ground (arith, analyze_lem env c business s h.nested),
  ground (arith, analyze_lem env c business s h.nested),
)
