-- ===== src/RateLimit/Isolation.antt =====
-- What a submission leaves alone, and how far the storage of a business can grow.
use veritasor_contracts.Prelude.{
  ◌-◌, ◌≤◌, ◌≡◌, ◌≢◌, false, some, [], ◌∷◌, Env, Address, ok, arith, length, length-append,
  Option-cases, inl, inr,
}
use veritasor_contracts.RateLimit.{
  RateLimitConfig, RateState, get_timestamps, set_timestamps, check_rate_limit, record_submission,
  check_with,
}
use veritasor_contracts.RateLimit.Counting.{length-since}
use veritasor_contracts.RateLimit.Check.{
  time_at, IsActive, in_window, kept, submit, submitted, submit-cases,
}

-- A submission by one business writes neither the slots of another one nor the configuration,
-- whether a configuration is present, enabled or not.
pub submit_isolated :
    (env : Env) (a b : Address) (s s' : RateState)
    → a ≢ b
    → submit env a s ≡ ok (tt, s')
    → (s'.timestamps b ≡ s.timestamps b)
      × (s'.high_water b ≡ s.high_water b)
      × (s'.config ≡ s.config)
unfolding submit check_rate_limit record_submission check_with set_timestamps
submit_isolated env a b s s' ne h = (ground arith, ground arith, ground arith)

-- Without a configuration, or under a disabled one, every submission is accepted and nothing is
-- stored.
pub submit_unlimited :
    (env : Env) (a : Address) (s : RateState)
    → ((c : RateLimitConfig) → s.config ≡ some c → c.enabled ≡ false)
    → submit env a s ≡ ok (tt, s)
unfolding submit check_rate_limit record_submission
submit_unlimited env a s h = elim (Option-cases s.config) [
  | inl absent ↦ ground arith
  | inr (c, e) ↦ ground (arith, h c e)
]

-- An accepted submission leaves at most `max_submissions` stored entries for its business.
pub submit_bounded :
    (env : Env) (c : RateLimitConfig) (a : Address) (s s' : RateState)
    → IsActive s c
    → submit env a s ≡ ok (tt, s')
    → length (get_timestamps a s') ≤ c.max_submissions
unfolding in_window submitted get_timestamps set_timestamps kept
submit_bounded env c a s s' h done =
    let (full, burst, free) = submit-cases env c a s h in
    let stored = get_timestamps a s in
    let now = time_at env a s in
    ground (
      arith,
      full,
      burst,
      free,
      length-since (now - c.window_seconds) stored,
      length-append (kept env c a s) (now ∷ []),
    )
