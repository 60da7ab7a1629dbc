-- ===== src/RateLimit/Config.antt =====
-- The bounds that `set_rate_limit_config` enforces.
use veritasor_contracts.Prelude.{◌≤◌, ◌≡◌, ◌↔◌, some, ok, arith}
use veritasor_contracts.RateLimit.{
  RateLimitConfig, RateState, set_rate_limit_config, max_submissions_limit_const,
  max_window_seconds,
}

-- The invariants that the documentation of `RateLimitConfig` lists.
pub record IsValidConfig (c : RateLimitConfig) : Type 0 where
  pub burst_pos : 1 ≤ c.burst_max_submissions
  pub burst_le : c.burst_max_submissions ≤ c.max_submissions
  pub max_le : c.max_submissions ≤ max_submissions_limit_const
  pub burst_window_pos : 1 ≤ c.burst_window_seconds
  pub burst_window_le : c.burst_window_seconds ≤ c.window_seconds
  pub window_le : c.window_seconds ≤ max_window_seconds

-- A configuration is stored exactly when it satisfies the documented bounds; a valid one
-- replaces the stored configuration and nothing else.
pub set_rate_limit_config_iff :
    (c : RateLimitConfig) (s s' : RateState)
    → (set_rate_limit_config c s ≡ ok (tt, s'))
      ↔ (IsValidConfig c × (s' ≡ record s { config = some c }))
unfolding set_rate_limit_config
set_rate_limit_config_iff c s s' =
    (λ h. (ground arith, ground arith), λ (v, same). ground (arith, v, same))
