-- ===== src/RateLimit/Window.antt =====
-- The promise of the rate limiter, over every history of submissions: the clock may jump both
-- ways, businesses interleave, and refused submissions are rolled back.
use veritasor_contracts.Prelude.{
  ℕ, ◌-◌, ◌≤◌, ◌<◌, ◌≡◌, ◌≢◌, refl, sym, ◌∙◌, ap, max, true, List, [], ◌∷◌, ◌++◌, none, some,
  get_or, Env, Address, Result, ok, err, ⊤, arith, ◌==◌, if◌then◌else◌, inl, inr, Bool-cases,
  settle, ltb,
}
use veritasor_contracts.RateLimit.{
  RateLimitConfig, RateState, Error, get_timestamps, set_timestamps,
}
use veritasor_contracts.RateLimit.Config.{IsValidConfig}
use veritasor_contracts.RateLimit.Counting.{
  count_since, count_between, count_since-append, count_between-append, count_between-le,
  count_since_mono, count_since-since,
}
use veritasor_contracts.RateLimit.Check.{
  IsActive, time_at, in_window, in_burst, kept, pruned, submit, submitted, submit-cases,
}

-- The clock of a business, 0 before its first submission.
abbrev clock : Address → RateState → ℕ
clock b s = get_or (s.high_water b) 0

time_at-ge-clock : (env : Env) (b : Address) (s : RateState) → clock b s ≤ time_at env b s
unfolding time_at
time_at-ge-clock env b s = ground arith

-- The last time of a log, 0 for an empty one.
abbrev pub latest : List ℕ → ℕ
latest [] = 0
latest (x ∷ []) = x
latest (x ∷ y ∷ ys) = latest (y ∷ ys)

latest-append : (xs : List ℕ) (t : ℕ) → latest (xs ++ t ∷ []) ≡ t
latest-append [] t = refl
latest-append (x ∷ []) t = refl
latest-append (x ∷ y ∷ ys) t = latest-append (y ∷ ys) t

-- The stored entries of `b` agree with the whole log of its accepted submissions wherever a later
-- check can look, and every window over the log is within the limits.
record Tracks (c : RateLimitConfig) (b : Address) (s : RateState) (log : List ℕ) : Type 0 where
  active : IsActive s c
  time : clock b s ≡ latest log
  agree :
      (from : ℕ)
      → clock b s - c.window_seconds ≤ from
      → count_since from (get_timestamps b s) ≡ count_since from log
  within : (t : ℕ) → count_between (t - c.window_seconds) t log ≤ c.max_submissions
  burst_within :
      (t : ℕ) → count_between (t - c.burst_window_seconds) t log ≤ c.burst_max_submissions

submitted_own :
    (env : Env) (c : RateLimitConfig) (b : Address) (s : RateState)
    → (get_timestamps b (submitted env c b s) ≡ kept env c b s ++ time_at env b s ∷ [])
      × (clock b (submitted env c b s) ≡ time_at env b s)
unfolding submitted get_timestamps set_timestamps
submitted_own env c b s = (ground arith, ground arith)

submitted_other :
    (env : Env) (c : RateLimitConfig) (a b : Address) (s : RateState)
    → a ≢ b
    → ((submitted env c a s).timestamps b ≡ s.timestamps b)
      × ((submitted env c a s).high_water b ≡ s.high_water b)
unfolding submitted pruned set_timestamps
submitted_other env c a b s ne = (ground arith, ground arith)

submitted-IsActive :
    (env : Env) (c : RateLimitConfig) (a : Address) (s : RateState)
    → IsActive s c
    → IsActive (submitted env c a s) c
unfolding submitted pruned set_timestamps
submitted-IsActive env c a s h = ground arith

-- One more entry in a window of width `w` that ends at `t`.
window_step :
    (w limit now t : ℕ) (stored log : List ℕ)
    → ((from : ℕ) → now - w ≤ from → count_since from stored ≡ count_since from log)
    → count_since (now - w) stored < limit
    → count_between (t - w) t log ≤ limit
    → count_between (t - w) t (log ++ now ∷ []) ≤ limit
window_step w limit now t stored log agree room old = ground (
  arith,
  count_between-append (t - w) t log (now ∷ []),
  count_between-le (t - w) t log,
  count_since_mono (now - w) (t - w) stored,
  agree (t - w),
)

submitted-Tracks :
    (env : Env) (c : RateLimitConfig) (b : Address) (s : RateState) (log : List ℕ)
    → Tracks c b s log
    → in_window env c b s < c.max_submissions
    → in_burst env c b s < c.burst_max_submissions
    → Tracks c b (submitted env c b s) (log ++ time_at env b s ∷ [])
unfolding in_window in_burst kept
submitted-Tracks env c b s log h room calm =
    let now = time_at env b s in
    let stored = get_timestamps b s in
    let (times, time) = submitted_own env c b s in
    let later = time_at-ge-clock env b s in
    record {
      active = submitted-IsActive env c b s h.active;
      time = time ∙ sym (latest-append log now);
      agree = λ from le. ground (
        arith,
        times,
        time,
        count_since-append from (kept env c b s) (now ∷ []),
        count_since-append from log (now ∷ []),
        count_since-since (now - c.window_seconds) from stored,
        h.agree from,
      );
      within = λ t.
          window_step c.window_seconds c.max_submissions now t stored log
            (λ from le. h.agree from (omega arith)) room (h.within t);
      burst_within = λ t.
          window_step c.burst_window_seconds c.burst_max_submissions now t stored log
            (λ from le. h.agree from (omega (arith, h.active.nested))) calm (h.burst_within t);
    }

submitted_other-Tracks :
    (env : Env) (c : RateLimitConfig) (a b : Address) (s : RateState) (log : List ℕ)
    → a ≢ b
    → Tracks c b s log
    → Tracks c b (submitted env c a s) log
unfolding get_timestamps
submitted_other-Tracks env c a b s log ne h =
    let (times, time) = submitted_other env c a b s ne in
    record {
      active = submitted-IsActive env c a s h.active;
      time = ap (λ o. get_or o 0) time ∙ h.time;
      agree = λ from le. rw times (h.agree from (rw time at le));
      within = h.within;
      burst_within = h.burst_within;
    }

-- The log of `b`'s accepted submissions after one more submission by `a`: each at the ledger time, or
-- at the time of the one before it in the log if the ledger shows less.
abbrev pub next_log : Address → Env → Address → Result Error (⊤ × RateState) → List ℕ → List ℕ
next_log b env a (ok _) log = if a == b then log ++ max env.timestamp (latest log) ∷ [] else log
next_log b env a (err e) log = log

time_at-latest :
    (env : Env) (c : RateLimitConfig) (b : Address) (s : RateState) (log : List ℕ)
    → Tracks c b s log
    → time_at env b s ≡ max env.timestamp (latest log)
unfolding time_at
time_at-latest env c b s log h = ap (max env.timestamp) h.time

-- A history of submissions: the storage, and the log of `b`.
unfoldable pub history : Address → List (Env × Address) → RateState → List ℕ → RateState × List ℕ
history b [] s log = (s, log)
history b ((env, a) ∷ rest) s log =
    let r = submit env a s in history b rest (settle s r) (next_log b env a r log)

step-Tracks :
    (env : Env) (c : RateLimitConfig) (a b : Address) (s : RateState) (log : List ℕ)
    → Tracks c b s log
    → Tracks c b (settle s (submit env a s)) (next_log b env a (submit env a s) log)
step-Tracks env c a b s log h =
    let (full, burst, free) = submit-cases env c a s h.active in
    elim (Bool-cases (ltb (in_window env c a s) c.max_submissions)) [
      | inr no_room ↦ rw (full (ground arith)) h
      | inl room ↦ elim (Bool-cases (ltb (in_burst env c a s) c.burst_max_submissions)) [
        | inr no_calm ↦ rw (burst (ground arith) (ground arith)) h
        | inl calm ↦ rw (free (ground arith) (ground arith)) (elim (Bool-cases (a == b)) [
          | inl same ↦
              let e : a ≡ b = ground arith in
              rw (same, e, sym (time_at-latest env c b s log h))
                (submitted-Tracks env c b s log h (ground arith) (ground arith))
          | inr other ↦ rw other (submitted_other-Tracks env c a b s log (ground arith) h)
        ])
      ]
    ]

history-Tracks :
    (c : RateLimitConfig) (b : Address) (subs : List (Env × Address)) (s : RateState) (log : List ℕ)
    → Tracks c b s log
    → let (s', log') = history b subs s log in Tracks c b s' log'
unfolding history
history-Tracks c b [] s log h = h
history-Tracks c b ((env, a) ∷ rest) s log h =
    history-Tracks c b rest (settle s (submit env a s)) (next_log b env a (submit env a s) log)
      (step-Tracks env c a b s log h)

-- Under a valid and enabled configuration, from a storage that holds nothing of `b`, no history
-- of submissions by any businesses puts more than `max_submissions` accepted submissions of `b`
-- into any span of `window_seconds`, nor more than `burst_max_submissions` into any span of
-- `burst_window_seconds`. An accepted submission counts at the ledger time, or at the time of the
-- one before it if the ledger has gone back behind that; both ends of a span are included, as in
-- the code and unlike in docs/attestation-rate-limits.md, which excludes an entry at the cutoff.
pub window_bound :
    (c : RateLimitConfig) (b : Address) (subs : List (Env × Address)) (s : RateState)
    → IsValidConfig c
    → c.enabled ≡ true
    → s.config ≡ some c
    → s.timestamps b ≡ none
    → s.high_water b ≡ none
    → (t : ℕ)
    → let log = (history b subs s []).1 in
      (count_between (t - c.window_seconds) t log ≤ c.max_submissions)
      × (count_between (t - c.burst_window_seconds) t log ≤ c.burst_max_submissions)
unfolding get_timestamps
window_bound c b subs s v enabled configured times time t =
    let start : Tracks c b s [] = record {
      active = record { configured = configured; enabled = enabled; nested = v.burst_window_le };
      time = rw time refl;
      agree = λ from le. rw times refl;
      within = λ t. omega arith;
      burst_within = λ t. omega arith;
    } in
    let h = history-Tracks c b subs s [] start in (h.within t, h.burst_within t)
