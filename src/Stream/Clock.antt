-- ===== src/Stream/Clock.antt =====
-- The schedule time follows the ledger clock, less the time spent paused.
use veritasor_contracts.Prelude.{
  ℕ, ◌+◌, ◌-◌, ◌≤◌, ◌≡◌, refl, sym, subst, ◌∙◌, ap, Bool, true, false, Option, none, some, Env,
  Address, ok, ⊤, arith, is_some, if◌then◌else◌, Option-cases, Result-cases, inl, inr,
}
use veritasor_contracts.Prelude.Int.{u64_max}
use veritasor_contracts.Replay.{Nonces, verify_and_increment_nonce, channel_admin}
use veritasor_contracts.Stream.Types.{VestTimeRemap, Streams}
use veritasor_contracts.Stream.Schedule.{is_paused, effective_vest_ledger_time}
use veritasor_contracts.Stream.Calls.{initialize, require_admin_with_nonce, pause, resume}

-- Time goes on: by as much on the schedule as on the ledger, or not at all while paused.
unfoldable pub waited : Bool → ℕ → ℕ
waited stopped d = if stopped then 0 else d

module _ {L : Type 0} where
  -- At the ledger time `now` the schedule time is `eff`: frozen, or running with the ledger.
  pub data IsClock (now eff : ℕ) (s : Streams L) : Type 0 where
    frozen :
        eff ≤ now
        → is_paused s ≡ true
        → is_some s.admin ≡ true
        → s.pause_snapshot ≡ some eff
        → IsClock now eff s
    plain : eff ≡ now → is_paused s ≡ false → s.vest_time_remap ≡ none → IsClock now eff s
    shifted :
        (m : VestTimeRemap)
        → is_paused s ≡ false
        → s.vest_time_remap ≡ some m
        → m.t_eff0 ≤ m.at_ledger
        → m.at_ledger ≤ now
        → eff ≡ m.t_eff0 + (now - m.at_ledger)
        → IsClock now eff s

  pub IsClock-le : (now eff : ℕ) (s : Streams L) → IsClock now eff s → eff ≤ now
  IsClock-le now eff s (frozen le stopped set snap) = le
  IsClock-le now eff s (plain same running no_map) = omega arith
  IsClock-le now eff s (shifted m running map back past same) = omega arith

  pub effective_lem :
      (env : Env) (eff : ℕ) (s : Streams L)
      → IsClock env.timestamp eff s
      → env.timestamp ≤ u64_max
      → effective_vest_ledger_time env s ≡ ok eff
  unfolding effective_vest_ledger_time
  effective_lem env eff s (frozen le stopped set snap) small = ground arith
  effective_lem env eff s (plain same running no_map) small = ground arith
  effective_lem env eff s (shifted m running map back past same) small = ground arith

  pub wait-IsClock :
      (now d eff : ℕ) (s : Streams L)
      → IsClock now eff s
      → IsClock (now + d) (eff + waited (is_paused s) d) s
  unfolding waited
  wait-IsClock now d eff s (frozen le stopped set snap) =
      rw stopped (frozen (omega arith) stopped set (ground (arith, snap)))
  wait-IsClock now d eff s (plain same running no_map) =
      rw running (plain (omega arith) running no_map)
  wait-IsClock now d eff s (shifted m running map back past same) =
      rw running (shifted m running map back (omega arith) (omega arith))

  -- The storage that a call leaves when it writes nothing that the clock reads.
  pub record SameClock (s s' : Streams L) : Type 0 where
    pub paused_kept : is_paused s' ≡ is_paused s
    pub admin_kept : s'.admin ≡ s.admin
    pub snapshot_kept : s'.pause_snapshot ≡ s.pause_snapshot
    pub remap_kept : s'.vest_time_remap ≡ s.vest_time_remap

  pub SameClock-trans : (s t u : Streams L) → SameClock s t → SameClock t u → SameClock s u
  SameClock-trans s t u k l = record {
    paused_kept = l.paused_kept ∙ k.paused_kept;
    admin_kept = l.admin_kept ∙ k.admin_kept;
    snapshot_kept = l.snapshot_kept ∙ k.snapshot_kept;
    remap_kept = l.remap_kept ∙ k.remap_kept;
  }

  pub SameClock-IsClock :
      (now eff : ℕ) (s s' : Streams L) → SameClock s s' → IsClock now eff s → IsClock now eff s'
  SameClock-IsClock now eff s s' k (frozen le stopped set snap) =
      frozen le (k.paused_kept ∙ stopped) (ap is_some k.admin_kept ∙ set) (k.snapshot_kept ∙ snap)
  SameClock-IsClock now eff s s' k (plain same running no_map) =
      plain same (k.paused_kept ∙ running) (k.remap_kept ∙ no_map)
  SameClock-IsClock now eff s s' k (shifted m running map back past same) =
      shifted m (k.paused_kept ∙ running) (k.remap_kept ∙ map) back past same

  pub require_admin_with_nonce-ok :
      (env : Env) (admin : Address) (nonce : ℕ) (s s' : Streams L)
      → require_admin_with_nonce env admin nonce s ≡ ok (tt, s')
      → (nonces : ℕ → ℕ → Option ℕ) × (s.admin ≡ some admin)
        × (env.authorized admin ≡ true)
        × (verify_and_increment_nonce admin channel_admin nonce s.nonces ≡ ok (tt, nonces))
        × (s' ≡ record s { nonces = nonces })
  unfolding require_admin_with_nonce
  require_admin_with_nonce-ok env admin nonce s s' h = elim (Option-cases s.admin) [
    | inl e ↦ absurd (ground (arith, e))
    | inr (a, e) ↦
        elim (Result-cases (verify_and_increment_nonce admin channel_admin nonce s.nonces)) [
          | inr (bad, f) ↦ absurd (ground (arith, e, f))
          | inl ((u, nonces), f) ↦
              (nonces, ground (arith, e, f), ground (arith, e, f), f, ground (arith, e, f))
        ]
  ]

  pub require_admin-SameClock :
      (env : Env) (admin : Address) (nonce : ℕ) (s s' : Streams L)
      → require_admin_with_nonce env admin nonce s ≡ ok (tt, s')
      → SameClock s s'
  unfolding is_paused
  require_admin-SameClock env admin nonce s s' h =
      let (nonces, e, signed, used, result) = require_admin_with_nonce-ok env admin nonce s s' h in
      subst (SameClock s) (sym result)
        (record { paused_kept = refl; admin_kept = refl; snapshot_kept = refl; remap_kept = refl })

  -- Pausing freezes the schedule at its time of that moment.
  pub pause-IsClock :
      (env : Env) (admin : Address) (nonce eff : ℕ) (s s' : Streams L)
      → pause env admin nonce s ≡ ok (tt, s')
      → env.timestamp ≤ u64_max
      → IsClock env.timestamp eff s
      → IsClock env.timestamp eff s'
  unfolding pause is_paused
  pause-IsClock env admin nonce eff s s' h small c =
      elim (Result-cases (require_admin_with_nonce env admin nonce s)) [
        | inr (bad, f) ↦ absurd (ground (arith, f))
        | inl ((u, t), f) ↦
            let (nonces, e, signed, used, result) =
              require_admin_with_nonce-ok env admin nonce s t f in
            let same : SameClock s t = require_admin-SameClock env admin nonce s t f in
            let time =
              effective_lem env eff t (SameClock-IsClock env.timestamp eff s t same c) small in
            let admins : s'.admin ≡ t.admin = ground (arith, f, time) in
            frozen (IsClock-le env.timestamp eff s c) (ground (arith, f, time))
              (ap is_some (admins ∙ same.admin_kept ∙ e)) (ground (arith, f, time))
      ]

  -- Resuming lets it run on from there.
  pub resume-IsClock :
      (env : Env) (admin : Address) (nonce eff : ℕ) (s s' : Streams L)
      → resume env admin nonce s ≡ ok (tt, s')
      → IsClock env.timestamp eff s
      → IsClock env.timestamp eff s'
  unfolding resume is_paused
  resume-IsClock env admin nonce eff s s' h c =
      elim (Result-cases (require_admin_with_nonce env admin nonce s)) [
        | inr (bad, f) ↦ absurd (ground (arith, f))
        | inl ((u, t), f) ↦
            let same : SameClock s t = require_admin-SameClock env admin nonce s t f in
            resumed f (SameClock-IsClock env.timestamp eff s t same c)
      ]
    where
      resumed :
          {u : ⊤} {t : Streams L}
          → require_admin_with_nonce env admin nonce s ≡ ok (u, t)
          → IsClock env.timestamp eff t
          → IsClock env.timestamp eff s'
      resumed f (plain same running no_map) = absurd (ground (arith, f))
      resumed f (shifted m running map back past same) = absurd (ground (arith, f))
      resumed f (frozen le stopped set snap) =
          shifted (record { t_eff0 = eff; at_ledger = env.timestamp }) (ground (arith, f))
            (ground (arith, f)) le (omega arith) (omega arith)

  pub initialize-IsClock :
      (env : Env) (admin : Address) (nonce eff : ℕ) (s s' : Streams L)
      → initialize env admin nonce s ≡ ok (tt, s')
      → IsClock env.timestamp eff s
      → IsClock env.timestamp eff s'
  unfolding initialize is_paused
  initialize-IsClock env admin nonce eff s s' h c =
      elim (Result-cases (verify_and_increment_nonce admin channel_admin nonce s.nonces)) [
        | inr (bad, f) ↦ absurd (ground (arith, f))
        | inl ((u, nonces), f) ↦ started f c
      ]
    where
      started :
          {u : ⊤} {nonces : Nonces}
          → verify_and_increment_nonce admin channel_admin nonce s.nonces ≡ ok (u, nonces)
          → IsClock env.timestamp eff s
          → IsClock env.timestamp eff s'
      started f (frozen le stopped set snap) = absurd (ground (arith, f))
      started f (plain same running no_map) = plain same (ground (arith, f)) (ground (arith, f))
      started f (shifted m running map back past same) =
          shifted m (ground (arith, f)) (ground (arith, f)) back past same
