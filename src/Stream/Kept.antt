-- ===== src/Stream/Kept.antt =====
-- The calls that leave the streams' records alone.
use veritasor_contracts.Prelude.{ℕ, ◌≡◌, ap, ◌∙◌, Address, Env, ok, arith, Result-cases, inl, inr}
use veritasor_contracts.Replay.{verify_and_increment_nonce, channel_admin}
use veritasor_contracts.Stream.Types.{Streams}
use veritasor_contracts.Stream.Schedule.{effective_vest_ledger_time}
use veritasor_contracts.Stream.Calls.{initialize, require_admin_with_nonce, pause, resume}
use veritasor_contracts.Stream.Clock.{require_admin_with_nonce-ok}

module _ {L : Type 0} where
  require_admin-streams :
      (env : Env) (admin : Address) (nonce : ℕ) (s t : Streams L)
      → require_admin_with_nonce env admin nonce s ≡ ok (tt, t)
      → t.streams ≡ s.streams
  require_admin-streams env admin nonce s t f =
      let (nonces, e, signed, used, result) = require_admin_with_nonce-ok env admin nonce s t f in
      ap (λ x. x.streams) result

  pub pause-streams :
      (env : Env) (admin : Address) (nonce : ℕ) (s s' : Streams L)
      → pause env admin nonce s ≡ ok (tt, s')
      → s'.streams ≡ s.streams
  unfolding pause
  pause-streams env admin nonce s s' h =
      elim (Result-cases (require_admin_with_nonce env admin nonce s)) [
        | inr (bad, f) ↦ absurd (ground (arith, f))
        | inl ((u, t), f) ↦ elim (Result-cases (effective_vest_ledger_time env t)) [
          | inr (bad, g) ↦ absurd (ground (arith, f, g))
          | inl (time, g) ↦ ground (arith, f, g) ∙ require_admin-streams env admin nonce s t f
        ]
      ]

  pub resume-streams :
      (env : Env) (admin : Address) (nonce : ℕ) (s s' : Streams L)
      → resume env admin nonce s ≡ ok (tt, s')
      → s'.streams ≡ s.streams
  unfolding resume
  resume-streams env admin nonce s s' h =
      elim (Result-cases (require_admin_with_nonce env admin nonce s)) [
        | inr (bad, f) ↦ absurd (ground (arith, f))
        | inl ((u, t), f) ↦
            let after : s'.streams ≡ t.streams = ground (arith, f) in
            after ∙ require_admin-streams env admin nonce s t f
      ]

  pub initialize-streams :
      (env : Env) (admin : Address) (nonce : ℕ) (s s' : Streams L)
      → initialize env admin nonce s ≡ ok (tt, s')
      → s'.streams ≡ s.streams
  unfolding initialize
  initialize-streams env admin nonce s s' h =
      elim (Result-cases (verify_and_increment_nonce admin channel_admin nonce s.nonces)) [
        | inr (bad, f) ↦ absurd (ground (arith, f))
        | inl ((u, nonces), f) ↦ ground (arith, f)
      ]
