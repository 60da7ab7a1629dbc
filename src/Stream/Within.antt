-- ===== src/Stream/Within.antt =====
-- What is released of a stream stays within its schedule, and what a release pays.
use veritasor_contracts.Prelude.{
  ℕ, ◌+◌, ◌-◌, ◌≤◌, ◌<◌, ◌≡◌, refl, sym, subst, ◌∙◌, ap, true, false, some, Env, Address, ok, arith,
  store, Slots, ◌==◌, Bool-cases, Option-cases, inl, inr,
}
use veritasor_contracts.Prelude.Int.{
  pos, pos_part, nonneg_of_pos, pos_of_nonneg, i128_mod, checked, checked_pos, ◌+ℤ◌,
}
use veritasor_contracts.Stream.Types.{Stream, Streams, Transfer, Attestations}
use veritasor_contracts.Stream.Schedule.{is_fully_paid, is_paused, effective_vest_ledger_time}
use veritasor_contracts.Stream.Calls.{create_stream, release}
use veritasor_contracts.Stream.Vesting.{vested, IsSmall, vested-le, vested_monotone}
use veritasor_contracts.Stream.Clock.{waited}
use veritasor_contracts.Stream.Release.{
  released_sum, claimable_returns, release-ok, create_stream-ok,
}
use veritasor_contracts.Stream.Histories.{
  History, start, wait, initializing, creating, releasing, pausing, resuming,
  effective_vest_ledger_time_refines,
}
use veritasor_contracts.Stream.Kept.{pause-streams, resume-streams, initialize-streams}

-- What is released of a stream, in whole tokens, is within what is vested at the schedule time `eff`.
pub data IsWithin (eff : ℕ) (st : Stream) : Type 0 where
  within :
      (a r : ℕ)
      → 0 < a
      → st.amount ≡ pos a
      → st.released_amount ≡ pos r
      → r ≤ vested a st.vesting eff
      → IsWithin eff st

abbrev pub AreWithin : ℕ → Slots Stream → Type 0
AreWithin eff streams = (id : ℕ) (st : Stream) → streams id ≡ some st → IsWithin eff st

wait-AreWithin :
    (e f : ℕ) (streams : Slots Stream) → e ≤ f → AreWithin e streams → AreWithin f streams
wait-AreWithin e f streams le w id st found = elim (w id st found) [
  | within a r positive is_a is_r covered ↦
      within a r positive is_a is_r (omega (arith, vested_monotone a st.vesting e f le))
]

store-AreWithin :
    (eff id : ℕ) (st : Stream) (streams streams' : Slots Stream)
    → streams' ≡ store streams id st
    → IsWithin eff st
    → AreWithin eff streams
    → AreWithin eff streams'
store-AreWithin eff id st streams streams' same new w =
    subst (AreWithin eff) (sym same) (λ j x found. elim (Bool-cases (id == j)) [
      | inl e ↦ subst (IsWithin eff) (ground (arith, e, found)) new
      | inr e ↦ w j x (ground (arith, e, found))
    ])

module _ {L : Type 0} (transfer : Transfer L) (l : L) where
  -- The books after a release of a stream that was within its schedule.
  release-AreWithin :
      (attestations : Attestations) (env : Env) (id eff : ℕ) (s s' : Streams L)
      → release transfer attestations env id s ≡ ok (tt, s')
      → effective_vest_ledger_time env s ≡ ok eff
      → AreWithin eff s.streams
      → AreWithin eff s'.streams
  unfolding release
  release-AreWithin attestations env id eff s s' h time w = elim (Option-cases (s.streams id)) [
    | inl e ↦ absurd (ground (arith, e))
    | inr (st, found) ↦ elim (w id st found) [
      | within a r positive is_a is_r covered ↦
          let effects =
            release-ok transfer attestations env id st a r eff s s' h found time is_a is_r
              covered in
          let (running, cliff, attested, valid, more, paid, booked, clock) = effects in
          store-AreWithin eff id (record st { released_amount = pos (vested a st.vesting eff) })
            s.streams s'.streams booked
            (within a (vested a st.vesting eff) positive is_a refl (omega arith)) w
    ]
  ]

  create_stream-AreWithin :
      (env : Env) (admin : Address) (nonce : ℕ) (st : Stream) (id eff : ℕ) (s s' : Streams L)
      → create_stream transfer env admin nonce st s ≡ ok (id, s')
      → AreWithin eff s.streams
      → AreWithin eff s'.streams
  create_stream-AreWithin env admin nonce st id eff s s' h w =
      let effects = create_stream-ok transfer env admin nonce st id s s' h in
      let (positive, number, paid, booked, clock) = effects in
      let sign = nonneg_of_pos st.amount (ground (arith, positive)) in
      store-AreWithin eff id (record st { id = id; released_amount = pos 0 }) s.streams s'.streams
        booked
        (within (pos_part st.amount) 0 (ground (arith, positive, sign))
          (pos_of_nonneg st.amount sign) refl (omega arith))
        w

  History-AreWithin :
      (now eff : ℕ) (s : Streams L) → History transfer l now eff s → AreWithin eff s.streams
  History-AreWithin now eff s (start n small) = λ id st found. absurd (ground arith)
  History-AreWithin now eff s (wait {now = n} {eff = e} d past small) =
      wait-AreWithin e (e + waited (is_paused s) d) s.streams (omega arith)
        (History-AreWithin n e s past)
  History-AreWithin now eff s (initializing {eff = e} {s = t} env admin nonce past h) =
      subst (AreWithin e) (sym (initialize-streams env admin nonce t s h))
        (History-AreWithin env.timestamp e t past)
  History-AreWithin now eff s (creating {eff = e} {s = t} env admin nonce stream id past h) =
      create_stream-AreWithin env admin nonce stream id e t s h
        (History-AreWithin env.timestamp e t past)
  History-AreWithin now eff s (releasing {eff = e} {s = t} attestations env id past h) =
      release-AreWithin attestations env id e t s h
        (effective_vest_ledger_time_refines transfer l env e t past)
        (History-AreWithin env.timestamp e t past)
  History-AreWithin now eff s (pausing {eff = e} {s = t} env admin nonce past h) =
      subst (AreWithin e) (sym (pause-streams env admin nonce t s h))
        (History-AreWithin env.timestamp e t past)
  History-AreWithin now eff s (resuming {eff = e} {s = t} env admin nonce past h) =
      subst (AreWithin e) (sym (resume-streams env admin nonce t s h))
        (History-AreWithin env.timestamp e t past)

  -- After every history, what a stream has released is within what its schedule has vested at the
  -- schedule time, and that is within its amount.
  pub released_within_vested :
      (now eff id : ℕ) (st : Stream) (s : Streams L)
      → History transfer l now eff s
      → s.streams id ≡ some st
      → (a : ℕ) × (r : ℕ) × (st.amount ≡ pos a)
        × (st.released_amount ≡ pos r)
        × (r ≤ vested a st.vesting eff)
        × (vested a st.vesting eff ≤ a)
  released_within_vested now eff id st s past found =
      elim (History-AreWithin now eff s past id st found) [
        | within a r positive is_a is_r covered ↦
            (a, r, is_a, is_r, covered, vested-le a st.vesting eff)
      ]

  -- A release that returns, after every history: the contract is not paused, the stream's attestation
  -- exists and is not revoked, the beneficiary is paid exactly what the schedule has vested and was not
  -- yet released, which is more than nothing, and the books then show all of it as released.
  pub release_pays_vested :
      (attestations : Attestations) (env : Env) (eff id : ℕ) (st : Stream) (s s' : Streams L)
      → History transfer l env.timestamp eff s
      → s.streams id ≡ some st
      → release transfer attestations env id s ≡ ok (tt, s')
      → (a : ℕ) × (r : ℕ) × (st.amount ≡ pos a)
        × (st.released_amount ≡ pos r)
        × (r < vested a st.vesting eff)
        × (is_paused s ≡ false)
        × (attestations.has_attestation st.attestation_contract st.business st.period ≡ true)
        × (attestations.is_revoked st.attestation_contract st.business st.period ≡ false)
        × (transfer st.token env.current_contract st.beneficiary
              (pos (vested a st.vesting eff - r))
              s.ledger
            ≡ some s'.ledger)
        × (s'.streams id ≡ some (record st { released_amount = pos (vested a st.vesting eff) }))
  release_pays_vested attestations env eff id st s s' past found h =
      elim (History-AreWithin env.timestamp eff s past id st found) [
        | within a r positive is_a is_r covered ↦
            let time = effective_vest_ledger_time_refines transfer l env eff s past in
            let effects =
              release-ok transfer attestations env id st a r eff s s' h found time is_a is_r
                covered in
            let (running, cliff, attested, valid, more, paid, booked, clock) = effects in
            (
              a,
              r,
              is_a,
              is_r,
              more,
              running,
              attested,
              valid,
              paid,
              ap (λ x. x id) booked ∙ ground arith,
            )
      ]

  -- The same release returns, after every history, when the contract is not paused, more is vested than
  -- was released, the attestation exists and is not revoked, the amount and its product with the length
  -- of the accrual fit an `i128`, and the token makes the payment.
  pub release_returns :
      (attestations : Attestations) (env : Env) (eff id a r : ℕ) (st : Stream) (s : Streams L)
      (paid : L)
      → History transfer l env.timestamp eff s
      → s.streams id ≡ some st
      → st.amount ≡ pos a
      → st.released_amount ≡ pos r
      → r < vested a st.vesting eff
      → a < i128_mod
      → IsSmall a st.vesting
      → is_paused s ≡ false
      → attestations.has_attestation st.attestation_contract st.business st.period ≡ true
      → attestations.is_revoked st.attestation_contract st.business st.period ≡ false
      → transfer st.token env.current_contract st.beneficiary
          (pos (vested a st.vesting eff - r))
          s.ledger
        ≡ some paid
      → (s' : Streams L) × (release transfer attestations env id s ≡ ok (tt, s'))
  unfolding release is_fully_paid
  release_returns attestations env eff id a r st s paid past found is_a is_r more fits small running
        attested valid pays =
      let time = effective_vest_ledger_time_refines transfer l env eff s past in
      let claim = claimable_returns env st a r eff s time is_a is_r more fits small in
      let sum =
        ap (λ x. checked (x +ℤ pos (vested a st.vesting eff - r))) is_r
        ∙ ap checked (released_sum r (vested a st.vesting eff) more)
        ∙ checked_pos (vested a st.vesting eff) (omega (arith, more, vested-le a st.vesting eff)) in
      let below = vested-le a st.vesting eff in
      (
        record s {
          streams =
              store s.streams id (record st { released_amount = pos (vested a st.vesting eff) });
          ledger = paid;
        },
        ground (arith, found, claim, is_a, is_r, attested, valid, running, pays, sum, below),
      )
