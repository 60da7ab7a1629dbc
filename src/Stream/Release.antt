-- ===== src/Stream/Release.antt =====
-- What a returning create or release did: the stream's record, the payment and the clock.
use veritasor_contracts.Prelude.{
  ℕ, ◌-◌, ◌≤◌, ◌<◌, ◌≡◌, refl, sym, ◌∙◌, ap, true, false, none, some, Env, Address, ok, arith,
  store, get_or, Option-cases, Result-cases, inl, inr,
}
use veritasor_contracts.Prelude.Int.{
  ℤ, pos, ◌+ℤ◌, ◌-ℤ◌, ltb_ℤ, checked, checked_pos, +ℤ_pos, -ℤ_pos, min_ℤ, i128_mod,
}
use veritasor_contracts.Stream.Types.{
  VestingSchedule, lump, linear, Stream, Streams, Transfer, Attestations,
}
use veritasor_contracts.Stream.Schedule.{is_paused, effective_vest_ledger_time, vested_by_schedule}
use veritasor_contracts.Stream.Calls.{
  past_cliff, claimable, create_stream, release, require_admin_with_nonce,
}
use veritasor_contracts.Stream.Vesting.{
  vested, IsSmall, vested-le, vested_by_schedule_lem, vested_by_schedule-ok,
}
use veritasor_contracts.Stream.Clock.{
  SameClock, SameClock-trans, require_admin-SameClock, require_admin_with_nonce-ok,
}

checked_difference :
    (x : ℤ) (m r : ℕ) → x ≡ pos r → r ≤ m → m < i128_mod → checked (pos m -ℤ x) ≡ some (pos (m - r))
checked_difference x m r is_r le small =
    ap (λ y. checked (pos m -ℤ y)) is_r
    ∙ ap checked (-ℤ_pos m r le)
    ∙ checked_pos (m - r) (omega arith)

past_cliff_of_vested :
    (a : ℕ) (schedule : VestingSchedule) (t : ℕ)
    → 0 < vested a schedule t
    → past_cliff schedule t ≡ true
unfolding vested
past_cliff_of_vested a (lump none) t positive = refl
past_cliff_of_vested a (lump (some c)) t positive = ground arith
past_cliff_of_vested a (linear from to) t positive = refl

pub released_sum : (r v : ℕ) → r < v → pos r +ℤ pos (v - r) ≡ pos v
released_sum r v le = +ℤ_pos r (v - r) ∙ ap pos (omega (arith, le))

module _ {L : Type 0} where
  -- A claimable amount is what the schedule has vested and the stream has not released.
  claimable-ok :
      (env : Env) (st : Stream) (a r t : ℕ) (due : ℤ) (s s' : Streams L)
      → claimable env st s ≡ ok (due, s')
      → effective_vest_ledger_time env s ≡ ok t
      → st.amount ≡ pos a
      → st.released_amount ≡ pos r
      → r ≤ vested a st.vesting t
      → (due ≡ pos (vested a st.vesting t - r)) × (s' ≡ s) × (past_cliff st.vesting t ≡ true)
  unfolding claimable
  claimable-ok env st a r t due s s' h time is_a is_r le =
      elim (Result-cases (vested_by_schedule (pos a) st.vesting t)) [
        | inr (bad, f) ↦ absurd (ground (arith, time, f))
        | inl (v, f) ↦
            let same : v ≡ pos (vested a st.vesting t) = vested_by_schedule-ok a st.vesting t v f in
            let difference : v -ℤ st.released_amount ≡ pos (vested a st.vesting t - r) =
              ap (λ x. x -ℤ st.released_amount) same
              ∙ ap (λ x. pos (vested a st.vesting t) -ℤ x) is_r
              ∙ -ℤ_pos (vested a st.vesting t) r le in
            let rest : st.amount -ℤ st.released_amount ≡ pos (a - r) =
              ap (λ x. x -ℤ st.released_amount) is_a
              ∙ ap (λ x. pos a -ℤ x) is_r
              ∙ -ℤ_pos a r (omega (arith, vested-le a st.vesting t)) in
            let below = vested-le a st.vesting t in
            let checks : (past_cliff st.vesting t ≡ true)
                × (s' ≡ s)
                × (due ≡ min_ℤ (v -ℤ st.released_amount) (st.amount -ℤ st.released_amount)) =
              ground (arith, time, f, is_a) in
            let (cliff, kept, smaller) = checks in
            (ground (arith, smaller, difference, rest, below), kept, cliff)
      ]

  -- What has vested beyond the released amount can be claimed.
  pub claimable_returns :
      (env : Env) (st : Stream) (a r t : ℕ) (s : Streams L)
      → effective_vest_ledger_time env s ≡ ok t
      → st.amount ≡ pos a
      → st.released_amount ≡ pos r
      → r < vested a st.vesting t
      → a < i128_mod
      → IsSmall a st.vesting
      → claimable env st s ≡ ok (pos (vested a st.vesting t - r), s)
  unfolding claimable
  claimable_returns env st a r t s time is_a is_r more fits small =
      let below = vested-le a st.vesting t in
      let amount : vested_by_schedule st.amount st.vesting t ≡ ok (pos (vested a st.vesting t)) =
        ap (λ x. vested_by_schedule x st.vesting t) is_a
        ∙ vested_by_schedule_lem a st.vesting t (omega arith) small in
      let difference =
        checked_difference st.released_amount (vested a st.vesting t) r is_r (omega arith)
          (omega arith) in
      let rest : checked (st.amount -ℤ st.released_amount) ≡ some (pos (a - r)) =
        ap (λ x. checked (x -ℤ st.released_amount)) is_a
        ∙ checked_difference st.released_amount a r is_r (omega arith) (omega arith) in
      let cliff = past_cliff_of_vested a st.vesting t (omega arith) in
      ground (arith, time, cliff, amount, difference, rest, below)

  claimable_kept :
      (env : Env) (st : Stream) (due : ℤ) (s s' : Streams L)
      → claimable env st s ≡ ok (due, s')
      → s' ≡ s
  unfolding claimable
  claimable_kept env st due s s' h = elim (Result-cases (effective_vest_ledger_time env s)) [
    | inr (bad, f) ↦ absurd (ground (arith, f))
    | inl (t, f) ↦ elim (Result-cases (vested_by_schedule st.amount st.vesting t)) [
      | inr (bad, g) ↦ absurd (ground (arith, f, g))
      | inl (v, g) ↦ ground (arith, f, g)
    ]
  ]

  module _ (transfer : Transfer L) (attestations : Attestations) where
    pub release-SameClock :
        (env : Env) (id : ℕ) (s s' : Streams L)
        → release transfer attestations env id s ≡ ok (tt, s')
        → SameClock s s'
    unfolding release is_paused
    release-SameClock env id s s' h = elim (Option-cases (s.streams id)) [
      | inl e ↦ absurd (ground (arith, e))
      | inr (st, found) ↦ elim (Result-cases (claimable env st s)) [
        | inr (bad, f) ↦ absurd (ground (arith, found, f))
        | inl ((due, u), f) ↦
            let kept = claimable_kept env st due s u f in
            elim (Option-cases
              (transfer st.token env.current_contract st.beneficiary due u.ledger)) [
                | inl g ↦ absurd (ground (arith, found, f, g))
                | inr (ledger, g) ↦ record {
                  paused_kept = ground (arith, found, f, g, kept);
                  admin_kept = ground (arith, found, f, g, kept);
                  snapshot_kept = ground (arith, found, f, g, kept);
                  remap_kept = ground (arith, found, f, g, kept);
                }
              ]
      ]
    ]

    -- A returning release pays what is vested and not yet released, and books it.
    pub release-ok :
        (env : Env) (id : ℕ) (st : Stream) (a r t : ℕ) (s s' : Streams L)
        → release transfer attestations env id s ≡ ok (tt, s')
        → s.streams id ≡ some st
        → effective_vest_ledger_time env s ≡ ok t
        → st.amount ≡ pos a
        → st.released_amount ≡ pos r
        → r ≤ vested a st.vesting t
        → (is_paused s ≡ false)
          × (past_cliff st.vesting t ≡ true)
          × (attestations.has_attestation st.attestation_contract st.business st.period ≡ true)
          × (attestations.is_revoked st.attestation_contract st.business st.period ≡ false)
          × (r < vested a st.vesting t)
          × (transfer st.token env.current_contract st.beneficiary
                (pos (vested a st.vesting t - r))
                s.ledger
              ≡ some s'.ledger)
          × (s'.streams
              ≡ store s.streams id (record st { released_amount = pos (vested a st.vesting t) }))
          × SameClock s s'
    unfolding release is_paused
    release-ok env id st a r t s s' h found time is_a is_r le =
        elim (Result-cases (claimable env st s)) [
          | inr (bad, f) ↦ absurd (ground (arith, found, f))
          | inl ((due, u), f) ↦
              let (is_due, kept, cliff) = claimable-ok env st a r t due s u f time is_a is_r le in
              let sum : st.released_amount +ℤ due ≡ pos (vested a st.vesting t) =
                ap (λ x. x +ℤ due) is_r
                ∙ ap (λ x. pos r +ℤ x) is_due
                ∙ +ℤ_pos r (vested a st.vesting t - r)
                ∙ ap pos (omega (arith, le)) in
              elim (Option-cases
                (transfer st.token env.current_contract st.beneficiary due u.ledger)) [
                  | inl g ↦ absurd (ground (arith, found, f, g))
                  | inr (ledger, g) ↦
                      let effects : (transfer st.token env.current_contract st.beneficiary due
                              s.ledger
                            ≡ some s'.ledger)
                          × (attestations.has_attestation st.attestation_contract st.business
                                st.period
                              ≡ true)
                          × (attestations.is_revoked st.attestation_contract st.business st.period
                              ≡ false)
                          × (ltb_ℤ (pos 0) due ≡ true) =
                        ground (arith, found, f, g, kept) in
                      let (paid, attested, valid, positive) = effects in
                      let booked : s'.streams
                          ≡ store s.streams id
                              (record st { released_amount = st.released_amount +ℤ due }) =
                        ground (arith, found, f, g, kept) in
                      let clock : SameClock s s' = record {
                        paused_kept = ground (arith, found, f, g, kept);
                        admin_kept = ground (arith, found, f, g, kept);
                        snapshot_kept = ground (arith, found, f, g, kept);
                        remap_kept = ground (arith, found, f, g, kept);
                      } in
                      (
                        ground (arith, found),
                        cliff,
                        attested,
                        valid,
                        ground (arith, positive, is_due),
                        ap (λ x. transfer st.token env.current_contract st.beneficiary x s.ledger)
                              (sym is_due)
                            ∙ paid,
                        booked
                            ∙ ap (λ x. store s.streams id (record st { released_amount = x })) sum,
                        clock,
                      )
                ]
        ]

  -- A returning create stores the new stream with nothing released, and takes its amount.
  pub create_stream-ok :
      (transfer : Transfer L) (env : Env) (admin : Address) (nonce : ℕ) (st : Stream) (id : ℕ)
      (s s' : Streams L)
      → create_stream transfer env admin nonce st s ≡ ok (id, s')
      → (ltb_ℤ (pos 0) st.amount ≡ true)
        × (id ≡ get_or s.next_stream_id 0)
        × (transfer st.token admin env.current_contract st.amount s.ledger ≡ some s'.ledger)
        × (s'.streams ≡ store s.streams id (record st { id = id; released_amount = pos 0 }))
        × SameClock s s'
  unfolding create_stream is_paused
  create_stream-ok transfer env admin nonce st id s s' h =
      elim (Result-cases (require_admin_with_nonce env admin nonce s)) [
        | inr (bad, f) ↦ absurd (ground (arith, f))
        | inl ((u, t), f) ↦
            elim (Option-cases (transfer st.token admin env.current_contract st.amount t.ledger)) [
              | inl g ↦ absurd (ground (arith, f, g))
              | inr (ledger, g) ↦
                  let before = require_admin-SameClock env admin nonce s t f in
                  let (nonces, e, signed, used, result) =
                    require_admin_with_nonce-ok env admin nonce s t f in
                  let number : id ≡ get_or t.next_stream_id 0 = ground (arith, f, g) in
                  let booked : s'.streams
                      ≡ store t.streams id (record st { id = id; released_amount = pos 0 }) =
                    ground (arith, f, g) in
                  let paid : transfer st.token admin env.current_contract st.amount t.ledger
                      ≡ some s'.ledger =
                    ground (arith, f, g) in
                  let after : SameClock t s' = record {
                    paused_kept = ground (arith, f, g);
                    admin_kept = ground (arith, f, g);
                    snapshot_kept = ground (arith, f, g);
                    remap_kept = ground (arith, f, g);
                  } in
                  (
                    ground (arith, f, g),
                    number ∙ ap (λ x. get_or x.next_stream_id 0) result,
                    ap (λ x. transfer st.token admin env.current_contract st.amount x.ledger)
                          (sym result)
                        ∙ paid,
                    booked
                        ∙ ap
                            (λ x.
                              store x.streams id (record st { id = id; released_amount = pos 0 }))
                            result,
                    SameClock-trans s t s' before after,
                  )
            ]
      ]
