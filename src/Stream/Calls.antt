-- ===== src/Stream/Calls.antt =====
-- The calls of the stream contract.
use veritasor_contracts.Prelude.{
  ℕ, ◌+◌, Bool, true, false, not, none, some, get_or, Env, Address, Result, ok, err, pure, ensure,
  gets, modify, expect, ◌>>=◌, ◌>>◌, ⊤, store, is_some, ltb, ◌==◌,
}
use veritasor_contracts.Prelude.Int.{ℤ, pos, ◌+ℤ◌, ◌-ℤ◌, ltb_ℤ, min_ℤ, checked, u64_max}
use veritasor_contracts.Replay.{verify_and_increment_nonce, channel_admin}
use veritasor_contracts.Stream.Types.{
  VestingSchedule, lump, linear, Stream, Error, replay, unauthorized, already_initialized,
  not_initialized, not_admin, amount_not_positive, accrual_reversed, id_overflow, transfer_failed,
  stream_not_found, already_released, contract_paused, snapshot_missing, cliff_not_reached,
  nothing_to_claim, attestation_missing, attestation_revoked, arithmetic_overflow, already_paused,
  not_paused, Streams, Call, Transfer, Attestations,
}
use veritasor_contracts.Stream.Schedule.{
  is_paused, effective_vest_ledger_time, vested_by_schedule, is_fully_paid,
}

-- `accrual_start < accrual_end`, where there is an accrual.
abbrev pub is_ordered : VestingSchedule → Bool
is_ordered (lump cliff) = true
is_ordered (linear accrual_start accrual_end) = ltb accrual_start accrual_end

-- The cliff of a lump is reached.
abbrev pub past_cliff : VestingSchedule → ℕ → Bool
past_cliff (lump (some c)) t = not (ltb t c)
past_cliff _ t = true

module _ {L : Type 0} where
  abbrev pub require_auth : Env → Address → Call L ⊤
  require_auth env a = ensure (env.authorized a) unauthorized

  abbrev pub with_result : {A : Type 0} → (Streams L → Result Error A) → Call L A
  with_result f s = elim (f s) [ err e ↦ err e | ok a ↦ ok (a, s) ]

  abbrev pub use_nonce : Address → ℕ → Call L ⊤
  use_nonce actor nonce s = elim (verify_and_increment_nonce actor channel_admin nonce s.nonces) [
    | err e ↦ err (replay e)
    | ok (u, nonces) ↦ ok (tt, record s { nonces = nonces })
  ]

  unfoldable pub initialize : Env → Address → ℕ → Call L ⊤
  initialize env admin nonce = do
    require_auth env admin
    use_nonce admin nonce
    present ← gets (λ s. is_some s.admin)
    ensure (not present) already_initialized
    modify (λ s. record s { admin = some admin; next_stream_id = some 0; paused = some false })

  -- The lines that every admin call starts with.
  unfoldable pub require_admin_with_nonce : Env → Address → ℕ → Call L ⊤
  require_admin_with_nonce env admin nonce = do
    stored ← gets (λ s. s.admin)
    stored_admin ← expect stored not_initialized
    ensure (admin == stored_admin) not_admin
    require_auth env admin
    use_nonce admin nonce

  -- What can be claimed of a stream now.
  unfoldable pub claimable : Env → Stream → Call L ℤ
  claimable env stream = do
    t_upper ← with_result (effective_vest_ledger_time env)
    ensure (past_cliff stream.vesting t_upper) cliff_not_reached
    time_vested ← with_result (λ s. vested_by_schedule stream.amount stream.vesting t_upper)
    vested_rest ← expect (checked (time_vested -ℤ stream.released_amount)) arithmetic_overflow
    rest ← expect (checked (stream.amount -ℤ stream.released_amount)) arithmetic_overflow
    pure (min_ℤ vested_rest rest)

  module _ (transfer : Transfer L) where
    abbrev pub pay : Address → Address → Address → ℤ → Call L ⊤
    pay token from to amount s = elim (transfer token from to amount s.ledger) [
      | none ↦ err transfer_failed
      | some ledger ↦ ok (tt, record s { ledger = ledger })
    ]

    -- The new stream is given with any id and released amount, which the call sets.
    unfoldable pub create_stream : Env → Address → ℕ → Stream → Call L ℕ
    create_stream env admin nonce stream = do
      require_admin_with_nonce env admin nonce
      ensure (ltb_ℤ (pos 0) stream.amount) amount_not_positive
      ensure (is_ordered stream.vesting) accrual_reversed
      id ← gets (λ s. get_or s.next_stream_id 0)
      modify (λ s. record s {
        streams = store s.streams id (record stream { id = id; released_amount = pos 0 });
      })
      ensure (ltb id u64_max) id_overflow
      modify (λ s. record s { next_stream_id = some (id + 1) })
      pay stream.token admin env.current_contract stream.amount
      pure id

    unfoldable pub release : Attestations → Env → ℕ → Call L ⊤
    release attestations env stream_id = do
      found ← gets (λ s. s.streams stream_id)
      stream ← expect found stream_not_found
      ensure (not (is_fully_paid stream)) already_released
      stopped ← gets is_paused
      ensure (not stopped) contract_paused
      pay_cap ← claimable env stream
      ensure (ltb_ℤ (pos 0) pay_cap) nothing_to_claim
      ensure
          (attestations.has_attestation stream.attestation_contract stream.business stream.period)
          attestation_missing
      ensure
          (not (attestations.is_revoked stream.attestation_contract stream.business stream.period))
          attestation_revoked
      released ← expect (checked (stream.released_amount +ℤ pay_cap)) arithmetic_overflow
      modify (λ s. record s {
        streams = store s.streams stream_id (record stream { released_amount = released });
      })
      pay stream.token env.current_contract stream.beneficiary pay_cap

  unfoldable pub pause : Env → Address → ℕ → Call L ⊤
  pause env admin nonce = do
    require_admin_with_nonce env admin nonce
    stopped ← gets is_paused
    ensure (not stopped) already_paused
    snapshot ← with_result (effective_vest_ledger_time env)
    modify (λ s. record s { pause_snapshot = some snapshot; paused = some true })

  unfoldable pub resume : Env → Address → ℕ → Call L ⊤
  resume env admin nonce = do
    require_admin_with_nonce env admin nonce
    stopped ← gets is_paused
    ensure stopped not_paused
    stored ← gets (λ s. s.pause_snapshot)
    t_snap ← expect stored snapshot_missing
    modify (λ s. record s {
      vest_time_remap = some (record { t_eff0 = t_snap; at_ledger = env.timestamp });
      paused = some false;
      pause_snapshot = none;
    })

  unfoldable pub get_vested_by_schedule : Env → ℕ → Streams L → Result Error ℤ
  get_vested_by_schedule env stream_id s = elim (s.streams stream_id) [
    | none ↦ err stream_not_found
    | some stream ↦ elim (effective_vest_ledger_time env s) [
      | err e ↦ err e
      | ok t ↦ vested_by_schedule stream.amount stream.vesting t
    ]
  ]
