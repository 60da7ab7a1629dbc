-- ===== src/Stream/Histories.antt =====
-- Histories of the stream contract: calls, each at a ledger time, with waiting between them.
use veritasor_contracts.Prelude.{ℕ, ◌+◌, ◌≤◌, ◌≡◌, refl, none, Env, Address, ok}
use veritasor_contracts.Prelude.Int.{u64_max}
use veritasor_contracts.Stream.Types.{Stream, Streams, Transfer, Attestations}
use veritasor_contracts.Stream.Schedule.{is_paused, effective_vest_ledger_time}
use veritasor_contracts.Stream.Calls.{initialize, create_stream, release, pause, resume}
use veritasor_contracts.Stream.Clock.{
  IsClock, plain, waited, wait-IsClock, SameClock-IsClock, effective_lem, pause-IsClock,
  resume-IsClock, initialize-IsClock,
}
use veritasor_contracts.Stream.Release.{release-SameClock, create_stream-ok}

module _ {L : Type 0} where
  -- A contract before its first call.
  abbrev pub deployed : L → Streams L
  deployed l = record {
    admin = none;
    next_stream_id = none;
    streams = λ id. none;
    paused = none;
    pause_snapshot = none;
    vest_time_remap = none;
    nonces = λ a c. none;
    ledger = l;
  }

  module _ (transfer : Transfer L) (l : L) where
    -- From its deployment the contract has come to the storage `s` at the ledger time `now`, and `eff`
    -- is the time of deployment with all the waiting since then that was not spent paused.
    pub data History : ℕ → ℕ → Streams L → Type 0 where
      start : (now : ℕ) → now ≤ u64_max → History now now (deployed l)
      wait :
          {now eff : ℕ} {s : Streams L} (d : ℕ)
          → History now eff s
          → now + d ≤ u64_max
          → History (now + d) (eff + waited (is_paused s) d) s
      initializing :
          {eff : ℕ} {s s' : Streams L} (env : Env) (admin : Address) (nonce : ℕ)
          → History env.timestamp eff s
          → initialize env admin nonce s ≡ ok (tt, s')
          → History env.timestamp eff s'
      creating :
          {eff : ℕ} {s s' : Streams L} (env : Env) (admin : Address) (nonce : ℕ) (stream : Stream)
          (id : ℕ)
          → History env.timestamp eff s
          → create_stream transfer env admin nonce stream s ≡ ok (id, s')
          → History env.timestamp eff s'
      releasing :
          {eff : ℕ} {s s' : Streams L} (attestations : Attestations) (env : Env) (id : ℕ)
          → History env.timestamp eff s
          → release transfer attestations env id s ≡ ok (tt, s')
          → History env.timestamp eff s'
      pausing :
          {eff : ℕ} {s s' : Streams L} (env : Env) (admin : Address) (nonce : ℕ)
          → History env.timestamp eff s
          → pause env admin nonce s ≡ ok (tt, s')
          → History env.timestamp eff s'
      resuming :
          {eff : ℕ} {s s' : Streams L} (env : Env) (admin : Address) (nonce : ℕ)
          → History env.timestamp eff s
          → resume env admin nonce s ≡ ok (tt, s')
          → History env.timestamp eff s'

module _ {L : Type 0} (transfer : Transfer L) (l : L) where
  pub History-le : (now eff : ℕ) (s : Streams L) → History transfer l now eff s → now ≤ u64_max
  History-le now eff s (start n small) = small
  History-le now eff s (wait d past small) = small
  History-le now eff s (initializing env admin nonce past h) = History-le env.timestamp eff _ past
  History-le now eff s (creating env admin nonce stream id past h) =
      History-le env.timestamp eff _ past
  History-le now eff s (releasing attestations env id past h) = History-le env.timestamp eff _ past
  History-le now eff s (pausing env admin nonce past h) = History-le env.timestamp eff _ past
  History-le now eff s (resuming env admin nonce past h) = History-le env.timestamp eff _ past

  History-IsClock : (now eff : ℕ) (s : Streams L) → History transfer l now eff s → IsClock now eff s
  unfolding is_paused
  History-IsClock now eff s (start n small) = plain refl refl refl
  History-IsClock now eff s (wait {now = n} {eff = e} d past small) =
      wait-IsClock n d e s (History-IsClock n e s past)
  History-IsClock now eff s (initializing {eff = e} {s = t} env admin nonce past h) =
      initialize-IsClock env admin nonce e t s h (History-IsClock env.timestamp e t past)
  History-IsClock now eff s (creating {eff = e} {s = t} env admin nonce stream id past h) =
      let effects = create_stream-ok transfer env admin nonce stream id t s h in
      let (positive, number, paid, booked, clock) = effects in
      SameClock-IsClock env.timestamp e t s clock (History-IsClock env.timestamp e t past)
  History-IsClock now eff s (releasing {eff = e} {s = t} attestations env id past h) =
      SameClock-IsClock env.timestamp e t s (release-SameClock transfer attestations env id t s h)
        (History-IsClock env.timestamp e t past)
  History-IsClock now eff s (pausing {eff = e} {s = t} env admin nonce past h) =
      pause-IsClock env admin nonce e t s h (History-le env.timestamp e t past)
        (History-IsClock env.timestamp e t past)
  History-IsClock now eff s (resuming {eff = e} {s = t} env admin nonce past h) =
      resume-IsClock env admin nonce e t s h (History-IsClock env.timestamp e t past)

  -- At every moment of every history the code's schedule time is the time of deployment with all the
  -- waiting since then that was not spent paused.
  pub effective_vest_ledger_time_refines :
      (env : Env) (eff : ℕ) (s : Streams L)
      → History transfer l env.timestamp eff s
      → effective_vest_ledger_time env s ≡ ok eff
  effective_vest_ledger_time_refines env eff s past =
      effective_lem env eff s (History-IsClock env.timestamp eff s past)
        (History-le env.timestamp eff s past)
