-- ===== src/Stream/Examples.antt =====
-- A run of the stream contract with a pause in the middle of an accrual, and the theorems at its states.
use veritasor_contracts.Prelude.{
  ℕ, ◌+◌, ◌-◌, ◌≤◌, ◌<◌, ◌≡◌, refl, true, false, none, some, Env, ok, err, settle, arith, leb,
  if◌then◌else◌, ◌==◌,
}
use veritasor_contracts.Prelude.Int.{pos, pos_part, ◌*ℤ◌, ◌+ℤ◌, ◌-ℤ◌, div_ℤ}
use veritasor_contracts.Replay.{verify_and_increment_nonce}
use veritasor_contracts.Stream.Types.{
  linear, Stream, Streams, Transfer, Attestations, contract_paused,
}
use veritasor_contracts.Stream.Schedule.{
  is_paused, effective_vest_ledger_time, accrued, vested_in, vested_by_schedule, is_fully_paid,
}
use veritasor_contracts.Stream.Calls.{
  initialize, require_admin_with_nonce, claimable, create_stream, release, pause, resume,
  get_vested_by_schedule,
}
use veritasor_contracts.Stream.Vesting.{vested}
use veritasor_contracts.Stream.Clock.{waited}
use veritasor_contracts.Stream.Histories.{
  deployed, History, start, wait, initializing, creating, pausing, resuming, releasing,
  effective_vest_ledger_time_refines,
}
use veritasor_contracts.Stream.Within.{released_within_vested, release_pays_vested, release_returns}

-- The tokens' ledger is the balance of the contract 99.
abbrev bank : Transfer ℕ
bank token from to amount held =
    if to == 99
    then some (held + pos_part amount)
    else if leb (pos_part amount) held
    then some (held - pos_part amount)
    else none

abbrev attested : Attestations
attested = record { has_attestation = λ a b p. true; is_revoked = λ a b p. false }

abbrev at : ℕ → Env
at n = record { timestamp = n; sequence = 0; authorized = λ a. true; current_contract = 99 }

program : Unit {0}
unfolding initialize require_admin_with_nonce claimable create_stream release pause resume is_paused
    effective_vest_ledger_time accrued vested_in vested_by_schedule is_fully_paid
    verify_and_increment_nonce vested waited get_vested_by_schedule ◌*ℤ◌ ◌+ℤ◌ ◌-ℤ◌ div_ℤ
program = tt

abbrev asked : Stream
asked = record {
  id = 0;
  attestation_contract = 20;
  business = 3;
  period = 202401;
  beneficiary = 5;
  token = 60;
  amount = pos 1000;
  vesting = linear 100 200;
  released_amount = pos 0;
}

abbrev s1 : Streams ℕ
s1 = settle (deployed 0) (initialize (at 100) 1 0 (deployed 0))

abbrev s2 : Streams ℕ
s2 = settle s1 (create_stream bank (at 100) 1 1 asked s1)

abbrev s3 : Streams ℕ
s3 = settle s2 (pause (at 130) 1 2 s2)

abbrev s4 : Streams ℕ
s4 = settle s3 (resume (at 180) 1 3 s3)

abbrev s5 : Streams ℕ
s5 = settle s4 (release bank attested (at 200) 0 s4)

h1 : History bank 0 100 100 s1
unfolding program
h1 = initializing (at 100) 1 0 (start 100 (omega arith)) refl

h2 : History bank 0 100 100 s2
unfolding program
h2 = creating (at 100) 1 1 asked 0 h1 refl

h3 : History bank 0 130 130 s3
unfolding program
h3 = pausing (at 130) 1 2 (wait 30 h2 (omega arith)) refl

h4 : History bank 0 180 130 s4
unfolding program
h4 = resuming (at 180) 1 3 (wait 50 h3 (omega arith)) refl

h4_later : History bank 0 200 150 s4
unfolding program
h4_later = wait 20 h4 (omega arith)

h5 : History bank 0 200 150 s5
unfolding program
h5 = releasing attested (at 200) 0 h4_later refl

-- Half of the accrual has passed at the ledger's end of it, for the pause took 50 seconds.
half_paid : (s5.ledger ≡ 500) × (get_vested_by_schedule (at 200) 0 s5 ≡ ok (pos 500))
unfolding program
half_paid = (refl, refl)

refused_while_paused : release bank attested (at 150) 0 s3 ≡ err contract_paused
unfolding program
refused_while_paused = refl

effective_vest_ledger_time_refines_example : effective_vest_ledger_time (at 200) s4 ≡ ok 150
effective_vest_ledger_time_refines_example =
    effective_vest_ledger_time_refines bank 0 (at 200) 150 s4 h4_later

released_within_vested_example :
    (a : ℕ) × (r : ℕ) × (pos 1000 ≡ pos a)
    × (pos 500 ≡ pos r)
    × (r ≤ vested a (linear 100 200) 150)
    × (vested a (linear 100 200) 150 ≤ a)
unfolding program
released_within_vested_example =
    released_within_vested bank 0 200 150 0 (record asked { released_amount = pos 500 }) s5 h5 refl

release_pays_vested_example :
    (a : ℕ) × (r : ℕ) × (pos 1000 ≡ pos a)
    × (pos 0 ≡ pos r)
    × (r < vested a (linear 100 200) 150)
    × (is_paused s4 ≡ false)
    × (true ≡ true)
    × (false ≡ false)
    × (bank 60 99 5 (pos (vested a (linear 100 200) 150 - r)) 1000 ≡ some 500)
    × (s5.streams 0 ≡ some (record asked { released_amount = pos (vested a (linear 100 200) 150) }))
unfolding program
release_pays_vested_example =
    release_pays_vested bank 0 attested (at 200) 150 0 asked s4 s5 h4_later refl refl

release_returns_example : (s' : Streams ℕ) × (release bank attested (at 200) 0 s4 ≡ ok (tt, s'))
unfolding program
release_returns_example =
    release_returns bank 0 attested (at 200) 150 0 1000 0 asked s4 500 h4_later refl refl refl
      (omega arith) (omega arith) (omega arith) refl refl refl refl
