-- ===== src/Staking/Examples.antt =====
-- The theorems of this component at concrete inputs, and runs of its code.
use veritasor_contracts.Prelude.{
  ℕ, suc, ◌+◌, ◌-◌, ◌%◌, ◌^◌, ◌≡◌, ◌≢◌, refl, List, [], ◌∷◌, none, some, Env, Address, Result, ok,
  ⊤, arith, settle, leb, ◌==◌, if◌then◌else◌, ap, get_or, not, zero, inl, inr, Result-cases,
}
use veritasor_contracts.Prelude.Int.{pos, ◌+ℤ◌, ◌-ℤ◌, pos_part, ltb_ℤ}
use veritasor_contracts.Staking.Types.{
  PendingUnstake, Stake, Staking, Transfer, Error, slashed, no_slash, SlashOutcome,
}
use veritasor_contracts.Staking.Queue.{split_queue, sum_queue, cut_queue, unlock_time}
use veritasor_contracts.Staking.Entries.{
  set_unbonding_period, initialize, stake, request_unstake, withdraw_unstaked, slash,
  get_reputation,
}
use veritasor_contracts.Staking.Config.{IsSetup, configured}
use veritasor_contracts.Staking.Conservation.{
  IsToken, IsHost, IsSafe, Reach, start, then_step, initializing, staking, requesting, slashing,
}
use veritasor_contracts.Staking.Reachable.{deployed, reachable-IsSafe}
use veritasor_contracts.Staking.Methods.{withdrawn, withdraw_unstaked-returns}
use veritasor_contracts.Staking.Slashing.{slash_twice}
use veritasor_contracts.Staking.Reputation.{get_reputation_lem}
use veritasor_contracts.Staking.Stuck.{IsStuck, stuck_forever}

program : Unit {0}
unfolding initialize stake request_unstake withdraw_unstaked slash split_queue sum_queue cut_queue
    unlock_time ◌+ℤ◌ ◌-ℤ◌
program = tt

-- One token, by its balances.
abbrev Balances : Type 0
Balances = Address → ℕ

pay : Transfer Balances
pay token from to x l =
    if ltb_ℤ (pos 0) x
    then (if leb (pos_part x) (l from)
        then some (λ a.
          if a == from
          then (if from == to then l from else l from - pos_part x)
          else (if a == to then l to + pos_part x else l a))
        else none)
    else none

abbrev balance : Address → Address → Balances → ℕ
balance token a l = l a

pay-IsToken : IsToken pay balance
unfolding pay
pay-IsToken = record {
  moves = λ t from to x l l' h ne positive.
      (ground (arith, ap (λ o. get_or o l from) h), ground (arith, ap (λ o. get_or o l to) h));
}

-- 1 is the admin, 2 the token, 3 the treasury, 4 the dispute contract, 5 an attestor, 9 the contract.
abbrev at : ℕ → Env
at t = record { timestamp = t; sequence = 0; authorized = λ a. not (a == 9); current_contract = 9 }

at-IsHost : (t : ℕ) → IsHost 9 (at t)
at-IsHost t = record { here = refl; unsigned = refl }

abbrev s0 : Staking Balances
s0 = deployed (λ a. if a == 5 then 1000 else 0)

abbrev s1 : Staking Balances
s1 = configured 1 2 3 (pos 10) 4 100 s0

setup : IsSetup (at 0) 1 2 3 (pos 10) 4 100
setup = ground arith

initialized : initialize (at 0) 1 2 3 (pos 10) 4 100 s0 ≡ ok (tt, s1)
unfolding program
initialized = refl

-- A period of more than three years is stored.
long_period :
    set_unbonding_period (at 0) 99999999 s1
    ≡ ok (tt, record s1 { unbonding_period = some 99999999 })
unfolding set_unbonding_period
long_period = refl

abbrev staked_50 : Staking Balances → Result Error (⊤ × Staking Balances)
staked_50 s = stake pay (at 10) 5 (pos 50) s

s2 : Staking Balances
s2 = settle s1 (staked_50 s1)

abbrev requested_20 : Result Error (⊤ × Staking Balances)
requested_20 = request_unstake (at 1000) 5 (pos 20) s2

s3 : Staking Balances
s3 = settle s2 requested_20

abbrev slashed_40 : Result Error (SlashOutcome × Staking Balances)
slashed_40 = slash pay (at 1050) 5 (pos 40) 77 s3

s4 : Staking Balances
s4 = settle s3 slashed_40

-- The slash leaves 10 staked, all of it locked, and the request lowered to 10.
s4_stake :
    (s4.stakes 5 ≡ some (record { attestor = 5; amount = pos 10; locked = pos 10 }))
    × (s4.pending 5 ≡ some (record { amount = pos 10; unlock_timestamp = 1100 } ∷ []))
    × (s4.ledger 9 ≡ 10)
    × (s4.ledger 3 ≡ 40)
unfolding program s4 s3 s2 pay
s4_stake = (refl, refl, refl, refl)

did_stake : staked_50 s1 ≡ ok (tt, s2)
unfolding program pay s2
did_stake = refl

did_request : requested_20 ≡ ok (tt, s3)
unfolding program pay s3 s2
did_request = refl

did_slash : slashed_40 ≡ ok (slashed, s4)
unfolding program pay s4 s3 s2
did_slash = refl

reach2 : Reach pay balance 9 s0 s2
reach2 =
    then_step (then_step start (initializing (at 0) 1 2 3 (pos 10) 4 100 (at-IsHost 0) initialized))
      (staking (at 10) 5 (pos 50) (at-IsHost 10) did_stake)

reach3 : Reach pay balance 9 s0 s3
reach3 = then_step reach2 (requesting (at 1000) 5 (pos 20) (at-IsHost 1000) did_request)

reach4 : Reach pay balance 9 s0 s4
reach4 = then_step reach3 (slashing (at 1050) 5 (pos 40) 77 slashed (at-IsHost 1050) did_slash)

run-IsSafe : (s : Staking Balances) → Reach pay balance 9 s0 s → IsSafe balance 9 s
run-IsSafe s r = reachable-IsSafe pay balance 9 pay-IsToken (λ a. if a == 5 then 1000 else 0) s r

s2-IsSafe : IsSafe balance 9 s2
s2-IsSafe = run-IsSafe s2 reach2

s3-IsSafe : IsSafe balance 9 s3
s3-IsSafe = run-IsSafe s3 reach3

reachable-IsSafe_example : IsSafe balance 9 s4
reachable-IsSafe_example =
    reachable-IsSafe pay balance 9 pay-IsToken (λ a. if a == 5 then 1000 else 0) s4 reach4

abbrev paid_out : Balances
paid_out = get_or (pay 2 9 5 (pos 10) s4.ledger) s4.ledger

abbrev last_stake : Stake
last_stake = record { attestor = 5; amount = pos 10; locked = pos 10 }

abbrev last_queue : List PendingUnstake
last_queue = record { amount = pos 10; unlock_timestamp = 1100 } ∷ []

withdraw_unstaked-returns_example :
    withdraw_unstaked pay (at 1100) 5 s4
    ≡ ok (tt, withdrawn (at 1100) 5 last_stake last_queue paid_out s4)
unfolding program s4 s3 s2 pay
withdraw_unstaked-returns_example =
    withdraw_unstaked-returns pay (at 1100) 5 s4 last_stake last_queue 2 paid_out
      reachable-IsSafe_example.valid refl s4_stake.0 s4_stake.1 refl (omega arith) refl

slash_twice_example : slash pay (at 1060) 6 (pos 3) 77 s4 ≢ ok (no_slash, s4)
slash_twice_example =
    slash_twice pay (at 1050) (at 1060) 5 6 (pos 40) (pos 3) 77 s3 s4 s3-IsSafe.valid did_slash
      no_slash s4

get_reputation_lem_example : get_reputation 5 s2 ≡ (50 - 0) % 2 ^ 64
unfolding program s2 pay
get_reputation_lem_example =
    get_reputation_lem 5 s2 (record { attestor = 5; amount = pos 50; locked = pos 0 })
      s2-IsSafe.valid refl

-- Ten requests of 1, all lowered to nothing by a slash of 10, and a new stake of 500.
ten : ℕ → Staking Balances → Staking Balances
ten zero s = s
ten (suc n) s = ten n (settle s (request_unstake (at 1000) 5 (pos 1) s))

t2 : Staking Balances
t2 = settle s1 (stake pay (at 10) 5 (pos 10) s1)

t12 : Staking Balances
t12 = ten 10 t2

t13 : Staking Balances
t13 = settle t12 (slash pay (at 1050) 5 (pos 10) 1 t12)

requests :
    (n : ℕ) (s : Staking Balances) → Reach pay balance 9 s0 s → Reach pay balance 9 s0 (ten n s)
unfolding ten
requests zero s r = r
requests (suc n) s r = requests n (settle s (request_unstake (at 1000) 5 (pos 1) s)) (requested s r)
  where
    requested :
        (s : Staking Balances)
        → Reach pay balance 9 s0 s
        → Reach pay balance 9 s0 (settle s (request_unstake (at 1000) 5 (pos 1) s))
    requested s r = elim (Result-cases (request_unstake (at 1000) 5 (pos 1) s)) [
      | inl ((tt, s'), e) ↦ rw e (then_step r (requesting (at 1000) 5 (pos 1) (at-IsHost 1000) e))
      | inr (x, e) ↦ rw e r
    ]

t2_staked : stake pay (at 10) 5 (pos 10) s1 ≡ ok (tt, t2)
unfolding program pay t2
t2_staked = refl

t13_slashed : slash pay (at 1050) 5 (pos 10) 1 t12 ≡ ok (slashed, t13)
unfolding program pay t13 t12 ten t2
t13_slashed = refl

t13-IsSafe : IsSafe balance 9 t13
unfolding t12
t13-IsSafe = run-IsSafe t13 (
    then_step
      (requests 10 t2 (
        then_step
          (then_step start (initializing (at 0) 1 2 3 (pos 10) 4 100 (at-IsHost 0) initialized))
          (staking (at 10) 5 (pos 10) (at-IsHost 10) t2_staked)))
      (slashing (at 1050) 5 (pos 10) 1 slashed (at-IsHost 1050) t13_slashed))

abbrev zeros : List PendingUnstake
zeros = get_or (t13.pending 5) []

t13-IsStuck : IsStuck 5 zeros t13
unfolding program pay t13 t12 ten t2
t13-IsStuck = record { queued = refl; full = omega arith; empty = refl }

abbrev t14 : Staking Balances
t14 = settle t13 (stake pay (at 2000) 5 (pos 500) t13)

t14_staked : stake pay (at 2000) 5 (pos 500) t13 ≡ ok (tt, t14)
unfolding program pay t13 t12 ten t2
t14_staked = refl

t14_step : Reach pay balance 9 t13 t14
t14_step = then_step start (staking (at 2000) 5 (pos 500) (at-IsHost 2000) t14_staked)

stuck_forever_example :
    (request_unstake (at 9000) 5 (pos 500) t14 ≢ ok (tt, t14))
    × (withdraw_unstaked pay (at 9000) 5 t14 ≢ ok (tt, t14))
stuck_forever_example =
    stuck_forever pay balance 9 pay-IsToken 5 zeros t13 t14 t13-IsSafe t13-IsStuck t14_step
      (at 9000) (pos 500) t14
