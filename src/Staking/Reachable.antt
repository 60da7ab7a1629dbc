-- ===== src/Staking/Reachable.antt =====
-- Every storage that the contract can reach is valid and solvent.
use veritasor_contracts.Prelude.{
  ℕ, ◌≤◌, ◌≡◌, refl, sym, ◌∙◌, List, [], ◌∷◌, Option, none, some, Env, Address, Slots, ok, arith,
  Distinct, some_injective,
}
use veritasor_contracts.Prelude.Int.{ℤ}
use veritasor_contracts.Staking.Types.{Stake, Staking, Transfer}
use veritasor_contracts.Staking.Entries.{initialize}
use veritasor_contracts.Staking.Config.{
  initialize_iff, set_min_stake_iff, set_dispute_contract-ok, set_unbonding_period_iff,
}
use veritasor_contracts.Staking.Conservation.{
  held, IsToken, IsHost, Covers, IsSafe, Step, Reach, start, then_step, initializing, staking,
  requesting, withdrawing, slashing, setting_min_stake, setting_dispute, setting_unbonding, outside,
}
use veritasor_contracts.Staking.Solvency.{
  stake-IsSafe, request_unstake-IsSafe, withdraw_unstaked-IsSafe, slash-IsSafe,
}

-- The storage of a contract that was just deployed.
abbrev pub deployed : {L : Type 0} → L → Staking L
deployed ledger = record {
  admin = none;
  token = none;
  treasury = none;
  min_stake = none;
  dispute_contract = none;
  unbonding_period = none;
  stakes = λ a. none;
  pending = λ a. none;
  slashes = λ d. none;
  ledger = ledger;
}

held_nobody : (xs : List Address) → held xs (λ a. none) ≡ 0
held_nobody [] = refl
held_nobody (a ∷ xs) = omega (arith, held_nobody xs)

module _ {L : Type 0} (balance : Address → Address → L → ℕ) (self : Address) where
  -- A step that leaves the stakes, the queues, the ledger and the addresses alone.
  frame-IsSafe :
      (s : Staking L) (m : Option ℤ) (d : Option Address) (u : Option ℕ)
      → IsSafe balance self s
      → IsSafe balance self (record s { min_stake = m; dispute_contract = d; unbonding_period = u })
  frame-IsSafe s m d u safe = record {
    valid = safe.valid;
    treasury_apart = safe.treasury_apart;
    uninitialized = safe.uninitialized;
    solvent = safe.solvent;
  }

  outside-Covers :
      (o : Option Address) (m : Slots Stake) (l l' : L) (xs : List Address)
      → ((t : Address) → balance t self l ≤ balance t self l')
      → Covers balance self o m l xs
      → Covers balance self o m l' xs
  outside-Covers none m l l' xs more h = h
  outside-Covers (some t) m l l' xs more h = omega (arith, more t)

  outside-IsSafe :
      (s : Staking L) (ledger : L)
      → ((t : Address) → balance t self s.ledger ≤ balance t self ledger)
      → IsSafe balance self s
      → IsSafe balance self (record s { ledger = ledger })
  outside-IsSafe s ledger more safe = record {
    valid = safe.valid;
    treasury_apart = safe.treasury_apart;
    uninitialized = safe.uninitialized;
    solvent = λ xs d. outside-Covers s.token s.stakes s.ledger ledger xs more (safe.solvent xs d);
  }

  initialize-IsSafe :
      (env : Env) (admin token treasury : Address) (min_stake : ℤ) (dispute : Address)
      (unbonding : ℕ) (s s' : Staking L)
      → IsHost self env
      → initialize env admin token treasury min_stake dispute unbonding s ≡ ok (tt, s')
      → IsSafe balance self s
      → IsSafe balance self s'
  initialize-IsSafe env admin token treasury min_stake dispute unbonding s s' host h safe =
      let (fresh, setup, result) =
        (initialize_iff env admin token treasury min_stake dispute unbonding s s').0 h in
      let nothing : (xs : List Address) → Distinct xs → held xs s.stakes ≡ 0 =
        λ xs d. rw (safe.uninitialized fresh) at (safe.solvent xs d) in
      rw result (record {
        valid = safe.valid;
        treasury_apart = λ e. setup.treasury_apart (some_injective treasury self e ∙ sym host.here);
        uninitialized = λ e. cc;
        solvent = λ xs d. omega (arith, nothing xs d);
      })

module _ {L : Type 0} (transfer : Transfer L) (balance : Address → Address → L → ℕ) (self : Address)
    (tok : IsToken transfer balance) where
  pub Step-IsSafe :
      {s s' : Staking L}
      → Step transfer balance self s s'
      → IsSafe balance self s
      → IsSafe balance self s'
  Step-IsSafe {s} {s'} (initializing env admin token treasury m d u host h) safe =
      initialize-IsSafe balance self env admin token treasury m d u s s' host h safe
  Step-IsSafe {s} {s'} (staking env a x host h) safe =
      stake-IsSafe transfer balance self tok env a x s s' host h safe
  Step-IsSafe {s} {s'} (requesting env a x host h) safe =
      request_unstake-IsSafe transfer balance self tok env a x s s' h safe
  Step-IsSafe {s} {s'} (withdrawing env a host h) safe =
      withdraw_unstaked-IsSafe transfer balance self tok env a s s' host h safe
  Step-IsSafe {s} {s'} (slashing env a x d r host h) safe =
      slash-IsSafe transfer balance self tok env a x d r s s' host h safe
  Step-IsSafe {s} {s'} (setting_min_stake env x host h) safe =
      let (admin, e, signed, positive, result) = (set_min_stake_iff env x s s').0 h in
      rw result (frame-IsSafe balance self s (some x) s.dispute_contract s.unbonding_period safe)
  Step-IsSafe {s} {s'} (setting_dispute env d host h) safe =
      let (admin, e, signed, result) = set_dispute_contract-ok env d s s' h in
      rw result (frame-IsSafe balance self s s.min_stake (some d) s.unbonding_period safe)
  Step-IsSafe {s} {s'} (setting_unbonding env u host h) safe =
      let (admin, e, signed, result) = (set_unbonding_period_iff env u s s').0 h in
      rw result (frame-IsSafe balance self s s.min_stake s.dispute_contract (some u) safe)
  Step-IsSafe {s} {s'} (outside ledger more e) safe =
      rw e (outside-IsSafe balance self s ledger more safe)

  Reach-IsSafe :
      {s s' : Staking L}
      → IsSafe balance self s
      → Reach transfer balance self s s'
      → IsSafe balance self s'
  Reach-IsSafe safe start = safe
  Reach-IsSafe safe (then_step r st) = Step-IsSafe st (Reach-IsSafe safe r)

  -- From deployment on, over every history of returning calls and of outside transfers that do
  -- not debit the contract: each stake covers its locked part, which is the sum of its queue, and
  -- the contract's balance of its token covers the stakes of any attestors in all.
  pub reachable-IsSafe :
      (ledger : L) (s : Staking L)
      → Reach transfer balance self (deployed ledger) s
      → IsSafe balance self s
  reachable-IsSafe ledger s r =
      Reach-IsSafe
        (record {
          valid = λ a. tt;
          treasury_apart = λ e. cc;
          uninitialized = λ e. refl;
          solvent = λ xs d. held_nobody xs;
        })
        r
