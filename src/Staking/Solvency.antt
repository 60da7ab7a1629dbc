-- ===== src/Staking/Solvency.antt =====
-- Every step keeps the contract solvent.
use veritasor_contracts.Prelude.{
  ℕ, ◌≤◌, ◌≡◌, ◌≢◌, refl, subst, sym, ap, ◌∙◌, true, List, [], Option, none, some, get_or, Env,
  Address, Slots, ok, store, arith, Distinct,
}
use veritasor_contracts.Prelude.Int.{
  ℤ, pos, ◌+ℤ◌, ◌-ℤ◌, pos_part, +ℤ_nonneg, -ℤ_nonneg, nonneg_of_pos,
}
use veritasor_contracts.Staking.Types.{Stake, Staking, Transfer, SlashOutcome, slashed, no_slash}
use veritasor_contracts.Staking.Entries.{
  stake, request_unstake, withdraw_unstaked, slash, new_stake,
}
use veritasor_contracts.Staking.Loops.{due}
use veritasor_contracts.Staking.Shape.{units-waiting}
use veritasor_contracts.Staking.Keep.{Holding-Owns, Holding-Owns_new}
use veritasor_contracts.Staking.Invariant.{Owns}
use veritasor_contracts.Staking.Methods.{
  queue_of, request_unstake-ok, withdraw_unstaked-ok, stake-ok,
}
use veritasor_contracts.Staking.Slashing.{
  burned, after_slash, burned_bounds, slash-slashed, slash-no_slash,
}
use veritasor_contracts.Staking.Preserve.{
  request_unstake-IsValid, stake-IsValid, withdraw_unstaked-IsValid, slash-IsValid,
}
use veritasor_contracts.Staking.Conservation.{
  amount_of, held, store_covers, IsToken, IsHost, Covers, IsSafe,
}

module _ {L : Type 0} (transfer : Transfer L) (balance : Address → Address → L → ℕ) (self : Address)
    (tok : IsToken transfer balance) where
  -- The covering at a configured token.
  covers_at :
      (s : Staking L) (t : Address)
      → IsSafe balance self s
      → s.token ≡ some t
      → (xs : List Address) → Distinct xs
      → held xs s.stakes ≤ balance t self s.ledger
  covers_at s t safe e xs d = rw e at (safe.solvent xs d)

  frame-Covers :
      (o : Option Address) (t : Address) (m : Slots Stake) (l : L)
      → o ≡ some t
      → ((xs : List Address) → Distinct xs → held xs m ≤ balance t self l)
      → (xs : List Address) → Distinct xs
      → Covers balance self o m l xs
  frame-Covers o t m l e h xs d = rw e (h xs d)

  -- A change of the locked part alone.
  same_cover :
      (o : Option Address) (m : Slots Stake) (a : Address) (st : Stake) (l : L)
      → amount_of (m a) ≡ pos_part st.amount
      → ((xs : List Address) → Distinct xs → Covers balance self o m l xs)
      → (xs : List Address) → Distinct xs
      → Covers balance self o (store m a st) l xs
  same_cover none m a st l same h xs d =
      let zero_held =
        store_covers m a st 0 0 (λ ys d'. omega (arith, h ys d')) (omega arith) xs d in
      omega (arith, zero_held)
  same_cover (some t) m a st l same h xs d =
      store_covers m a st (balance t self l) (balance t self l) h (omega arith) xs d

  signed_apart : (env : Env) (a : Address) → IsHost self env → env.authorized a ≡ true → a ≢ self
  signed_apart env a host signed e = cc

  stake_signed :
      (env : Env) (a : Address) (x : ℤ) (s s' : Staking L)
      → stake transfer env a x s ≡ ok (tt, s')
      → env.authorized a ≡ true
  unfolding stake
  stake_signed env a x s s' h = ground arith

  withdraw_signed :
      (env : Env) (a : Address) (s s' : Staking L)
      → withdraw_unstaked transfer env a s ≡ ok (tt, s')
      → env.authorized a ≡ true
  unfolding withdraw_unstaked
  withdraw_signed env a s s' h = ground arith

  pub stake-IsSafe :
      (env : Env) (a : Address) (x : ℤ) (s s' : Staking L)
      → IsHost self env
      → stake transfer env a x s ≡ ok (tt, s')
      → IsSafe balance self s
      → IsSafe balance self s'
  stake-IsSafe env a x s s' host h safe =
      let (token, ledger, f, positive, paid, fits, result) = stake-ok transfer env a x s s' h in
      let st : Stake = get_or (s.stakes a) (new_stake a) in
      let own = Holding-Owns_new a (s.stakes a) (s.pending a) (safe.valid a) in
      let (sum, sign) = +ℤ_nonneg st.amount x own.amount_nonneg (nonneg_of_pos x positive) in
      let apart = signed_apart env a host (stake_signed env a x s s' h) in
      let (debit, credit) =
        tok.moves token a self x s.ledger ledger
          (subst (λ c. transfer token a c x s.ledger ≡ some ledger) host.here paid) apart
          positive in
      let prior : amount_of (s.stakes a) ≡ pos_part st.amount = ground arith in
      record {
        valid = stake-IsValid transfer env a x s s' safe.valid h;
        treasury_apart = rw result safe.treasury_apart;
        uninitialized = rw result safe.uninitialized;
        solvent = rw result (
            frame-Covers s.token token (store s.stakes a (record st { amount = st.amount +ℤ x }))
              ledger f
              (store_covers s.stakes a (record st { amount = st.amount +ℤ x })
                (balance token self s.ledger) (balance token self ledger) (covers_at s token safe f)
                (omega arith)));
      }

  pub request_unstake-IsSafe :
      (env : Env) (a : Address) (x : ℤ) (s s' : Staking L)
      → request_unstake env a x s ≡ ok (tt, s')
      → IsSafe balance self s
      → IsSafe balance self s'
  request_unstake-IsSafe env a x s s' h safe =
      let (st, f, positive, covered, room, result) = request_unstake-ok env a x s s' h in
      let next : Stake = record st { locked = st.locked +ℤ x } in
      record {
        valid = request_unstake-IsValid env a x s s' safe.valid h;
        treasury_apart = rw result safe.treasury_apart;
        uninitialized = rw result safe.uninitialized;
        solvent = rw result (same_cover s.token s.stakes a next s.ledger (rw f) safe.solvent);
      }

  pub withdraw_unstaked-IsSafe :
      (env : Env) (a : Address) (s s' : Staking L)
      → IsHost self env
      → withdraw_unstaked transfer env a s ≡ ok (tt, s')
      → IsSafe balance self s
      → IsSafe balance self s'
  withdraw_unstaked-IsSafe env a s s' host h safe =
      let (st, q, token, ledger, f, e, g, positive, paid, result) =
        withdraw_unstaked-ok transfer env a s s' safe.valid h in
      let d : ℕ = due env.timestamp q in
      let next : Stake = record st { amount = st.amount -ℤ pos d; locked = st.locked -ℤ pos d } in
      let own : Owns st q =
        subst (λ w. Owns st (get_or w [])) e
          (Holding-Owns (s.stakes a) (s.pending a) st (safe.valid a) f) in
      let (left, sign) =
        -ℤ_nonneg st.amount (pos d) own.amount_nonneg refl
          (omega (arith, own.covered, own.balanced, units-waiting env.timestamp q)) in
      let apart = signed_apart env a host (withdraw_signed env a s s' h) in
      let (debit, credit) =
        tok.moves token self a (pos d) s.ledger ledger
          (subst (λ c. transfer token c a (pos d) s.ledger ≡ some ledger) host.here paid)
          (λ same. apart (sym same)) (omega arith) in
      let prior : amount_of (s.stakes a) ≡ pos_part st.amount = rw f in
      record {
        valid = withdraw_unstaked-IsValid transfer env a s s' safe.valid h;
        treasury_apart = rw result safe.treasury_apart;
        uninitialized = rw result safe.uninitialized;
        solvent = rw result (
            frame-Covers s.token token (store s.stakes a next) ledger g (
              store_covers s.stakes a next (balance token self s.ledger) (balance token self ledger)
                (covers_at s token safe g)
                (omega (arith, own.covered, own.balanced, units-waiting env.timestamp q))));
      }

  pub slash-IsSafe :
      (env : Env) (a : Address) (x : ℤ) (dispute : ℕ) (r : SlashOutcome) (s s' : Staking L)
      → IsHost self env
      → slash transfer env a x dispute s ≡ ok (r, s')
      → IsSafe balance self s
      → IsSafe balance self s'
  slash-IsSafe env a x dispute no_slash s s' host h safe =
      rw (slash-no_slash transfer env a x dispute s s' h).0 safe
  slash-IsSafe env a x dispute slashed s s' host h safe =
      let (st, token, treasury, ledger, f, g, k, positive, some_burned, paid, result) =
        slash-slashed transfer env a x dispute s s' safe.valid h in
      let next : Stake = after_slash x st in
      let own = Holding-Owns (s.stakes a) (s.pending a) st (safe.valid a) f in
      let (sign, le) = burned_bounds x st (queue_of a s) own positive in
      let (left, sign') = -ℤ_nonneg st.amount (burned x st) own.amount_nonneg sign le in
      let apart : self ≢ treasury = λ e. safe.treasury_apart (k ∙ ap some (sym e)) in
      let (debit, credit) =
        tok.moves token self treasury (burned x st) s.ledger ledger
          (subst (λ c. transfer token c treasury (burned x st) s.ledger ≡ some ledger) host.here
            paid)
          apart some_burned in
      let prior : amount_of (s.stakes a) ≡ pos_part st.amount = rw f in
      record {
        valid = slash-IsValid transfer env a x dispute s s' safe.valid h;
        treasury_apart = rw result safe.treasury_apart;
        uninitialized = rw result safe.uninitialized;
        solvent = rw result (
            frame-Covers s.token token (store s.stakes a next) ledger g (
              store_covers s.stakes a next (balance token self s.ledger) (balance token self ledger)
                (covers_at s token safe g) (omega arith)));
      }
