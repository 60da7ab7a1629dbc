-- ===== src/Staking/Methods.antt =====
-- What the entry points that move stakes do when they return, and that they keep the invariant.
use veritasor_contracts.Prelude.{
  ℕ, ◌+◌, ◌<◌, ◌≡◌, refl, true, List, [], ◌∷◌, ◌++◌, some, get_or, Env, Address, ok, store, arith,
  length, min, Option-cases, inl, inr,
}
use veritasor_contracts.Prelude.Int.{
  ℤ, pos, ◌+ℤ◌, ◌-ℤ◌, ◌≤ℤ◌, ◌<ℤ◌, pos_part, i128_mod, u64_max, -ℤ_nonneg,
}
use veritasor_contracts.Staking.Types.{PendingUnstake, Stake, Staking, Transfer}
use veritasor_contracts.Staking.Queue.{unlock_time}
use veritasor_contracts.Staking.Entries.{
  stake, request_unstake, withdraw_unstaked, new_stake, put_queue,
}
use veritasor_contracts.Staking.Loops.{due, waiting, split_queue_start}
use veritasor_contracts.Staking.Shape.{units-waiting}
use veritasor_contracts.Staking.Keep.{Holding-Owns}
use veritasor_contracts.Staking.Invariant.{Owns, IsValid}

module _ {L : Type 0} where
  abbrev pub queue_of : Address → Staking L → List PendingUnstake
  queue_of a s = get_or (s.pending a) []

  abbrev pub new_entry : Env → ℤ → Staking L → List PendingUnstake → PendingUnstake
  new_entry env x s q = record {
    amount = x;
    unlock_timestamp = unlock_time (min (env.timestamp + get_or s.unbonding_period 0) u64_max) q;
  }

  abbrev pub requested : Env → Address → ℤ → Stake → Staking L → Staking L
  requested env a x st s = record s {
    stakes = store s.stakes a (record st { locked = st.locked +ℤ x });
    pending = store s.pending a (queue_of a s ++ new_entry env x s (queue_of a s) ∷ []);
  }

  pub request_unstake-ok :
      (env : Env) (a : Address) (x : ℤ) (s s' : Staking L)
      → request_unstake env a x s ≡ ok (tt, s')
      → (st : Stake) × (s.stakes a ≡ some st)
        × (pos 0 <ℤ x)
        × (x ≤ℤ st.amount -ℤ st.locked)
        × (length (queue_of a s) < 10)
        × (s' ≡ requested env a x st s)
  unfolding request_unstake
  request_unstake-ok env a x s s' h = elim (Option-cases (s.stakes a)) [
    | inl absent ↦ absurd (ground arith)
    | inr (st, e) ↦ (st, e, ground arith, ground arith, ground arith, ground arith)
  ]

  abbrev pub withdrawn : Env → Address → Stake → List PendingUnstake → L → Staking L → Staking L
  withdrawn env a st q ledger s =
      let paid = pos (due env.timestamp q) in
      record s {
        stakes =
            store s.stakes a (record st { amount = st.amount -ℤ paid; locked = st.locked -ℤ paid });
        pending = put_queue s.pending a (waiting env.timestamp q);
        ledger = ledger;
      }

  module _ (transfer : Transfer L) where
    abbrev pub staked : Address → ℤ → L → Staking L → Staking L
    staked a x ledger s =
        let st = get_or (s.stakes a) (new_stake a) in
        record s {
          stakes = store s.stakes a (record st { amount = st.amount +ℤ x });
          ledger = ledger;
        }

    pub stake-ok :
        (env : Env) (a : Address) (x : ℤ) (s s' : Staking L)
        → stake transfer env a x s ≡ ok (tt, s')
        → (token : Address) × (ledger : L) × (s.token ≡ some token)
          × (pos 0 <ℤ x)
          × (transfer token a env.current_contract x s.ledger ≡ some ledger)
          × (pos_part ((get_or (s.stakes a) (new_stake a)).amount +ℤ x) < i128_mod)
          × (s' ≡ staked a x ledger s)
    unfolding stake
    stake-ok env a x s s' h = elim (Option-cases s.token) [
      | inl absent ↦ absurd (ground arith)
      | inr (token, e) ↦ elim (Option-cases (transfer token a env.current_contract x s.ledger)) [
        | inl failed ↦ absurd (ground arith)
        | inr (ledger, f) ↦ (token, ledger, e, ground arith, f, ground arith, ground arith)
      ]
    ]

    pub withdraw_unstaked-ok :
        (env : Env) (a : Address) (s s' : Staking L)
        → IsValid s
        → withdraw_unstaked transfer env a s ≡ ok (tt, s')
        → (st : Stake) × (q : List PendingUnstake) × (token : Address) × (ledger : L) × (s.stakes a
            ≡ some st)
          × (s.pending a ≡ some q)
          × (s.token ≡ some token)
          × (0 < due env.timestamp q)
          × (transfer token env.current_contract a (pos (due env.timestamp q)) s.ledger
              ≡ some ledger)
          × (s' ≡ withdrawn env a st q ledger s)
    unfolding withdraw_unstaked
    withdraw_unstaked-ok env a s s' v h = elim (Option-cases (s.pending a)) [
      | inl absent ↦ absurd (ground arith)
      | inr (q, e) ↦ elim (Option-cases (s.stakes a)) [
        | inl absent ↦ absurd (ground (arith, v a))
        | inr (st, f) ↦
            let own : Owns st q = rw e at (Holding-Owns (s.stakes a) (s.pending a) st (v a) f) in
            let split = split_queue_start env.timestamp q own.plain (omega (arith, own.balanced)) in
            elim (Option-cases s.token) [
              | inl absent ↦ absurd (ground arith)
              | inr (token, g) ↦
                  elim (Option-cases
                    (transfer token env.current_contract a (pos (due env.timestamp q)) s.ledger)) [
                      | inl failed ↦ absurd (ground (arith, split))
                      | inr (ledger, k) ↦ (
                        st,
                        q,
                        token,
                        ledger,
                        f,
                        e,
                        g,
                        ground (arith, split),
                        k,
                        ground (arith, split),
                      )
                    ]
            ]
      ]
    ]

    -- A signed withdrawal of a valid attestor with something unlocked returns, if the token pays.
    pub withdraw_unstaked-returns :
        (env : Env) (a : Address) (s : Staking L) (st : Stake) (q : List PendingUnstake)
        (token : Address) (ledger : L)
        → IsValid s
        → env.authorized a ≡ true
        → s.stakes a ≡ some st
        → s.pending a ≡ some q
        → s.token ≡ some token
        → 0 < due env.timestamp q
        → transfer token env.current_contract a (pos (due env.timestamp q)) s.ledger ≡ some ledger
        → withdraw_unstaked transfer env a s ≡ ok (tt, withdrawn env a st q ledger s)
    unfolding withdraw_unstaked
    withdraw_unstaked-returns env a s st q token ledger v signed f e g positive paid =
        let own : Owns st q = rw e at (Holding-Owns (s.stakes a) (s.pending a) st (v a) f) in
        let some_due = units-waiting env.timestamp q in
        let d : ℕ = due env.timestamp q in
        let split = split_queue_start env.timestamp q own.plain (omega (arith, own.balanced)) in
        let (amount, sign) =
          -ℤ_nonneg st.amount (pos d) own.amount_nonneg refl
            (omega (arith, own.covered, own.balanced)) in
        let (locked, sign') =
          -ℤ_nonneg st.locked (pos d) own.locked_nonneg refl (omega (arith, own.balanced)) in
        ground
          (arith, split, own.covered, own.balanced, own.fits, own.locked_nonneg, own.amount_nonneg)
