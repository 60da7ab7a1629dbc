-- ===== src/Staking/Preserve.antt =====
-- Every entry point that returns keeps the invariant.
use veritasor_contracts.Prelude.{
  ℕ, ◌+◌, ◌-◌, ◌≡◌, ◌≢◌, refl, List, [], ◌∷◌, Option, none, some, get_or, Env, Address, Slots, ok,
  store, arith, min, Bool-cases, Option-cases, inl, inr, ◌==◌, ==_refl,
}
use veritasor_contracts.Prelude.Int.{
  ℤ, pos, ◌+ℤ◌, ◌-ℤ◌, ltb_ℤ, pos_part, neg_part, pos_of_nonneg, u64_max,
}
use veritasor_contracts.Staking.Types.{PendingUnstake, Stake, Staking, Transfer, slashed}
use veritasor_contracts.Staking.Entries.{
  stake, request_unstake, withdraw_unstaked, slash, new_stake, put_queue,
}
use veritasor_contracts.Staking.Loops.{units, Plain, waiting, due, cut}
use veritasor_contracts.Staking.Keep.{
  Holding-Owns, Holding-Owns_new, stake-Owns, request-Owns, withdraw-Owns, slash-Owns, lowered,
}
use veritasor_contracts.Staking.Invariant.{Owns, Holding, IsValid}
use veritasor_contracts.Staking.Methods.{
  queue_of, requested, request_unstake-ok, withdraw_unstaked-ok, stake-ok,
}
use veritasor_contracts.Staking.Slashing.{
  cut_slots, burned, after_slash, burned_bounds, after_slash-locked, slash-slashed,
}

Owns-Holding :
    (w : Option (List PendingUnstake)) (st : Stake) → Owns st (get_or w []) → Holding (some st) w
Owns-Holding none st h = h
Owns-Holding (some q) st h = h

-- An update of one attestor's slots.
update-Holding :
    (a : Address) (ss : Slots Stake) (pp pp' : Slots (List PendingUnstake)) (st : Stake)
    → ((b : Address) → a ≢ b → pp' b ≡ pp b)
    → Owns st (get_or (pp' a) [])
    → ((b : Address) → Holding (ss b) (pp b))
    → (b : Address) → Holding (store ss a st b) (pp' b)
update-Holding a ss pp pp' st others own v b = elim (Bool-cases (a == b)) [
  | inl same ↦ let e : a ≡ b = ground arith in rw same (rw e at (Owns-Holding (pp' a) st own))
  | inr other ↦ rw (other, others b (ground arith)) (v b)
]

put_queue_self :
    (m : Slots (List PendingUnstake)) (a : Address) (q : List PendingUnstake)
    → get_or (put_queue m a q a) [] ≡ q
put_queue_self m a [] = ground arith
put_queue_self m a (p ∷ rest) = ground arith

pub put_queue_other :
    (m : Slots (List PendingUnstake)) (a : Address) (q : List PendingUnstake) (b : Address)
    → a ≢ b
    → put_queue m a q b ≡ m b
put_queue_other m a [] b ne = ground arith
put_queue_other m a (p ∷ rest) b ne = ground arith

-- Lowering a queue by nothing leaves it as it is.
cut_zero : (q : List PendingUnstake) → Plain q → cut q 0 ≡ (q, 0)
cut_zero [] h = refl
cut_zero (p ∷ newer) h = rw (cut_zero newer h.1) (ground (arith, pos_of_nonneg p.amount h.0))

pub cut_slots_other :
    (m : Slots (List PendingUnstake)) (a : Address) (locked : ℤ) (b : Address)
    → a ≢ b
    → cut_slots m a locked b ≡ m b
cut_slots_other m a locked b ne = ground arith

cut_slots_self :
    (m : Slots (List PendingUnstake)) (a : Address) (locked : ℤ) (st : Stake)
    → Owns st (get_or (m a) [])
    → neg_part locked ≡ 0
    → get_or (cut_slots m a locked a) [] ≡ lowered (get_or (m a) []) (pos_part locked)
cut_slots_self m a locked st own sign = elim (Option-cases (m a)) [
  | inl absent ↦ ground arith
  | inr (q, e) ↦
      let own' : Owns st q = rw e at own in
      elim (Bool-cases (ltb_ℤ locked (pos (units q)))) [
        | inl more ↦ ground arith
        | inr enough ↦
            let nothing : units q - pos_part locked ≡ 0 = ground arith in
            ground (arith, nothing, cut_zero q own'.plain)
      ]
]

module _ {L : Type 0} where
  pub request_unstake-IsValid :
      (env : Env) (a : Address) (x : ℤ) (s s' : Staking L)
      → IsValid s
      → request_unstake env a x s ≡ ok (tt, s')
      → IsValid s'
  request_unstake-IsValid env a x s s' v h =
      let (st, f, positive, covered, room, result) = request_unstake-ok env a x s s' h in
      let at : ℕ = min (env.timestamp + get_or s.unbonding_period 0) u64_max in
      let own = Holding-Owns (s.stakes a) (s.pending a) st (v a) f in
      let s'' : Staking L = requested env a x st s in
      rw result (
        update-Holding a s.stakes s.pending s''.pending (record st { locked = st.locked +ℤ x })
          (λ b ne. ground arith)
          (rw (==_refl a) (request-Owns at x st (queue_of a s) own positive covered room)) v)

  module _ (transfer : Transfer L) where
    pub stake-IsValid :
        (env : Env) (a : Address) (x : ℤ) (s s' : Staking L)
        → IsValid s
        → stake transfer env a x s ≡ ok (tt, s')
        → IsValid s'
    stake-IsValid env a x s s' v h =
        let (token, ledger, f, positive, paid, fits, result) = stake-ok transfer env a x s s' h in
        let st : Stake = get_or (s.stakes a) (new_stake a) in
        rw result (
          update-Holding a s.stakes s.pending s.pending (record st { amount = st.amount +ℤ x })
            (λ b ne. refl)
            (stake-Owns x st (queue_of a s) (Holding-Owns_new a (s.stakes a) (s.pending a) (v a))
              positive fits)
            v)

    pub withdraw_unstaked-IsValid :
        (env : Env) (a : Address) (s s' : Staking L)
        → IsValid s
        → withdraw_unstaked transfer env a s ≡ ok (tt, s')
        → IsValid s'
    withdraw_unstaked-IsValid env a s s' v h =
        let (st, q, token, ledger, f, e, g, positive, paid, result) =
          withdraw_unstaked-ok transfer env a s s' v h in
        let own : Owns st q = rw e at (Holding-Owns (s.stakes a) (s.pending a) st (v a) f) in
        let rest = waiting env.timestamp q in
        rw result (
          update-Holding a s.stakes s.pending (put_queue s.pending a rest)
            (record st {
              amount = st.amount -ℤ pos (due env.timestamp q);
              locked = st.locked -ℤ pos (due env.timestamp q);
            })
            (put_queue_other s.pending a rest)
            (rw (put_queue_self s.pending a rest) (withdraw-Owns env.timestamp st q own)) v)

    pub slash-IsValid :
        (env : Env) (a : Address) (x : ℤ) (dispute : ℕ) (s s' : Staking L)
        → IsValid s
        → slash transfer env a x dispute s ≡ ok (slashed, s')
        → IsValid s'
    slash-IsValid env a x dispute s s' v h =
        let (st, token, treasury, ledger, f, g, k, positive, some_burned, paid, result) =
          slash-slashed transfer env a x dispute s s' v h in
        let own = Holding-Owns (s.stakes a) (s.pending a) st (v a) f in
        let locked = (after_slash x st).locked in
        let (sign, le) = burned_bounds x st (queue_of a s) own positive in
        rw result (
          update-Holding a s.stakes s.pending (cut_slots s.pending a locked) (after_slash x st)
            (cut_slots_other s.pending a locked)
            (rw
              (cut_slots_self s.pending a locked st own
                (after_slash-locked x st (queue_of a s) own positive))
              (slash-Owns (burned x st) st (queue_of a s) own sign le))
            v)
