-- ===== src/Staking/Stuck.antt =====
-- A queue of ten requests that slashing has lowered to zero blocks its attestor for good.
use veritasor_contracts.Prelude.{
  ℕ, ◌≤◌, ◌≡◌, ◌≢◌, ◌∙◌, ap, sym, List, [], some, get_or, Env, Address, ok, arith, length,
  Bool-cases, inl, inr, ◌==◌, some_injective,
}
use veritasor_contracts.Prelude.Int.{ℤ, pos, ◌<ℤ◌}
use veritasor_contracts.Staking.Types.{PendingUnstake, Stake, Staking, Transfer, slashed, no_slash}
use veritasor_contracts.Staking.Entries.{request_unstake, withdraw_unstaked}
use veritasor_contracts.Staking.Loops.{units, waiting}
use veritasor_contracts.Staking.Shape.{units-waiting}
use veritasor_contracts.Staking.Keep.{Holding-Owns}
use veritasor_contracts.Staking.Invariant.{IsValid}
use veritasor_contracts.Staking.Methods.{
  queue_of, request_unstake-ok, withdraw_unstaked-ok, stake-ok,
}
use veritasor_contracts.Staking.Slashing.{
  cut_slots, after_slash, after_slash-locked, slash-slashed, slash-no_slash,
}
use veritasor_contracts.Staking.Preserve.{put_queue_other, cut_slots_other}
use veritasor_contracts.Staking.Config.{
  initialize_iff, set_min_stake_iff, set_dispute_contract-ok, set_unbonding_period_iff,
}
use veritasor_contracts.Staking.Conservation.{
  IsToken, IsSafe, Step, Reach, start, then_step, initializing, staking, requesting, withdrawing,
  slashing, setting_min_stake, setting_dispute, setting_unbonding, outside,
}
use veritasor_contracts.Staking.Reachable.{Step-IsSafe}

-- Ten requests for nothing.
pub record IsStuck {L : Type 0} (a : Address) (q : List PendingUnstake) (s : Staking L)
    : Type 0 where
  pub queued : s.pending a ≡ some q
  pub full : 10 ≤ length q
  pub empty : units q ≡ 0

module _ {L : Type 0} (transfer : Transfer L) where
  no_request :
      (a : Address) (q : List PendingUnstake) (s : Staking L)
      → IsStuck a q s
      → (env : Env) (x : ℤ) (s' : Staking L) → request_unstake env a x s ≢ ok (tt, s')
  no_request a q s h env x s' done =
      let (st, f, positive, covered, room, result) = request_unstake-ok env a x s s' done in
      let same : get_or (s.pending a) [] ≡ q = rw h.queued in
      absurd (omega (arith, ap length same, h.full))

  no_withdrawal :
      (a : Address) (q : List PendingUnstake) (s : Staking L)
      → IsValid s
      → IsStuck a q s
      → (env : Env) (s' : Staking L) → withdraw_unstaked transfer env a s ≢ ok (tt, s')
  no_withdrawal a q s v h env s' done =
      let (st, q', token, ledger, f, e, g, positive, paid, result) =
        withdraw_unstaked-ok transfer env a s s' v done in
      let same = some_injective q' q (sym e ∙ h.queued) in
      absurd (omega (arith, units-waiting env.timestamp q', ap units same, h.empty))

  -- The slot of the blocked attestor survives a slash.
  cut_slots_stuck :
      (a b : Address) (x : ℤ) (q : List PendingUnstake) (s : Staking L) (st : Stake)
      → IsValid s
      → IsStuck a q s
      → s.stakes b ≡ some st
      → pos 0 <ℤ x
      → cut_slots s.pending b (after_slash x st).locked a ≡ some q
  cut_slots_stuck a b x q s st v h f positive = elim (Bool-cases (b == a)) [
    | inr other ↦ cut_slots_other s.pending b (after_slash x st).locked a (ground arith) ∙ h.queued
    | inl same ↦
        let e : b ≡ a = ground arith in
        let own = Holding-Owns (s.stakes b) (s.pending b) st (v b) f in
        let here : s.pending b ≡ some q = rw e h.queued in
        let sign = after_slash-locked x st (queue_of b s) own positive in ground (arith, h.empty)
  ]

  module _ (balance : Address → Address → L → ℕ) (self : Address) where
    Step-IsStuck :
        (a : Address) (q : List PendingUnstake) {s s' : Staking L}
        → Step transfer balance self s s'
        → IsValid s
        → IsStuck a q s
        → s'.pending a ≡ some q
    Step-IsStuck a q {s} {s'} (initializing env admin token treasury m d u host h) v k =
        let (fresh, setup, result) = (initialize_iff env admin token treasury m d u s s').0 h in
        rw result k.queued
    Step-IsStuck a q {s} {s'} (staking env b x host h) v k =
        let (token, ledger, f, positive, paid, fits, result) = stake-ok transfer env b x s s' h in
        rw result k.queued
    Step-IsStuck a q {s} {s'} (requesting env b x host h) v k = elim (Bool-cases (b == a)) [
      | inl same ↦ let e : b ≡ a = ground arith in absurd (no_request a q s k env x s' (rw (← e) h))
      | inr other ↦
          let (st, f, positive, covered, room, result) = request_unstake-ok env b x s s' h in
          rw result (rw other k.queued)
    ]
    Step-IsStuck a q {s} {s'} (withdrawing env b host h) v k = elim (Bool-cases (b == a)) [
      | inl same ↦
          let e : b ≡ a = ground arith in absurd (no_withdrawal a q s v k env s' (rw (← e) h))
      | inr other ↦
          let (st, q', token, ledger, f, e, g, positive, paid, result) =
            withdraw_unstaked-ok transfer env b s s' v h in
          rw result
            (put_queue_other s.pending b (waiting env.timestamp q') a (ground arith) ∙ k.queued)
    ]
    Step-IsStuck a q {s} {s'} (slashing env b x d no_slash host h) v k =
        rw (slash-no_slash transfer env b x d s s' h).0 k.queued
    Step-IsStuck a q {s} {s'} (slashing env b x d slashed host h) v k =
        let (st, token, treasury, ledger, f, g, t, positive, some_burned, paid, result) =
          slash-slashed transfer env b x d s s' v h in
        rw result (cut_slots_stuck a b x q s st v k f positive)
    Step-IsStuck a q {s} {s'} (setting_min_stake env x host h) v k =
        rw ((set_min_stake_iff env x s s').0 h).4 k.queued
    Step-IsStuck a q {s} {s'} (setting_dispute env d host h) v k =
        rw (set_dispute_contract-ok env d s s' h).3 k.queued
    Step-IsStuck a q {s} {s'} (setting_unbonding env u host h) v k =
        rw ((set_unbonding_period_iff env u s s').0 h).3 k.queued
    Step-IsStuck a q {s} {s'} (outside ledger more e) v k = rw e k.queued

    Reach-IsStuck :
        (tok : IsToken transfer balance) (a : Address) (q : List PendingUnstake) {s s' : Staking L}
        → IsSafe balance self s
        → IsStuck a q s
        → Reach transfer balance self s s'
        → IsSafe balance self s' × IsStuck a q s'
    Reach-IsStuck tok a q safe k start = (safe, k)
    Reach-IsStuck tok a q safe k (then_step r st) =
        let (safe', k') = Reach-IsStuck tok a q safe k r in
        (
          Step-IsSafe transfer balance self tok st safe',
          record { queued = Step-IsStuck a q st safe'.valid k'; full = k'.full; empty = k'.empty },
        )

    -- Once slashing has lowered ten queued requests of an attestor to zero, then after any later
    -- history every request and every withdrawal of that attestor fails, whatever it stakes.
    pub stuck_forever :
        (tok : IsToken transfer balance) (a : Address) (q : List PendingUnstake) (s s' : Staking L)
        → IsSafe balance self s
        → IsStuck a q s
        → Reach transfer balance self s s'
        → (env : Env) (x : ℤ) (s'' : Staking L)
        → (request_unstake env a x s' ≢ ok (tt, s''))
          × (withdraw_unstaked transfer env a s' ≢ ok (tt, s''))
    stuck_forever tok a q s s' safe k r env x s'' =
        let (safe', k') = Reach-IsStuck tok a q safe k r in
        (no_request a q s' k' env x s'', no_withdrawal a q s' safe'.valid k' env s'')
