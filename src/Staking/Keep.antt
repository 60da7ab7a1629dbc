-- ===== src/Staking/Keep.antt =====
-- How the stake and the queue of one attestor change, and that the invariant survives it.
use veritasor_contracts.Prelude.{
  ℕ, ◌-◌, ◌≤◌, ◌<◌, ◌≡◌, refl, List, [], ◌∷◌, ◌++◌, Option, none, some, get_or, arith, length,
  length-append, All-append, Address, subst, some_injective,
}
use veritasor_contracts.Prelude.Int.{
  ℤ, pos, ◌+ℤ◌, ◌-ℤ◌, ◌≤ℤ◌, ◌<ℤ◌, min_ℤ, pos_part, neg_part, i128_mod, +ℤ_nonneg, -ℤ_nonneg,
  nonneg_of_pos,
}
use veritasor_contracts.Staking.Types.{PendingUnstake, Stake}
use veritasor_contracts.Staking.Queue.{unlock_time}
use veritasor_contracts.Staking.Entries.{new_stake}
use veritasor_contracts.Staking.Loops.{units, due, waiting, cut}
use veritasor_contracts.Staking.Shape.{
  snoc-Ascending, units-append, units-waiting, waiting-Plain, length-waiting-le, waiting-Ascending,
  units-cut, times-cut, cut-Plain, length-times,
}
use veritasor_contracts.Staking.Invariant.{Owns, Holding}

-- A stake that the contract holds is that of `Owns`.
pub Holding-Owns :
    (o : Option Stake) (w : Option (List PendingUnstake)) (st : Stake)
    → Holding o w
    → o ≡ some st
    → Owns st (get_or w [])
Holding-Owns none w st h e = absurd (ground arith)
Holding-Owns (some x) none st h e = subst (λ y. Owns y []) (some_injective x st e) h
Holding-Owns (some x) (some q) st h e = subst (λ y. Owns y q) (some_injective x st e) h

pub new_stake-Owns : (a : Address) → Owns (new_stake a) []
new_stake-Owns a = omega arith

-- A missing stake record counts as an empty one.
pub Holding-Owns_new :
    (a : Address) (o : Option Stake) (w : Option (List PendingUnstake))
    → Holding o w
    → Owns (get_or o (new_stake a)) (get_or w [])
Holding-Owns_new a none none h = new_stake-Owns a
Holding-Owns_new a none (some q) h = absurd h
Holding-Owns_new a (some st) none h = h
Holding-Owns_new a (some st) (some q) h = h

pub stake-Owns :
    (x : ℤ) (st : Stake) (q : List PendingUnstake)
    → Owns st q
    → pos 0 <ℤ x
    → pos_part (st.amount +ℤ x) < i128_mod
    → Owns (record st { amount = st.amount +ℤ x }) q
stake-Owns x st q h positive fits =
    let (sum, sign) = +ℤ_nonneg st.amount x h.amount_nonneg (nonneg_of_pos x positive) in
    record {
      amount_nonneg = sign;
      locked_nonneg = h.locked_nonneg;
      covered = omega arith;
      fits = fits;
      balanced = h.balanced;
      plain = h.plain;
      ascending = h.ascending;
      short = h.short;
    }

pub request-Owns :
    (at : ℕ) (x : ℤ) (st : Stake) (q : List PendingUnstake)
    → Owns st q
    → pos 0 <ℤ x
    → x ≤ℤ st.amount -ℤ st.locked
    → length q < 10
    → Owns
        (record st { locked = st.locked +ℤ x })
        (q ++ record { amount = x; unlock_timestamp = unlock_time at q } ∷ [])
request-Owns at x st q h positive covered room =
    let entry : PendingUnstake = record { amount = x; unlock_timestamp = unlock_time at q } in
    let nonneg = nonneg_of_pos x positive in
    let (sum, sign) = +ℤ_nonneg st.locked x h.locked_nonneg nonneg in
    let (rest, rest_sign) =
      -ℤ_nonneg st.amount st.locked h.amount_nonneg h.locked_nonneg h.covered in
    record {
      amount_nonneg = h.amount_nonneg;
      locked_nonneg = sign;
      covered = omega (arith, h.covered);
      fits = h.fits;
      balanced = omega (arith, units-append q (entry ∷ []), h.balanced);
      plain = All-append (λ p. neg_part p.amount ≡ 0) q (entry ∷ []) h.plain (nonneg, tt);
      ascending = snoc-Ascending at q entry h.ascending refl;
      short = omega (arith, length-append q (entry ∷ []));
    }

pub withdraw-Owns :
    (now : ℕ) (st : Stake) (q : List PendingUnstake)
    → Owns st q
    → Owns
        (record st { amount = st.amount -ℤ pos (due now q); locked = st.locked -ℤ pos (due now q) })
        (waiting now q)
withdraw-Owns now st q h =
    let paid : ℤ = pos (due now q) in
    let split = units-waiting now q in
    let (amount, sign) =
      -ℤ_nonneg st.amount paid h.amount_nonneg refl (omega (arith, h.covered, h.balanced)) in
    let (locked, sign') =
      -ℤ_nonneg st.locked paid h.locked_nonneg refl (omega (arith, h.balanced)) in
    record {
      amount_nonneg = sign;
      locked_nonneg = sign';
      covered = omega (arith, h.covered);
      fits = omega (arith, h.fits);
      balanced = omega (arith, h.balanced);
      plain = waiting-Plain now q h.plain;
      ascending = waiting-Ascending now q h.ascending;
      short = omega (arith, length-waiting-le now q, h.short);
    }

-- The queue after a slash that leaves `locked` locked.
abbrev pub lowered : List PendingUnstake → ℕ → List PendingUnstake
lowered q locked = (cut q (units q - locked)).0

pub slash-Owns :
    (x : ℤ) (st : Stake) (q : List PendingUnstake)
    → Owns st q
    → neg_part x ≡ 0
    → pos_part x ≤ pos_part st.amount
    → let amount = st.amount -ℤ x in
      let locked = min_ℤ st.locked amount in
      Owns (record st { amount = amount; locked = locked }) (lowered q (pos_part locked))
slash-Owns x st q h sign le =
    let (amount, nonneg) = -ℤ_nonneg st.amount x h.amount_nonneg sign le in
    let locked : ℤ = min_ℤ st.locked (st.amount -ℤ x) in
    let e : ℕ = units q - pos_part locked in
    record {
      amount_nonneg = nonneg;
      locked_nonneg = ground (arith, h.locked_nonneg);
      covered = ground (arith, h.locked_nonneg);
      fits = omega (arith, h.fits);
      balanced = ground (arith, units-cut q e, h.balanced, h.locked_nonneg);
      plain = cut-Plain q e;
      ascending = rw (times-cut q e) h.ascending;
      short = rw (← length-times (cut q e).0, times-cut q e, length-times q) h.short;
    }
