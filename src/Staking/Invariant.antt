-- ===== src/Staking/Invariant.antt =====
-- The invariant of the staking storage.
use veritasor_contracts.Prelude.{◌≤◌, ◌<◌, ◌≡◌, ◌≢◌, List, [], Option, none, some, Address, length}
use veritasor_contracts.Prelude.Int.{pos_part, neg_part, i128_mod}
use veritasor_contracts.Staking.Types.{PendingUnstake, Stake, Staking}
use veritasor_contracts.Staking.Loops.{units, Plain}
use veritasor_contracts.Staking.Shape.{times, Ascending}

-- A stake and its queue: the locked part is covered by the stake and is exactly what the queue
-- asks for, no amount is negative, unlock times never fall, and there are at most ten requests.
pub record Owns (st : Stake) (q : List PendingUnstake) : Type 0 where
  pub amount_nonneg : neg_part st.amount ≡ 0
  pub locked_nonneg : neg_part st.locked ≡ 0
  pub covered : pos_part st.locked ≤ pos_part st.amount
  pub fits : pos_part st.amount < i128_mod
  pub balanced : units q ≡ pos_part st.locked
  pub plain : Plain q
  pub ascending : Ascending (times q)
  pub short : length q ≤ 10

abbrev pub Holding : Option Stake → Option (List PendingUnstake) → Type 0
Holding none none = Unit
Holding none (some q) = ⊥
Holding (some st) none = Owns st []
Holding (some st) (some q) = Owns st q

abbrev pub IsValid : {L : Type 0} → Staking L → Type 0
IsValid s = (a : Address) → Holding (s.stakes a) (s.pending a)

-- Only the slots of one attestor have changed.
pub record Touches {L : Type 0} (a : Address) (s s' : Staking L) : Type 0 where
  pub stakes : (b : Address) → a ≢ b → s'.stakes b ≡ s.stakes b
  pub pending : (b : Address) → a ≢ b → s'.pending b ≡ s.pending b
