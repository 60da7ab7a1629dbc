-- ===== src/Staking/Reputation.antt =====
-- The reputation score that other contracts read.
use veritasor_contracts.Prelude.{◌-◌, ◌%◌, ◌^◌, ◌≡◌, some, Address, arith}
use veritasor_contracts.Prelude.Int.{saturated, pos_part, -ℤ_nonneg}
use veritasor_contracts.Staking.Types.{Stake, Staking}
use veritasor_contracts.Staking.Entries.{get_reputation}
use veritasor_contracts.Staking.Keep.{Holding-Owns}
use veritasor_contracts.Staking.Invariant.{IsValid}

module _ {L : Type 0} where
  -- The score of a valid stake is its unlocked part modulo 2 ^ 64.
  pub get_reputation_lem :
      (a : Address) (s : Staking L) (st : Stake)
      → IsValid s
      → s.stakes a ≡ some st
      → get_reputation a s ≡ (pos_part st.amount - pos_part st.locked) % 2 ^ 64
  unfolding get_reputation saturated
  get_reputation_lem a s st v e =
      let own = Holding-Owns (s.stakes a) (s.pending a) st (v a) e in
      let (sum, sign) =
        -ℤ_nonneg st.amount st.locked own.amount_nonneg own.locked_nonneg own.covered in
      ground (arith, own.fits)

  -- A valid stake with an unlocked part of exactly 2 ^ 64 has the score 0.
  pub get_reputation_wraps :
      (a : Address) (s : Staking L) (st : Stake)
      → IsValid s
      → s.stakes a ≡ some st
      → pos_part st.amount - pos_part st.locked ≡ 2 ^ 64
      → get_reputation a s ≡ 0
  get_reputation_wraps a s st v e big = omega (arith, get_reputation_lem a s st v e, big)
