-- ===== src/Staking/Conservation.antt =====
-- Solvency: over every history of calls, the contract's token balance covers all the stakes.
use veritasor_contracts.Prelude.{
  ℕ, ◌+◌, ◌≤◌, ◌≡◌, ◌≢◌, refl, true, false, List, [], ◌∷◌, Option, none, some, Env, Address, Slots,
  ok, store, arith, Bool-cases, inl, inr, contains, Distinct, is_some,
}
use veritasor_contracts.Prelude.Int.{ℤ, pos, ◌<ℤ◌, pos_part}
use veritasor_contracts.Staking.Types.{Stake, Staking, Transfer, SlashOutcome}
use veritasor_contracts.Staking.Entries.{
  initialize, stake, request_unstake, withdraw_unstaked, slash, set_min_stake, set_dispute_contract,
  set_unbonding_period,
}
use veritasor_contracts.Staking.Invariant.{IsValid}

abbrev pub amount_of : Option Stake → ℕ
amount_of none = 0
amount_of (some st) = pos_part st.amount

-- The stakes of the listed attestors, in all.
abbrev pub held : List Address → Slots Stake → ℕ
held [] m = 0
held (a ∷ xs) m = amount_of (m a) + held xs m

held-store_absent :
    (xs : List Address) (m : Slots Stake) (a : Address) (st : Stake)
    → contains xs a ≡ false
    → held xs (store m a st) ≡ held xs m
held-store_absent [] m a st h = refl
held-store_absent (b ∷ xs) m a st h = ground (arith, held-store_absent xs m a st)

held-store :
    (xs : List Address) (m : Slots Stake) (a : Address) (st : Stake)
    → Distinct xs
    → contains xs a ≡ true
    → held xs (store m a st) + amount_of (m a) ≡ held xs m + pos_part st.amount
held-store [] m a st d h = cc
held-store (b ∷ xs) m a st d h =
    ground (arith, held-store_absent xs m a st, held-store xs m a st d.1)

-- The token, by what the contract relies on: a transfer of a positive amount between two accounts
-- moves it from the one balance to the other.
pub record IsToken {L : Type 0} (transfer : Transfer L) (balance : Address → Address → L → ℕ)
    : Type 0 where
  pub moves :
      (t from to : Address) (x : ℤ) (l l' : L)
      → transfer t from to x l ≡ some l'
      → from ≢ to
      → pos 0 <ℤ x
      → (balance t from l' + pos_part x ≡ balance t from l)
        × (balance t to l' ≡ balance t to l + pos_part x)

-- Every attestor list that was covered stays covered when the balance follows the stake.
pub store_covers :
    (m : Slots Stake) (a : Address) (st : Stake) (b b' : ℕ)
    → ((xs : List Address) → Distinct xs → held xs m ≤ b)
    → pos_part st.amount + b ≤ amount_of (m a) + b'
    → (xs : List Address) → Distinct xs
    → held xs (store m a st) ≤ b'
store_covers m a st b b' old follows xs d = elim (Bool-cases (contains xs a)) [
  | inl listed ↦ omega (arith, held-store xs m a st d listed, old xs d)
  | inr absent ↦ omega (arith, held-store_absent xs m a st absent, old (a ∷ xs) (absent, d))
]

-- The surroundings of a call of the contract `self`, which never signs as an attestor itself.
pub record IsHost (self : Address) (env : Env) : Type 0 where
  pub here : env.current_contract ≡ self
  pub unsigned : env.authorized self ≡ false

module _ {L : Type 0} (balance : Address → Address → L → ℕ) (self : Address) where
  -- The listed attestors' stakes are covered by the balance in the configured token.
  abbrev pub Covers : Option Address → Slots Stake → L → List Address → Type 0
  Covers none m l xs = held xs m ≡ 0
  Covers (some t) m l xs = held xs m ≤ balance t self l

  pub record IsSafe (s : Staking L) : Type 0 where
    pub valid : IsValid s
    pub treasury_apart : s.treasury ≢ some self
    pub uninitialized : is_some s.admin ≡ false → s.token ≡ none
    pub solvent : (xs : List Address) → Distinct xs → Covers s.token s.stakes s.ledger xs

module _ {L : Type 0} (transfer : Transfer L) (balance : Address → Address → L → ℕ)
    (self : Address) where
  -- The calls that return, and token transfers elsewhere that do not debit the contract.
  pub data Step (s : Staking L) : Staking L → Type 0 where
    initializing :
        {s' : Staking L} (env : Env) (admin token treasury : Address) (min_stake : ℤ)
        (dispute : Address) (unbonding : ℕ)
        → IsHost self env
        → initialize env admin token treasury min_stake dispute unbonding s ≡ ok (tt, s')
        → Step s s'
    staking :
        {s' : Staking L} (env : Env) (a : Address) (x : ℤ)
        → IsHost self env
        → stake transfer env a x s ≡ ok (tt, s')
        → Step s s'
    requesting :
        {s' : Staking L} (env : Env) (a : Address) (x : ℤ)
        → IsHost self env
        → request_unstake env a x s ≡ ok (tt, s')
        → Step s s'
    withdrawing :
        {s' : Staking L} (env : Env) (a : Address)
        → IsHost self env
        → withdraw_unstaked transfer env a s ≡ ok (tt, s')
        → Step s s'
    slashing :
        {s' : Staking L} (env : Env) (a : Address) (x : ℤ) (dispute : ℕ) (r : SlashOutcome)
        → IsHost self env
        → slash transfer env a x dispute s ≡ ok (r, s')
        → Step s s'
    setting_min_stake :
        {s' : Staking L} (env : Env) (x : ℤ)
        → IsHost self env
        → set_min_stake env x s ≡ ok (tt, s')
        → Step s s'
    setting_dispute :
        {s' : Staking L} (env : Env) (d : Address)
        → IsHost self env
        → set_dispute_contract env d s ≡ ok (tt, s')
        → Step s s'
    setting_unbonding :
        {s' : Staking L} (env : Env) (seconds : ℕ)
        → IsHost self env
        → set_unbonding_period env seconds s ≡ ok (tt, s')
        → Step s s'
    outside :
        {s' : Staking L} (ledger : L)
        → ((t : Address) → balance t self s.ledger ≤ balance t self ledger)
        → s' ≡ record s { ledger = ledger }
        → Step s s'

  pub data Reach (s : Staking L) : Staking L → Type 0 where
    start : Reach s s
    then_step : {t u : Staking L} → Reach s t → Step t u → Reach s u
