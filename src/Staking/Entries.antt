-- ===== src/Staking/Entries.antt =====
-- The entry points of the staking contract.
use veritasor_contracts.Prelude.{
  ℕ, ◌+◌, ◌%◌, ◌^◌, min, Bool, true, false, not, List, [], ◌∷◌, ◌++◌, Option, none, some, get_or,
  Env, Address, ⊤, Slots, store, remove, is_some, ensure, gets, modify, pure, expect, ◌>>=◌, ◌>>◌,
  ltb, leb, ◌==◌, if◌then◌else◌, length,
}
use veritasor_contracts.Prelude.Int.{
  saturated, ℤ, pos, ◌+ℤ◌, ◌-ℤ◌, ltb_ℤ, leb_ℤ, eq_ℤ, min_ℤ, checked, pos_part, u64_max,
}
use veritasor_contracts.Staking.Types.{
  SlashOutcome, slashed, no_slash, PendingUnstake, Stake, Staking, Transfer, Call,
  max_unbonding_period, unauthorized, missing_key, arithmetic_overflow, transfer_failed,
  already_initialized, min_stake_not_positive, unbonding_too_long, token_is_self, treasury_is_self,
  dispute_is_self, admin_is_treasury, token_is_treasury, dispute_is_treasury, amount_not_positive,
  stake_overflow, too_many_pending, no_stake, insufficient_stake, no_pending, nothing_unlocked,
  locked_invariant, stake_invariant, slash_not_positive, already_processed,
}
use veritasor_contracts.Staking.Queue.{split_queue, sum_queue, cut_queue, unlock_time}

abbrev pub new_stake : Address → Stake
new_stake a = record { attestor = a; amount = pos 0; locked = pos 0 }

-- An empty queue is removed, any other is stored.
abbrev pub put_queue :
    Slots (List PendingUnstake) → Address → List PendingUnstake → Slots (List PendingUnstake)
put_queue m a [] = remove m a
put_queue m a (p ∷ rest) = store m a (p ∷ rest)

module _ {L : Type 0} where
  abbrev require_auth : Env → Address → Call L ⊤
  require_auth env a = ensure (env.authorized a) unauthorized

  unfoldable pub initialize : Env → Address → Address → Address → ℤ → Address → ℕ → Call L ⊤
  initialize env admin token treasury min_stake dispute_contract unbonding = do
    has ← gets (λ s. is_some s.admin)
    ensure (not has) already_initialized
    require_auth env admin
    ensure (ltb_ℤ (pos 0) min_stake) min_stake_not_positive
    ensure (leb unbonding max_unbonding_period) unbonding_too_long
    ensure (not (token == env.current_contract)) token_is_self
    ensure (not (treasury == env.current_contract)) treasury_is_self
    ensure (not (dispute_contract == env.current_contract)) dispute_is_self
    ensure (not (admin == treasury)) admin_is_treasury
    ensure (not (token == treasury)) token_is_treasury
    ensure (not (dispute_contract == treasury)) dispute_is_treasury
    modify (λ s. record s {
      admin = some admin;
      token = some token;
      treasury = some treasury;
      min_stake = some min_stake;
      dispute_contract = some dispute_contract;
      unbonding_period = some unbonding;
    })

  abbrev put_stake : Address → Stake → Call L ⊤
  put_stake a st = modify (λ s. record s { stakes = store s.stakes a st })

  unfoldable pub set_admin_config_auth : Env → Call L ⊤
  set_admin_config_auth env = do
    stored ← gets (λ s. s.admin)
    admin ← expect stored missing_key
    require_auth env admin

  unfoldable pub set_min_stake : Env → ℤ → Call L ⊤
  unfolding set_admin_config_auth
  set_min_stake env min_stake = do
    set_admin_config_auth env
    ensure (ltb_ℤ (pos 0) min_stake) min_stake_not_positive
    modify (λ s. record s { min_stake = some min_stake })

  unfoldable pub set_dispute_contract : Env → Address → Call L ⊤
  unfolding set_admin_config_auth
  set_dispute_contract env dispute_contract = do
    set_admin_config_auth env
    modify (λ s. record s { dispute_contract = some dispute_contract })

  unfoldable pub set_unbonding_period : Env → ℕ → Call L ⊤
  unfolding set_admin_config_auth
  set_unbonding_period env seconds = do
    set_admin_config_auth env
    modify (λ s. record s { unbonding_period = some seconds })

  unfoldable pub request_unstake : Env → Address → ℤ → Call L ⊤
  unfolding unlock_time
  request_unstake env attestor amount = do
    require_auth env attestor
    ensure (ltb_ℤ (pos 0) amount) amount_not_positive
    queue ← gets (λ s. get_or (s.pending attestor) [])
    ensure (ltb (length queue) 10) too_many_pending
    stored ← gets (λ s. s.stakes attestor)
    st ← expect stored no_stake
    available ← expect (checked (st.amount -ℤ st.locked)) arithmetic_overflow
    ensure (leb_ℤ amount available) insufficient_stake
    locked ← expect (checked (st.locked +ℤ amount)) arithmetic_overflow
    put_stake attestor (record st { locked = locked })
    unbonding ← gets (λ s. get_or s.unbonding_period 0)
    let at = min (env.timestamp + unbonding) u64_max
    let entry : PendingUnstake = record { amount = amount; unlock_timestamp = unlock_time at queue }
    modify (λ s. record s { pending = store s.pending attestor (queue ++ entry ∷ []) })

  unfoldable pub get_stake : Address → Staking L → Option Stake
  get_stake attestor s = s.stakes attestor

  unfoldable pub is_dispute_processed : ℕ → Staking L → Bool
  is_dispute_processed dispute_id s = is_some (s.slashes dispute_id)

  unfoldable pub get_pending_unstake : Address → Staking L → Option PendingUnstake
  get_pending_unstake attestor s = elim (s.pending attestor) [
    | none ↦ none
    | some queue ↦ elim queue [ [] ↦ none | p ∷ rest ↦ some p ]
  ]

  unfoldable pub get_pending_unstakes : Address → Staking L → Option (List PendingUnstake)
  get_pending_unstakes attestor s = s.pending attestor

  unfoldable pub is_eligible : Address → Call L Bool
  unfolding get_stake
  is_eligible attestor = do
    stored ← gets (λ s. s.min_stake)
    least ← expect stored missing_key
    found ← gets (get_stake attestor)
    pure (elim found [ none ↦ false | some st ↦ leb_ℤ least st.amount ])

  -- `as u64` keeps the low 64 bits; `min(i128::MAX)` changes nothing.
  unfoldable pub get_reputation : Address → Staking L → ℕ
  unfolding get_stake
  get_reputation attestor s = elim (get_stake attestor s) [
    | none ↦ 0
    | some st ↦
        let available = saturated (st.amount -ℤ st.locked) in
        (if leb_ℤ available (pos 0) then 0 else pos_part available % 2 ^ 64)
  ]

  unfoldable pub get_unbonding_period : Staking L → ℕ
  get_unbonding_period s = get_or s.unbonding_period 0

  cut_excess : Address → ℤ → List PendingUnstake → ℤ → Call L ⊤
  cut_excess attestor locked queue total = do
    excess ← expect (checked (total -ℤ locked)) arithmetic_overflow
    cut ← expect (cut_queue queue excess) arithmetic_overflow
    modify (λ s. record s { pending = store s.pending attestor cut.0 })

  -- The part of `slash` that lowers the pending requests to the locked amount.
  unfoldable pub cut_pending : Address → ℤ → Call L ⊤
  unfolding cut_excess
  cut_pending attestor locked = do
    waiting ← gets (λ s. s.pending attestor)
    elim waiting [
      | none ↦ pure tt
      | some queue ↦ do
        total ← expect (sum_queue queue (pos 0)) arithmetic_overflow
        if ltb_ℤ locked total then cut_excess attestor locked queue total else pure tt
    ]

  module _ (transfer : Transfer L) where
    abbrev pay : Address → Address → Address → ℤ → Call L ⊤
    pay token from to amount = do
      moved ← gets (λ s. transfer token from to amount s.ledger)
      ledger ← expect moved transfer_failed
      modify (λ s. record s { ledger = ledger })

    unfoldable pub stake : Env → Address → ℤ → Call L ⊤
    stake env attestor amount = do
      require_auth env attestor
      ensure (ltb_ℤ (pos 0) amount) amount_not_positive
      stored ← gets (λ s. s.token)
      token ← expect stored missing_key
      st ← gets (λ s. get_or (s.stakes attestor) (new_stake attestor))
      total ← expect (checked (st.amount +ℤ amount)) arithmetic_overflow
      ensure (leb_ℤ (pos 0) total) stake_overflow
      put_stake attestor (record st { amount = total })
      pay token attestor env.current_contract amount

    unfoldable pub withdraw_unstaked : Env → Address → Call L ⊤
    withdraw_unstaked env attestor = do
      require_auth env attestor
      waiting ← gets (λ s. s.pending attestor)
      queue ← expect waiting no_pending
      split ← expect (split_queue env.timestamp queue [] (pos 0)) arithmetic_overflow
      ensure (ltb_ℤ (pos 0) split.1) nothing_unlocked
      stored ← gets (λ s. s.stakes attestor)
      st ← expect stored no_stake
      ensure (leb_ℤ split.1 st.locked) locked_invariant
      ensure (leb_ℤ split.1 st.amount) stake_invariant
      amount ← expect (checked (st.amount -ℤ split.1)) arithmetic_overflow
      locked ← expect (checked (st.locked -ℤ split.1)) arithmetic_overflow
      put_stake attestor (record st { amount = amount; locked = locked })
      modify (λ s. record s { pending = put_queue s.pending attestor split.0 })
      configured ← gets (λ s. s.token)
      token ← expect configured missing_key
      pay token env.current_contract attestor split.1

    -- `slash` from the write of the lowered stake on.
    unfoldable pub slash_stake : Env → Address → ℕ → Stake → ℤ → Call L SlashOutcome
    unfolding cut_pending
    slash_stake env attestor dispute_id st slash_amount = do
      amount ← expect (checked (st.amount -ℤ slash_amount)) arithmetic_overflow
      let locked = min_ℤ st.locked amount
      cut_pending attestor locked
      put_stake attestor (record st { amount = amount; locked = locked })
      modify (λ s. record s { slashes = store s.slashes dispute_id true })
      configured ← gets (λ s. s.token)
      token ← expect configured missing_key
      receiver ← gets (λ s. s.treasury)
      treasury ← expect receiver missing_key
      pay token env.current_contract treasury slash_amount
      pure slashed

    unfoldable pub slash : Env → Address → ℤ → ℕ → Call L SlashOutcome
    unfolding slash_stake
    slash env attestor amount dispute_id = do
      configured ← gets (λ s. s.dispute_contract)
      dispute_contract ← expect configured missing_key
      require_auth env dispute_contract
      ensure (ltb_ℤ (pos 0) amount) slash_not_positive
      processed ← gets (λ s. is_some (s.slashes dispute_id))
      ensure (not processed) already_processed
      stored ← gets (λ s. s.stakes attestor)
      st ← expect stored no_stake
      let slash_amount = min_ℤ amount st.amount
      if eq_ℤ slash_amount (pos 0)
          then pure no_slash
          else slash_stake env attestor dispute_id st slash_amount
