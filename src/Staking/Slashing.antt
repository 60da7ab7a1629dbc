-- ===== src/Staking/Slashing.antt =====
-- What `slash` does when it returns.
use veritasor_contracts.Prelude.{
  ℕ, ◌-◌, ◌≤◌, ◌<◌, ◌≡◌, ◌≢◌, refl, true, List, [], none, some, get_or, Env, Address, Slots, ok,
  store, arith, Option-cases, Bool-cases, inl, inr, if◌then◌else◌,
}
use veritasor_contracts.Prelude.Int.{
  ℤ, pos, ◌-ℤ◌, ◌<ℤ◌, min_ℤ, ltb_ℤ, pos_part, neg_part, i128_mod, -ℤ_nonneg, pos_of_nonneg,
  nonneg_of_pos, eq_of_parts,
}
use veritasor_contracts.Staking.Types.{
  PendingUnstake, Stake, Staking, Transfer, SlashOutcome, slashed, no_slash,
}
use veritasor_contracts.Staking.Entries.{cut_pending, slash_stake, slash}
use veritasor_contracts.Staking.Loops.{units, sum_queue_lem, cut_queue_lem}
use veritasor_contracts.Staking.Keep.{Holding-Owns, lowered}
use veritasor_contracts.Staking.Invariant.{Owns, IsValid}

-- The queue slots after the requests of `a` were lowered to `locked`.
abbrev pub cut_slots : Slots (List PendingUnstake) → Address → ℤ → Slots (List PendingUnstake)
cut_slots m a locked = elim (m a) [
  | none ↦ m
  | some q ↦ (if ltb_ℤ locked (pos (units q)) then store m a (lowered q (pos_part locked)) else m)
]

-- What a slash of `x` takes from a stake.
abbrev pub burned : ℤ → Stake → ℤ
burned x st = min_ℤ x st.amount

abbrev pub after_slash : ℤ → Stake → Stake
after_slash x st =
    let amount = st.amount -ℤ burned x st in
    record st { amount = amount; locked = min_ℤ st.locked amount }

pub burned_bounds :
    (x : ℤ) (st : Stake) (q : List PendingUnstake)
    → Owns st q
    → pos 0 <ℤ x
    → (neg_part (burned x st) ≡ 0) × (pos_part (burned x st) ≤ pos_part st.amount)
burned_bounds x st q own positive =
    let sign = nonneg_of_pos x positive in
    (ground (arith, own.amount_nonneg), ground (arith, own.amount_nonneg))

pub after_slash-locked :
    (x : ℤ) (st : Stake) (q : List PendingUnstake)
    → Owns st q
    → pos 0 <ℤ x
    → neg_part (after_slash x st).locked ≡ 0
after_slash-locked x st q own positive =
    let (sign, le) = burned_bounds x st q own positive in
    let (amount, nonneg) = -ℤ_nonneg st.amount (burned x st) own.amount_nonneg sign le in
    ground (arith, own.locked_nonneg)

module _ {L : Type 0} where
  cut_pending_lem :
      (a : Address) (locked : ℤ) (s : Staking L) (st : Stake)
      → Owns st (get_or (s.pending a) [])
      → neg_part locked ≡ 0
      → cut_pending a locked s ≡ ok (tt, record s { pending = cut_slots s.pending a locked })
  unfolding cut_pending
  cut_pending_lem a locked s st own sign = elim (Option-cases (s.pending a)) [
    | inl absent ↦ ground arith
    | inr (q, e) ↦
        let own' : Owns st q = rw e at own in
        let fits : units q < i128_mod = omega (arith, own'.balanced) in
        let excess : ℕ = units q - pos_part locked in
        let total = sum_queue_lem q 0 own'.plain (omega arith) in
        let cuts = cut_queue_lem q excess own'.plain fits (omega arith) in
        elim (Bool-cases (ltb_ℤ locked (pos (units q)))) [
          | inl more ↦
              let (left, nonneg) = -ℤ_nonneg (pos (units q)) locked refl sign (ground arith) in
              ground (arith, total, cuts, pos_of_nonneg (pos (units q) -ℤ locked) nonneg)
          | inr enough ↦ ground (arith, total)
        ]
  ]

  module _ (transfer : Transfer L) where
    abbrev pub slash_result : Address → ℤ → ℕ → Stake → L → Staking L → Staking L
    slash_result a x dispute st ledger s = record s {
      stakes = store s.stakes a (after_slash x st);
      pending = cut_slots s.pending a (after_slash x st).locked;
      slashes = store s.slashes dispute true;
      ledger = ledger;
    }

    -- A slash that returns `slashed` took `min x amount` from the stake and paid that to the
    -- treasury.
    pub slash-slashed :
        (env : Env) (a : Address) (x : ℤ) (dispute : ℕ) (s s' : Staking L)
        → IsValid s
        → slash transfer env a x dispute s ≡ ok (slashed, s')
        → (st : Stake) × (token : Address) × (treasury : Address) × (ledger : L) × (s.stakes a
            ≡ some st)
          × (s.token ≡ some token)
          × (s.treasury ≡ some treasury)
          × (pos 0 <ℤ x)
          × (pos 0 <ℤ burned x st)
          × (transfer token env.current_contract treasury (burned x st) s.ledger ≡ some ledger)
          × (s' ≡ slash_result a x dispute st ledger s)
    unfolding slash slash_stake
    slash-slashed env a x dispute s s' v h = elim (Option-cases (s.stakes a)) [
      | inl absent ↦ absurd (ground arith)
      | inr (st, f) ↦
          let own = Holding-Owns (s.stakes a) (s.pending a) st (v a) f in
          let positive : pos 0 <ℤ x = ground arith in
          let sign = after_slash-locked x st (get_or (s.pending a) []) own positive in
          let cutting = cut_pending_lem a (after_slash x st).locked s st own sign in
          elim (Option-cases s.token) [
            | inl absent ↦ absurd (ground (arith, cutting))
            | inr (token, g) ↦ elim (Option-cases s.treasury) [
              | inl absent ↦ absurd (ground (arith, cutting))
              | inr (treasury, k) ↦
                  elim (Option-cases
                    (transfer token env.current_contract treasury (burned x st) s.ledger)) [
                      | inl failed ↦ absurd (ground (arith, cutting))
                      | inr (ledger, paid) ↦ (
                        st,
                        token,
                        treasury,
                        ledger,
                        f,
                        g,
                        k,
                        positive,
                        ground (arith, own.amount_nonneg),
                        paid,
                        ground (arith, cutting),
                      )
                    ]
            ]
          ]
    ]

    -- A slash that returns `no_slash` found an empty stake and changed nothing.
    pub slash-no_slash :
        (env : Env) (a : Address) (x : ℤ) (dispute : ℕ) (s s' : Staking L)
        → slash transfer env a x dispute s ≡ ok (no_slash, s')
        → (s' ≡ s) × (st : Stake) × (s.stakes a ≡ some st) × (st.amount ≡ pos 0)
    unfolding slash slash_stake
    slash-no_slash env a x dispute s s' h = elim (Option-cases (s.stakes a)) [
      | inl absent ↦ absurd (ground arith)
      | inr (st, f) ↦ (ground arith, st, f, eq_of_parts st.amount (pos 0) (ground arith))
    ]

    -- In a valid state, a dispute that a slash has just applied is refused by the next slash, for every
    -- attestor, amount and surrounding.
    pub slash_twice :
        (env env' : Env) (a b : Address) (x y : ℤ) (dispute : ℕ) (s s' : Staking L)
        → IsValid s
        → slash transfer env a x dispute s ≡ ok (slashed, s')
        → (r : SlashOutcome) (s'' : Staking L) → slash transfer env' b y dispute s' ≢ ok (r, s'')
    unfolding slash
    slash_twice env env' a b x y dispute s s' v h r s'' again =
        let (st, token, treasury, ledger, f, g, k, positive, some_burned, paid, result) =
          slash-slashed env a x dispute s s' v h in
        ground (arith, result)
