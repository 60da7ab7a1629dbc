-- ===== src/Share/Calls.antt =====
-- The calls of the revenue share contract.
use veritasor_contracts.Prelude.{
  ℕ, zero, suc, ◌+◌, ◌-◌, ◌/◌, ◌%◌, ◌^◌, Bool, true, false, not, ◌&&◌, List, [], ◌∷◌, map, length,
  contains, Option, none, some, get_or, Env, Address, Result, ok, err, pure, ensure, gets, modify,
  expect, lift, ◌>>=◌, ◌>>◌, ⊤, store, is_some, ltb, leb, ◌==◌, if◌then◌else◌,
}
use veritasor_contracts.Prelude.Int.{
  ℤ, pos, negsuc, ◌+ℤ◌, ◌-ℤ◌, ◌*ℤ◌, div_ℤ, ltb_ℤ, leb_ℤ, eq_ℤ, checked, u32_max, u64_max,
}
use veritasor_contracts.Replay.{verify_and_increment_nonce, channel_admin}
use veritasor_contracts.Share.Types.{
  Period, Stakeholder, Error, replay, unauthorized, already_initialized, not_initialized,
  no_stakeholder, too_many_stakeholders, zero_share, bps_overflow, duplicate_stakeholder,
  shares_differ, period_too_long, revenue_negative, already_distributed, no_attestation_contract,
  attestation_missing, attestation_revoked, attestation_expired, root_differs, no_stakeholders,
  share_overflow, distributed_overflow, residual_underflow, residual_overflow, missing_amount,
  sum_overflow, sum_differs, no_token, insufficient_balance, transfer_failed, count_overflow, Call,
  Token, Attestations,
}

abbrev pub channel_distribute : ℕ
channel_distribute = 2

abbrev pub max_period_bytes : ℕ
max_period_bytes = 128

-- `i128::to_be_bytes`, in two's complement.
abbrev pub to_be_bytes : ℤ → List ℕ
to_be_bytes n = be_bytes 16 (unsigned n)
  where
    unsigned : ℤ → ℕ
    unsigned (pos m) = m
    unsigned (negsuc m) = 340282366920938463463374607431768211455 - m

    be_bytes : ℕ → ℕ → List ℕ
    be_bytes zero m = []
    be_bytes (suc k) m = (m / 256 ^ k % 256) ∷ be_bytes k m

unfoldable pub same_period : Period → Period → Bool
same_period [] [] = true
same_period (a ∷ p) (b ∷ q) = (a == b) && same_period p q
same_period [] (b ∷ q) = false
same_period (a ∷ p) [] = false

-- The loop of `configure_stakeholders`, from the total so far: the total of the shares.
unfoldable pub check_stakeholders : List Stakeholder → ℕ → Result Error ℕ
check_stakeholders [] total = ok total
check_stakeholders (x ∷ xs) total =
    let rest = check_stakeholders xs (total + x.share_bps) in
    if not (ltb 0 x.share_bps)
    then err zero_share
    else if ltb u32_max (total + x.share_bps)
    then err bps_overflow
    else if contains (map (λ y. y.address) xs) x.address
    then err duplicate_stakeholder
    else rest

unfoldable pub calculate_share : ℤ → ℕ → Result Error ℤ
calculate_share revenue share_bps = elim (checked (revenue *ℤ pos share_bps)) [
  | none ↦ err share_overflow
  | some p ↦ ok (div_ℤ p 10000)
]

-- The loop that computes the base amounts, with the total so far.
unfoldable pub allocate : ℤ → List Stakeholder → ℤ → Result Error (List ℤ × ℤ)
allocate revenue [] total = ok ([], total)
allocate revenue (x ∷ xs) total = elim (calculate_share revenue x.share_bps) [
  | err e ↦ err e
  | ok amount ↦ elim (checked (total +ℤ amount)) [
    | none ↦ err distributed_overflow
    | some total' ↦ elim (allocate revenue xs total') [
      | err e ↦ err e
      | ok (amounts, all) ↦ ok (amount ∷ amounts, all)
    ]
  ]
]

-- The residual goes to the first amount.
unfoldable pub add_residual : ℤ → List ℤ → Result Error (List ℤ)
add_residual residual [] = if ltb_ℤ (pos 0) residual then err missing_amount else ok []
add_residual residual (first ∷ rest) =
    if ltb_ℤ (pos 0) residual
    then (elim (checked (first +ℤ residual)) [
      | none ↦ err residual_overflow
      | some a ↦ ok (a ∷ rest)
    ])
    else ok (first ∷ rest)

unfoldable pub sum_amounts : List ℤ → ℤ → Result Error ℤ
sum_amounts [] sum = ok sum
sum_amounts (a ∷ as') sum = elim (checked (sum +ℤ a)) [
  | none ↦ err sum_overflow
  | some sum' ↦ sum_amounts as' sum'
]

-- The whole division of a revenue: the base amounts, the residual, the sum test.
unfoldable pub divide : ℤ → List Stakeholder → Result Error (List ℤ)
divide revenue stakeholders = elim (allocate revenue stakeholders (pos 0)) [
  | err e ↦ err e
  | ok (base, total) ↦ elim (checked (revenue -ℤ total)) [
    | none ↦ err residual_underflow
    | some residual ↦ elim (add_residual residual base) [
      | err e ↦ err e
      | ok amounts ↦ elim (sum_amounts amounts (pos 0)) [
        | err e ↦ err e
        | ok sum ↦ if eq_ℤ sum revenue then ok amounts else err sum_differs
      ]
    ]
  ]
]

module _ {L : Type 0} where
  abbrev pub require_auth : Env → Address → Call L ⊤
  require_auth env a = ensure (env.authorized a) unauthorized

  abbrev pub use_nonce : Address → ℕ → ℕ → Call L ⊤
  use_nonce actor channel nonce s = elim (verify_and_increment_nonce actor channel nonce s.nonces) [
    | err e ↦ err (replay e)
    | ok (u, nonces) ↦ ok (tt, record s { nonces = nonces })
  ]

  unfoldable pub initialize : Env → Address → ℕ → Address → Address → Call L ⊤
  initialize env admin nonce attestation_contract token = do
    present ← gets (λ s. is_some s.admin)
    ensure (not present) already_initialized
    require_auth env admin
    use_nonce admin channel_admin nonce
    modify (λ s. record s {
      admin = some admin;
      attestation_contract = some attestation_contract;
      token = some token;
    })

  unfoldable pub require_admin_with_nonce : Env → ℕ → Call L Address
  require_admin_with_nonce env nonce = do
    stored ← gets (λ s. s.admin)
    admin ← expect stored not_initialized
    require_auth env admin
    use_nonce admin channel_admin nonce
    pure admin

  unfoldable pub configure_stakeholders : Env → ℕ → List Stakeholder → Call L ⊤
  configure_stakeholders env nonce stakeholders = do
    _ ← require_admin_with_nonce env nonce
    ensure (ltb 0 (length stakeholders)) no_stakeholder
    ensure (leb (length stakeholders) 50) too_many_stakeholders
    total ← lift (check_stakeholders stakeholders 0)
    ensure (total == 10000) shares_differ
    modify (λ s. record s { stakeholders = some stakeholders })

  unfoldable pub set_attestation_contract : Env → ℕ → Address → Call L ⊤
  set_attestation_contract env nonce attestation_contract = do
    _ ← require_admin_with_nonce env nonce
    modify (λ s. record s { attestation_contract = some attestation_contract })

  unfoldable pub set_token : Env → ℕ → Address → Call L ⊤
  set_token env nonce token = do
    _ ← require_admin_with_nonce env nonce
    modify (λ s. record s { token = some token })

  module _ (token : Token L) where
    -- The transfers to the stakeholders; an amount of zero is not sent.
    unfoldable pub pay_all : Address → Address → List Stakeholder → List ℤ → L → Option L
    pay_all currency business [] amounts l = some l
    pay_all currency business (x ∷ xs) [] l = none
    pay_all currency business (x ∷ xs) (a ∷ rest) l = elim (ltb_ℤ (pos 0) a) [
      | false ↦ pay_all currency business xs rest l
      | true ↦ elim (token.transfer currency business x.address a l) [
        | none ↦ none
        | some l' ↦ pay_all currency business xs rest l'
      ]
    ]

  module _ (sha256 : List ℕ → ℕ) (attestations : Attestations) where
    unfoldable pub assert_revenue_attested : Address → Address → Period → ℤ → Call L ⊤
    assert_revenue_attested contract business period revenue = do
      let found = attestations.root contract business period
      ensure (is_some found) attestation_missing
      ensure (not (attestations.is_revoked contract business period)) attestation_revoked
      ensure (not (attestations.is_expired contract business period)) attestation_expired
      stored_root ← expect found attestation_missing
      ensure (sha256 (to_be_bytes revenue) == stored_root) root_differs

    module _ (token : Token L) where
      unfoldable pub distribute_revenue : Env → Address → Period → ℤ → ℕ → Call L ⊤
      distribute_revenue env business period revenue nonce = do
        require_auth env business
        ensure (leb (length period) max_period_bytes) period_too_long
        ensure (leb_ℤ (pos 0) revenue) revenue_negative
        earlier ← gets (λ s. s.distribution business period)
        ensure (not (is_some earlier)) already_distributed
        contract? ← gets (λ s. s.attestation_contract)
        contract ← expect contract? no_attestation_contract
        assert_revenue_attested contract business period revenue
        stakeholders? ← gets (λ s. s.stakeholders)
        stakeholders ← expect stakeholders? no_stakeholders
        amounts ← lift (divide revenue stakeholders)
        token? ← gets (λ s. s.token)
        currency ← expect token? no_token
        balance ← gets (λ s. token.balance currency business s.ledger)
        ensure (leb_ℤ revenue balance) insufficient_balance
        use_nonce business channel_distribute nonce
        paid? ← gets (λ s. pay_all token currency business stakeholders amounts s.ledger)
        paid ← expect paid? transfer_failed
        modify (λ s. record s {
          ledger = paid;
          distribution = λ b p.
              if (business == b) && same_period period p
              then some
                  (record { total_amount = revenue; timestamp = env.timestamp; amounts = amounts })
              else s.distribution b p;
        })
        count ← gets (λ s. get_or (s.distribution_count business) 0)
        ensure (ltb count u64_max) count_overflow
        modify
            (λ s. record s { distribution_count = store s.distribution_count business (count + 1) })
