-- ===== src/Settlement/Calls.antt =====
-- The calls of the settlement contract.
use veritasor_contracts.Prelude.{
  ℕ, zero, suc, ◌+◌, ◌*◌, ◌/◌, not, ◌&&◌, List, [], ◌∷◌, length, none, some, get_or, Env, Address,
  ok, err, pure, ensure, gets, modify, expect, ◌>>=◌, ◌>>◌, ⊤, store, is_some, ltb, leb, ◌==◌,
  if◌then◌else◌, min,
}
use veritasor_contracts.Prelude.Int.{
  saturated, ℤ, pos, pos_part, ◌+ℤ◌, ◌-ℤ◌, ◌*ℤ◌, div_ℤ, ltb_ℤ, leb_ℤ, eq_ℤ, min_ℤ, checked, u64_max,
}
use veritasor_contracts.Settlement.Types.{
  Agreement, unauthorized, already_initialized, not_initialized, principal_not_positive,
  bps_too_large, threshold_negative, cap_not_positive, same_party, id_overflow, no_periods,
  lengths_differ, agreement_not_found, not_active, other_token, already_committed, transfer_failed,
  amount_overflow, Settlements, Call, Transfer,
}

-- The loop over the revenues, from the total so far.
unfoldable pub add_revenues : List ℤ → ℤ → ℤ
add_revenues [] total = total
add_revenues (r ∷ rs) total = add_revenues rs (saturated (total +ℤ r))

-- The share of a positive revenue, on `u128`.
unfoldable pub share_of : ℕ → ℕ → ℕ
share_of revenue bps = min (revenue * bps) 340282366920938463463374607431768211455 / 10000

-- `total_repayment_amount`, from the summed revenue and the number of periods.
unfoldable pub repayment : Agreement → ℤ → ℕ → ℤ
repayment agreement total_revenue num_periods =
    if leb_ℤ (saturated (agreement.min_revenue_threshold *ℤ pos num_periods)) total_revenue
      && ltb_ℤ (pos 0) total_revenue
    then min_ℤ (pos (share_of (pos_part total_revenue) agreement.revenue_share_bps))
        (saturated (agreement.max_repayment_amount *ℤ pos num_periods))
    else pos 0

-- The amounts of the records: equal parts, and the last has the remainder too.
unfoldable pub parts : ℤ → ℤ → ℕ → List ℤ
parts part last zero = []
parts part last (suc zero) = last ∷ []
parts part last (suc (suc n)) = part ∷ parts part last (suc n)

module _ {L : Type 0} where
  abbrev pub require_auth : Env → Address → Call L ⊤
  require_auth env a = ensure (env.authorized a) unauthorized

  unfoldable pub initialize : Env → Address → Call L ⊤
  initialize env admin = do
    require_auth env admin
    present ← gets (λ s. is_some s.admin)
    ensure (not present) already_initialized
    modify (λ s. record s { admin = some admin; next_agreement_id = some 0 })

  -- The agreement is given with any id, status and time, which the call sets.
  unfoldable pub create_agreement : Env → Agreement → Call L ℕ
  create_agreement env a = do
    require_auth env a.lender
    ensure (ltb_ℤ (pos 0) a.principal) principal_not_positive
    ensure (leb a.revenue_share_bps 10000) bps_too_large
    ensure (leb_ℤ (pos 0) a.min_revenue_threshold) threshold_negative
    ensure (ltb_ℤ (pos 0) a.max_repayment_amount) cap_not_positive
    ensure (not (a.business == a.lender)) same_party
    id ← gets (λ s. get_or s.next_agreement_id 0)
    modify (λ s. record s {
      agreement =
          store s.agreement id (record a { id = id; status = 0; created_at = env.timestamp });
    })
    ensure (ltb id u64_max) id_overflow
    modify (λ s. record s { next_agreement_id = some (id + 1) })
    pure id

  -- The test of the token and of the commitment for one period.
  unfoldable pub check_period : ℕ → Agreement → ℕ → Call L ⊤
  check_period agreement_id a period = do
    known ← gets (λ s. s.business_period_token a.business period)
    ensure (get_or known a.token == a.token) other_token
    modify (λ s. record s {
      business_period_token = λ b p.
          if (a.business == b) && (period == p) && not (is_some known)
          then some a.token
          else s.business_period_token b p;
    })
    previously_committed ← gets (λ s. get_or (s.committed agreement_id period) (pos 0))
    ensure (eq_ℤ previously_committed (pos 0)) already_committed

  unfoldable pub check_periods : ℕ → Agreement → List ℕ → Call L ⊤
  check_periods agreement_id a [] s = ok (tt, s)
  check_periods agreement_id a (p ∷ ps) s = elim (check_period agreement_id a p s) [
    | err e ↦ err e
    | ok (u, s') ↦ check_periods agreement_id a ps s'
  ]

  -- The record and the commitment of one period.
  abbrev pub record_period : Env → ℕ → ℕ → ℤ → ℤ → Settlements L → Settlements L
  record_period env agreement_id period revenue amount s = record s {
    settlement = λ a p.
        if (agreement_id == a) && (period == p)
        then some (record {
          agreement_id = agreement_id;
          period = period;
          attested_revenue = revenue;
          repayment_amount = amount;
          amount_transferred = amount;
          settled_at = env.timestamp;
        })
        else s.settlement a p;
    committed =
        λ a p. if (agreement_id == a) && (period == p) then some amount else s.committed a p;
  }

  unfoldable pub record_periods : Env → ℕ → List ℕ → List ℤ → List ℤ → Settlements L → Settlements L
  record_periods env agreement_id (p ∷ ps) (r ∷ rs) (a ∷ rest) s =
      record_periods env agreement_id ps rs rest (record_period env agreement_id p r a s)
  record_periods env agreement_id _ _ _ s = s

  module _ (transfer : Transfer L) where
    abbrev pub pay : Agreement → ℤ → Call L ⊤
    pay a amount s =
        if ltb_ℤ (pos 0) amount
        then (elim (transfer a.token a.business a.lender amount s.ledger) [
          | none ↦ err transfer_failed
          | some ledger ↦ ok (tt, record s { ledger = ledger })
        ])
        else ok (tt, s)

    unfoldable pub settle_multi : Env → ℕ → List ℕ → List ℤ → Call L ⊤
    settle_multi env agreement_id periods revenues = do
      ensure (ltb 0 (length periods)) no_periods
      ensure (length periods == length revenues) lengths_differ
      found ← gets (λ s. s.agreement agreement_id)
      agreement ← expect found agreement_not_found
      ensure (agreement.status == 0) not_active
      check_periods agreement_id agreement periods
      let num_periods = length periods
      let total = repayment agreement (add_revenues revenues (pos 0)) num_periods
      pay agreement total
      let part = div_ℤ total num_periods
      let remainder = total -ℤ part *ℤ pos num_periods
      last ← expect (checked (part +ℤ remainder)) amount_overflow
      modify (record_periods env agreement_id periods revenues (parts part last num_periods))

    unfoldable pub settle : Env → ℕ → ℕ → ℤ → Call L ⊤
    settle env agreement_id period attested_revenue =
        settle_multi env agreement_id (period ∷ []) (attested_revenue ∷ [])

  -- The body of both marks, with the status that they set.
  unfoldable pub mark : ℕ → Env → Address → ℕ → Call L ⊤
  mark status env admin agreement_id = do
    stored ← gets (λ s. s.admin)
    stored_admin ← expect stored not_initialized
    ensure (admin == stored_admin) unauthorized
    require_auth env admin
    found ← gets (λ s. s.agreement agreement_id)
    agreement ← expect found agreement_not_found
    ensure (agreement.status == 0) not_active
    modify (λ s. record s {
      agreement = store s.agreement agreement_id (record agreement { status = status });
    })

  abbrev pub mark_completed : Env → Address → ℕ → Call L ⊤
  mark_completed = mark 1

  abbrev pub mark_defaulted : Env → Address → ℕ → Call L ⊤
  mark_defaulted = mark 2
