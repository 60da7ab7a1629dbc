-- ===== src/Settlement/Duplicate.antt =====
-- A period that one call lists twice.
use veritasor_contracts.Prelude.{
  ℕ, ◌+◌, ◌-◌, ◌*◌, ◌/◌, ◌<◌, ◌≡◌, ◌∙◌, ap, [], ◌∷◌, none, some, get_or, Env, ok, arith, ==_refl,
  inl, inr, Result-cases,
}
use veritasor_contracts.Prelude.Int.{
  ℤ, pos, ◌+ℤ◌, ◌-ℤ◌, ◌*ℤ◌, div_ℤ, checked, checked_pos, i128_mod,
}
use veritasor_contracts.Settlement.Types.{Agreement, Settlements, Transfer}
use veritasor_contracts.Settlement.Calls.{
  add_revenues, repayment, parts, check_period, check_periods, record_periods, pay, settle_multi,
}
use veritasor_contracts.Settlement.Amounts.{last_lem}
use veritasor_contracts.Settlement.Payment.{SameBut, check_period-ok}

-- The last of two parts fits an `i128`.
last_part :
    (m : ℕ)
    → m < i128_mod
    → checked (div_ℤ (pos m) 2 +ℤ (pos m -ℤ div_ℤ (pos m) 2 *ℤ pos 2))
      ≡ some (pos (m / 2 + (m - m / 2 * 2)))
last_part m small =
    ap checked (last_lem m 2) ∙ checked_pos (m / 2 + (m - m / 2 * 2)) (omega (arith, small))

module _ {L : Type 0} where
  -- The period is free for the agreement, and bound to no other token.
  pub record IsOpen (s : Settlements L) (id : ℕ) (a : Agreement) (p : ℕ) : Type 0 where
    pub token : get_or (s.business_period_token a.business p) a.token ≡ a.token
    pub free : s.committed id p ≡ none

  check_period-IsOpen :
      (id p : ℕ) (a : Agreement) (s : Settlements L)
      → IsOpen s id a p
      → (t : Settlements L) × (check_period id a p s ≡ ok (tt, t)) × SameBut s t × IsOpen t id a p
  unfolding check_period
  check_period-IsOpen id p a s o = elim (Result-cases (check_period id a p s)) [
    | inr (bad, f) ↦ absurd (ground (arith, f, o.token, o.free))
    | inl ((u, t), f) ↦
        let (books, unpaid) = check_period-ok id a p s t f in
        let kept : get_or (t.business_period_token a.business p) a.token ≡ a.token =
          ground (arith, f, o.token, o.free) in
        (
          t,
          f,
          books,
          record { token = kept; free = ap (λ c. c id p) books.committed_kept ∙ o.free },
        )
  ]

  check_twice :
      (id p : ℕ) (a : Agreement) (s : Settlements L)
      → IsOpen s id a p
      → (t : Settlements L) × (check_periods id a (p ∷ p ∷ []) s ≡ ok (tt, t)) × SameBut s t
  unfolding check_periods
  check_twice id p a s o =
      let (t, f, books, o') = check_period-IsOpen id p a s o in
      let (u, g, later, o'') = check_period-IsOpen id p a t o' in
      (
        u,
        ground (arith, f, g),
        record {
          agreement_kept = later.agreement_kept ∙ books.agreement_kept;
          committed_kept = later.committed_kept ∙ books.committed_kept;
          ledger_kept = later.ledger_kept ∙ books.ledger_kept;
        },
      )

  -- A call that lists an open period twice returns, is paid for both entries, and leaves for the period
  -- only the amount of the second entry as committed: half of what was paid, rounded up.
  pub settle_multi_duplicate :
      (transfer : Transfer L) (env : Env) (id p m : ℕ) (r q : ℤ) (a : Agreement) (s : Settlements L)
      (paid : L)
      → s.agreement id ≡ some a
      → a.status ≡ 0
      → IsOpen s id a p
      → repayment a (add_revenues (r ∷ q ∷ []) (pos 0)) 2 ≡ pos m
      → 0 < m
      → m < i128_mod
      → transfer a.token a.business a.lender (pos m) s.ledger ≡ some paid
      → (s' : Settlements L) × (settle_multi transfer env id (p ∷ p ∷ []) (r ∷ q ∷ []) s
          ≡ ok (tt, s'))
        × (s'.ledger ≡ paid)
        × (s'.committed id p ≡ some (pos (m - m / 2)))
  unfolding settle_multi record_periods parts
  settle_multi_duplicate transfer env id p m r q a s paid found active o due positive small sent =
      let total = repayment a (add_revenues (r ∷ q ∷ []) (pos 0)) 2 in
      let (t, f, books) = check_twice id p a s o in
      let sent' : transfer a.token a.business a.lender (pos m) t.ledger ≡ some paid =
        ap (transfer a.token a.business a.lender (pos m)) books.ledger_kept ∙ sent in
      let pays : pay transfer a (pos m) t ≡ ok (tt, record t { ledger = paid }) =
        ground (arith, sent', positive) in
      let paying : pay transfer a total t ≡ ok (tt, record t { ledger = paid }) =
        ap (λ x. pay transfer a x t) due ∙ pays in
      let last : checked (div_ℤ total 2 +ℤ (total -ℤ div_ℤ total 2 *ℤ pos 2))
          ≡ some (pos (m / 2 + (m - m / 2 * 2))) =
        ap (λ x. checked (div_ℤ x 2 +ℤ (x -ℤ div_ℤ x 2 *ℤ pos 2))) due ∙ last_part m small in
      elim (Result-cases (settle_multi transfer env id (p ∷ p ∷ []) (r ∷ q ∷ []) s)) [
        | inr (bad, g) ↦ absurd (ground (arith, g, found, active, f, paying, last))
        | inl ((u, s'), g) ↦
            let left : s'.committed id p ≡ some (pos (m / 2 + (m - m / 2 * 2))) =
              ground (arith, g, found, active, f, paying, last, ==_refl id, ==_refl p) in
            (
              s',
              g,
              ground (arith, g, found, active, f, paying, last),
              left ∙ ap (λ x. some (pos x)) (omega arith),
            )
      ]
