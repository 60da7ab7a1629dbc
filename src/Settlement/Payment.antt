-- ===== src/Settlement/Payment.antt =====
-- What a returning settlement paid and recorded.
use veritasor_contracts.Prelude.{
  ℕ, ◌<◌, ◌≡◌, ◌⊎◌, refl, sym, subst, ◌∙◌, ap, true, false, ◌&&◌, List, [], ◌∷◌, map, length,
  contains, Distinct, Option, some, get_or, Env, ok, arith, ◌==◌, ==_refl, if◌then◌else◌,
  Option-cases, Result-cases, Bool-cases, inl, inr,
}
use veritasor_contracts.Prelude.Int.{ℤ, pos, ◌+ℤ◌, ◌-ℤ◌, ◌*ℤ◌, div_ℤ, ltb_ℤ, eq_ℤ, checked}
use veritasor_contracts.Settlement.Types.{Agreement, Settlements, Transfer}
use veritasor_contracts.Settlement.Calls.{
  add_revenues, repayment, parts, check_period, check_periods, record_period, record_periods, pay,
  settle_multi,
}

module _ {L : Type 0} where
  -- The storage with other tokens of periods.
  pub record SameBut (s s' : Settlements L) : Type 0 where
    pub agreement_kept : s'.agreement ≡ s.agreement
    pub committed_kept : s'.committed ≡ s.committed
    pub ledger_kept : s'.ledger ≡ s.ledger

  -- Nothing, or zero, is committed for the period.
  abbrev pub IsFree : Settlements L → ℕ → ℕ → Type 0
  IsFree s id p = eq_ℤ (get_or (s.committed id p) (pos 0)) (pos 0) ≡ true

  pub check_period-ok :
      (id : ℕ) (a : Agreement) (p : ℕ) (s s' : Settlements L)
      → check_period id a p s ≡ ok (tt, s')
      → SameBut s s' × IsFree s id p
  unfolding check_period
  check_period-ok id a p s s' h = (
    record {
      agreement_kept = ground arith;
      committed_kept = ground arith;
      ledger_kept = ground arith;
    },
    ground arith,
  )

  -- The checks leave the books alone, and found nothing committed for any period.
  pub check_periods-ok :
      (id : ℕ) (a : Agreement) (ps : List ℕ) (s s' : Settlements L)
      → check_periods id a ps s ≡ ok (tt, s')
      → SameBut s s' × ((p : ℕ) → (contains ps p ≡ false) ⊎ IsFree s id p)
  unfolding check_periods
  check_periods-ok id a [] s s' h = (
    record {
      agreement_kept = ground arith;
      committed_kept = ground arith;
      ledger_kept = ground arith;
    },
    λ p. inl refl,
  )
  check_periods-ok id a (p ∷ ps) s s' h = elim (Result-cases (check_period id a p s)) [
    | inr (bad, f) ↦ absurd (ground (arith, f))
    | inl ((u, t), f) ↦
        let (first, free) = check_period-ok id a p s t f in
        let (rest, others) = check_periods-ok id a ps t s' (ground (arith, f)) in
        (
          record {
            agreement_kept = rest.agreement_kept ∙ first.agreement_kept;
            committed_kept = rest.committed_kept ∙ first.committed_kept;
            ledger_kept = rest.ledger_kept ∙ first.ledger_kept;
          },
          λ q. elim (Bool-cases (p == q)) [
            | inl e ↦ inr (subst (λ x. IsFree s id x) (ground (arith, e)) free)
            | inr e ↦ elim (others q) [
              | inl absent ↦ inl (ground (arith, e, absent))
              | inr unpaid ↦ inr (
                  subst (λ c. eq_ℤ (get_or (c id q) (pos 0)) (pos 0) ≡ true) first.committed_kept
                    unpaid)
            ]
          ],
        )
  ]

  -- The records of some periods change the commitments of these periods only.
  pub record_periods_kept :
      (env : Env) (id : ℕ) (ps : List ℕ) (rs amounts : List ℤ) (s : Settlements L)
      → ((record_periods env id ps rs amounts s).agreement ≡ s.agreement)
        × ((record_periods env id ps rs amounts s).ledger ≡ s.ledger)
        × ((b q : ℕ)
            → (id == b) && contains ps q ≡ false
            → (record_periods env id ps rs amounts s).committed b q ≡ s.committed b q)
  unfolding record_periods
  record_periods_kept env id [] rs amounts s = (refl, refl, λ b q h. refl)
  record_periods_kept env id (p ∷ ps) [] amounts s = (refl, refl, λ b q h. refl)
  record_periods_kept env id (p ∷ ps) (r ∷ rs) [] s = (refl, refl, λ b q h. refl)
  record_periods_kept env id (p ∷ ps) (r ∷ rs) (x ∷ amounts) s =
      let (agreements, ledgers, others) =
        record_periods_kept env id ps rs amounts (record_period env id p r x s) in
      (agreements, ledgers, λ b q h. others b q (ground (arith, h)) ∙ ground (arith, h))

  -- For different periods the commitments are the amounts, in their order.
  pub record_periods-committed :
      (env : Env) (id : ℕ) (ps : List ℕ) (rs amounts : List ℤ) (s : Settlements L)
      → Distinct ps
      → length ps ≡ length rs
      → length ps ≡ length amounts
      → map (λ p. (record_periods env id ps rs amounts s).committed id p) ps ≡ map some amounts
  unfolding record_periods
  record_periods-committed env id [] rs [] s apart m n = refl
  record_periods-committed env id [] rs (x ∷ amounts) s apart m n = absurd (ground arith)
  record_periods-committed env id (p ∷ ps) [] amounts s apart m n = absurd (ground arith)
  record_periods-committed env id (p ∷ ps) (r ∷ rs) [] s apart m n = absurd (ground arith)
  record_periods-committed env id (p ∷ ps) (r ∷ rs) (x ∷ amounts) s apart m n =
      let t = record_period env id p r x s in
      let (agreements, ledgers, others) = record_periods_kept env id ps rs amounts t in
      let rest =
        record_periods-committed env id ps rs amounts t apart.1 (omega (arith, m))
          (omega (arith, n)) in
      let first : (record_periods env id ps rs amounts t).committed id p ≡ some x =
        others id p (ground (arith, apart.0)) ∙ ground (arith, ==_refl id, ==_refl p) in
      ap (λ y. y ∷ map (λ q. (record_periods env id ps rs amounts t).committed id q) ps) first
      ∙ ap (λ ys. some x ∷ ys) rest

  -- The tokens' ledger after the payment of an amount, if it is positive.
  abbrev pub ledger_after : Transfer L → Agreement → ℤ → L → Option L
  ledger_after transfer a total l =
      if ltb_ℤ (pos 0) total then transfer a.token a.business a.lender total l else some l

  pay-ok :
      (transfer : Transfer L) (a : Agreement) (total : ℤ) (s s' : Settlements L)
      → pay transfer a total s ≡ ok (tt, s')
      → (ledger_after transfer a total s.ledger ≡ some s'.ledger)
        × (s'.agreement ≡ s.agreement)
        × (s'.committed ≡ s.committed)
  pay-ok transfer a total s s' h = elim (Bool-cases (ltb_ℤ (pos 0) total)) [
    | inr idle ↦ (ground (arith, idle), ground (arith, idle), ground (arith, idle))
    | inl owed ↦ elim (Option-cases (transfer a.token a.business a.lender total s.ledger)) [
      | inl f ↦ absurd (ground (arith, owed, f))
      | inr (l, f) ↦ (ground (arith, owed, f), ground (arith, owed, f), ground (arith, owed, f))
    ]
  ]

  -- What a returning settlement did, with the amounts that it recorded.
  pub record Settled (transfer : Transfer L) (env : Env) (id : ℕ) (ps : List ℕ) (rs : List ℤ)
      (s s' : Settlements L) : Type 0 where
    pub agreement : Agreement
    pub amounts : List ℤ
    pub last : ℤ
    pub paid : Settlements L
    pub some_period : 0 < length ps
    pub as_many : length ps ≡ length rs
    pub found : s.agreement id ≡ some agreement
    pub active : agreement.status ≡ 0
    pub free : (p : ℕ) → (contains ps p ≡ false) ⊎ IsFree s id p
    pub payment :
        (total : ℤ) × (total ≡ repayment agreement (add_revenues rs (pos 0)) (length ps))
        × (checked
              (div_ℤ total (length ps) +ℤ (total -ℤ div_ℤ total (length ps) *ℤ pos (length ps)))
            ≡ some last)
        × (amounts ≡ parts (div_ℤ total (length ps)) last (length ps))
        × (ledger_after transfer agreement total s.ledger ≡ some s'.ledger)
    pub agreement_kept : paid.agreement ≡ s.agreement
    pub committed_kept : paid.committed ≡ s.committed
    pub recorded : s' ≡ record_periods env id ps rs amounts paid

  pub settle_multi-ok :
      (transfer : Transfer L) (env : Env) (id : ℕ) (ps : List ℕ) (rs : List ℤ)
      (s s' : Settlements L)
      → settle_multi transfer env id ps rs s ≡ ok (tt, s')
      → Settled transfer env id ps rs s s'
  unfolding settle_multi
  settle_multi-ok transfer env id ps rs s s' h = elim (Option-cases (s.agreement id)) [
    | inl e ↦ absurd (ground (arith, e))
    | inr (a, e) ↦ elim (Result-cases (check_periods id a ps s)) [
      | inr (bad, f) ↦ absurd (ground (arith, e, f))
      | inl ((u, t), f) ↦
          let (books, free) = check_periods-ok id a ps s t f in
          let total = repayment a (add_revenues rs (pos 0)) (length ps) in
          let part = div_ℤ total (length ps) in
          elim (Result-cases (pay transfer a total t)) [
            | inr (bad, g) ↦ absurd (ground (arith, e, f, g))
            | inl ((v, w), g) ↦
                elim (Option-cases (checked (part +ℤ (total -ℤ part *ℤ pos (length ps))))) [
                  | inl k ↦ absurd (ground (arith, e, f, g, k))
                  | inr (last, k) ↦
                      let (sent, agreements, commitments) = pay-ok transfer a total t w g in
                      let amounts = parts part last (length ps) in
                      let result : s' ≡ record_periods env id ps rs amounts w =
                        ground (arith, e, f, g, k) in
                      let (same, ledgers, others) = record_periods_kept env id ps rs amounts w in
                      record {
                        agreement = a;
                        amounts = amounts;
                        last = last;
                        paid = w;
                        some_period = ground (arith, e, f, g, k);
                        as_many = ground (arith, e, f, g, k);
                        found = e;
                        active = ground (arith, e, f, g, k);
                        free = free;
                        payment = (
                          total,
                          refl,
                          k,
                          refl,
                          ap (ledger_after transfer a total) (sym books.ledger_kept)
                              ∙ sent
                              ∙ ap some (sym (ap (λ x. x.ledger) result ∙ ledgers)),
                        );
                        agreement_kept = agreements ∙ books.agreement_kept;
                        committed_kept = commitments ∙ books.committed_kept;
                        recorded = result;
                      }
                ]
          ]
    ]
  ]
