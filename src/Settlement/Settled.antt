-- ===== src/Settlement/Settled.antt =====
-- What a settlement pays and records, and that what is committed stays and is not settled again.
use veritasor_contracts.Prelude.{
  ℕ, zero, suc, ◌+◌, ◌-◌, ◌/◌, ◌*◌, ◌≤◌, ◌<◌, ◌≡◌, refl, sym, ◌∙◌, ap, List, [], ◌∷◌, map, sum,
  length, Distinct, some, Env, ok, arith,
}
use veritasor_contracts.Prelude.Int.{ℤ, pos, pos_part, ◌+ℤ◌, ◌-ℤ◌, ◌*ℤ◌, div_ℤ, checked}
use veritasor_contracts.Settlement.Types.{Agreement, Settlements, Transfer}
use veritasor_contracts.Settlement.Calls.{add_revenues, parts, settle_multi}
use veritasor_contracts.Settlement.Amounts.{
  repayment-le, amounts_of, equal_parts, sum-amounts_of, parts-amounts_of,
}
use veritasor_contracts.Settlement.Payment.{settle_multi-ok, record_periods-committed, ledger_after}
use veritasor_contracts.Settlement.Histories.{deployed, History, History-AreAgreements}

length-equal_parts : (part last n : ℕ) → length (equal_parts part last n) ≡ n
length-equal_parts part last zero = refl
length-equal_parts part last (suc zero) = omega arith
length-equal_parts part last (suc (suc n)) = omega (arith, length-equal_parts part last (suc n))

length-map : {A B : Type 0} (f : A → B) (xs : List A) → length (map f xs) ≡ length xs
length-map f [] = refl
length-map f (x ∷ xs) = omega (arith, length-map f xs)

sum-amounts_of-positive : (m n : ℕ) → 0 < n → sum (amounts_of m n) ≡ m
sum-amounts_of-positive m zero h = absurd (omega arith)
sum-amounts_of-positive m (suc n) h = sum-amounts_of m n

module _ {L : Type 0} (transfer : Transfer L) where
  -- A returning settlement of different periods, after every history: the agreement was active, the
  -- business pays the lender one amount, if it is positive; it is at most the cap for as many periods
  -- and at most the agreed share of the summed revenue, and the amounts committed for the periods, in
  -- their order, are its equal parts, the last with the remainder, which sum to it.
  pub settle_multi_pays :
      (l : L) (env : Env) (id : ℕ) (ps : List ℕ) (rs : List ℤ) (s s' : Settlements L)
      → History transfer (deployed transfer l) s
      → settle_multi transfer env id ps rs s ≡ ok (tt, s')
      → Distinct ps
      → (a : Agreement) × (limit : ℕ) × (m : ℕ) × (s.agreement id ≡ some a)
        × (a.status ≡ 0)
        × (a.max_repayment_amount ≡ pos limit)
        × (ledger_after transfer a (pos m) s.ledger ≡ some s'.ledger)
        × (m ≤ limit * length ps)
        × (m * 10000 ≤ pos_part (add_revenues rs (pos 0)) * a.revenue_share_bps)
        × (map (λ p. s'.committed id p) ps ≡ map some (map pos (amounts_of m (length ps))))
        × (sum (amounts_of m (length ps)) ≡ m)
  settle_multi_pays l env id ps rs s s' past h apart =
      let d = settle_multi-ok transfer env id ps rs s s' h in
      let (limit, positive, v) = History-AreAgreements transfer l s past id d.agreement d.found in
      let (total, is_total, fits, parted, sent) = d.payment in
      let (m, due, capped, shared) =
        repayment-le d.agreement limit (length ps) (add_revenues rs (pos 0)) v in
      let whole : total ≡ pos m = is_total ∙ due in
      let amounts : d.amounts ≡ map pos (amounts_of m (length ps)) =
        parted
        ∙ ap (λ x. parts (div_ℤ x (length ps)) d.last (length ps)) whole
        ∙ parts-amounts_of m (length ps) d.last d.some_period (
            ap (λ x. checked (div_ℤ x (length ps) +ℤ (x -ℤ div_ℤ x (length ps) *ℤ pos (length ps))))
              (sym whole)
            ∙ fits) in
      let as_many : length ps ≡ length d.amounts = sym (
        ap length amounts
        ∙ length-map pos (amounts_of m (length ps))
        ∙ length-equal_parts (m / length ps) (m / length ps + (m - m / length ps * length ps))
            (length ps)) in
      let books = record_periods-committed env id ps rs d.amounts d.paid apart d.as_many as_many in
      (
        d.agreement,
        limit,
        m,
        d.found,
        d.active,
        v.capped,
        ap (λ x. ledger_after transfer d.agreement x s.ledger) (sym whole) ∙ sent,
        capped,
        shared,
        ap (λ x. map (λ p. x.committed id p) ps) d.recorded ∙ books ∙ ap (map some) amounts,
        sum-amounts_of-positive m (length ps) d.some_period,
      )
