-- ===== src/Settlement/Examples.antt =====
-- A settlement of two periods, and the theorems at its states.
use veritasor_contracts.Prelude.{
  ℕ, ◌-◌, ◌*◌, ◌/◌, ◌≤◌, ◌≡◌, refl, true, List, [], ◌∷◌, map, sum, length, none, some, Env, ok, err,
  settle, arith, leb, if◌then◌else◌,
}
use veritasor_contracts.Prelude.Int.{saturated, ℤ, pos, pos_part, ◌*ℤ◌, ◌+ℤ◌, ◌-ℤ◌, div_ℤ}
use veritasor_contracts.Settlement.Types.{Agreement, Settlements, Transfer, already_committed}
use veritasor_contracts.Settlement.Calls.{
  add_revenues, share_of, repayment, parts, initialize, create_agreement, check_period,
  check_periods, record_periods, settle_multi,
}
use veritasor_contracts.Settlement.Amounts.{amounts_of}
use veritasor_contracts.Settlement.Payment.{ledger_after}
use veritasor_contracts.Settlement.Histories.{
  deployed, initializing, creating, History, start, then_step,
}
use veritasor_contracts.Settlement.Settled.{settle_multi_pays}
use veritasor_contracts.Settlement.Duplicate.{settle_multi_duplicate}

-- The tokens' ledger is the balance of the business.
abbrev bank : Transfer ℕ
bank token from to amount held =
    if leb (pos_part amount) held then some (held - pos_part amount) else none

abbrev at : ℕ → Env
at n = record { timestamp = n; sequence = 0; authorized = λ a. true; current_contract = 99 }

program : Unit {0}
unfolding saturated add_revenues share_of repayment parts initialize create_agreement check_period
    check_periods record_periods settle_multi ◌*ℤ◌ ◌+ℤ◌ ◌-ℤ◌ div_ℤ
program = tt

abbrev loan : Agreement
loan = record {
  id = 0;
  lender = 3;
  business = 5;
  principal = pos 100000;
  revenue_share_bps = 500;
  min_revenue_threshold = pos 100;
  max_repayment_amount = pos 800;
  attestation_contract = 20;
  token = 60;
  status = 0;
  created_at = 2;
}

abbrev s1 : Settlements ℕ
s1 = settle (deployed bank 5000) (initialize (at 1) 1 (deployed bank 5000))

abbrev s2 : Settlements ℕ
s2 = settle s1 (create_agreement (at 2) loan s1)

abbrev months : List ℕ
months = 202601 ∷ 202602 ∷ []

abbrev revenues : List ℤ
revenues = pos 10000 ∷ pos 10021 ∷ []

abbrev s3 : Settlements ℕ
s3 = settle s2 (settle_multi bank (at 3) 0 months revenues s2)

abbrev s4 : Settlements ℕ
s4 = settle s3 (settle_multi bank (at 4) 0 (202603 ∷ []) (pos 40000 ∷ []) s3)

h2 : History bank (deployed bank 5000) s2
unfolding program
h2 = then_step (then_step start (initializing (at 1) 1 refl)) (creating (at 2) loan 0 refl)

-- 5% of 20021 is 1001, in parts of 500 and 501; 5% of 40000 is more than the cap of 800.
paid_out :
    (s3.ledger ≡ 3999)
    × (s3.committed 0 202601 ≡ some (pos 500))
    × (s3.committed 0 202602 ≡ some (pos 501))
    × (s4.ledger ≡ 3199)
    × (settle_multi bank (at 5) 0 (202602 ∷ []) (pos 10021 ∷ []) s4 ≡ err already_committed)
unfolding program
paid_out = (refl, refl, refl, refl, refl)

abbrev early_1 : Settlements ℕ
early_1 = settle (deployed bank 5000) (create_agreement (at 2) loan (deployed bank 5000))

abbrev early_2 : Settlements ℕ
early_2 = settle early_1 (initialize (at 2) 1 early_1)

-- The first agreement after the initialisation takes the place of one that was created before it.
overwritten :
    (early_2.agreement 0 ≡ some loan)
    × ((settle early_2
            (create_agreement (at 2) (record loan { principal = pos 7 }) early_2)).agreement
          0
        ≡ some (record loan { principal = pos 7 }))
unfolding program
overwritten = (refl, refl)

settle_multi_pays_example :
    (a : Agreement) × (limit : ℕ) × (m : ℕ) × (s2.agreement 0 ≡ some a)
    × (a.status ≡ 0)
    × (a.max_repayment_amount ≡ pos limit)
    × (ledger_after bank a (pos m) s2.ledger ≡ some s3.ledger)
    × (m ≤ limit * length months)
    × (m * 10000 ≤ pos_part (add_revenues revenues (pos 0)) * a.revenue_share_bps)
    × (map (λ p. s3.committed 0 p) months ≡ map some (map pos (amounts_of m (length months))))
    × (sum (amounts_of m (length months)) ≡ m)
unfolding program
settle_multi_pays_example =
    settle_multi_pays bank 5000 (at 3) 0 months revenues s2 s3 h2 refl (refl, (refl, tt))

settle_multi_duplicate_example :
    (s' : Settlements ℕ) × (settle_multi bank (at 3) 0 (7 ∷ 7 ∷ []) (pos 10000 ∷ pos 10000 ∷ []) s2
      ≡ ok (tt, s'))
    × (s'.ledger ≡ 4000)
    × (s'.committed 0 7 ≡ some (pos (1000 - 1000 / 2)))
unfolding program
settle_multi_duplicate_example =
    settle_multi_duplicate bank (at 3) 0 7 1000 (pos 10000) (pos 10000) loan s2 4000 refl refl
      (record { token = refl; free = refl }) refl (omega arith) (omega arith) refl
