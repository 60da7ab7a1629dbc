-- ===== src/Settlement/Histories.antt =====
-- Histories of the settlement contract: what is stored of agreements, and that a commitment stays.
use veritasor_contracts.Prelude.{
  ℕ, ◌≤◌, ◌<◌, ◌≡◌, sym, subst, ◌∙◌, ap, true, List, [], ◌∷◌, none, some, Env, Address, ok, arith,
  store, ◌==◌, Slots, Option-cases, Bool-cases, inl, inr,
}
use veritasor_contracts.Prelude.Int.{ℤ, pos, pos_part, ltb_ℤ, nonneg_of_pos, pos_of_nonneg}
use veritasor_contracts.Settlement.Types.{Agreement, Settlements, Transfer}
use veritasor_contracts.Settlement.Calls.{
  initialize, create_agreement, settle, settle_multi, mark, mark_completed, mark_defaulted,
}
use veritasor_contracts.Settlement.Amounts.{IsAgreement}
use veritasor_contracts.Settlement.Payment.{settle_multi-ok, record_periods_kept}

-- Every stored agreement has a positive cap, and a share of at most the whole.
abbrev pub AreAgreements : Slots Agreement → Type 0
AreAgreements m =
    (id : ℕ) (a : Agreement) → m id ≡ some a → (limit : ℕ) × (0 < limit) × IsAgreement a limit

store-AreAgreements :
    (m m' : Slots Agreement) (id : ℕ) (a : Agreement)
    → m' ≡ store m id a
    → ((limit : ℕ) × (0 < limit) × IsAgreement a limit)
    → AreAgreements m
    → AreAgreements m'
store-AreAgreements m m' id a same new all = subst AreAgreements (sym same) (λ j b found.
    elim (Bool-cases (id == j)) [
      | inl e ↦
          subst (λ x. (limit : ℕ) × (0 < limit) × IsAgreement x limit) (ground (arith, e, found))
            new
      | inr e ↦ all j b (ground (arith, e, found))
    ])

module _ {L : Type 0} (transfer : Transfer L) where
  abbrev pub deployed : L → Settlements L
  deployed l = record {
    admin = none;
    next_agreement_id = none;
    agreement = λ id. none;
    committed = λ id p. none;
    settlement = λ id p. none;
    business_period_token = λ b p. none;
    ledger = l;
  }

  -- A returning call.
  pub data Step (s s' : Settlements L) : Type 0 where
    initializing : (env : Env) (admin : Address) → initialize env admin s ≡ ok (tt, s') → Step s s'
    creating :
        (env : Env) (a : Agreement) (id : ℕ) → create_agreement env a s ≡ ok (id, s') → Step s s'
    settling :
        (env : Env) (id p : ℕ) (r : ℤ) → settle transfer env id p r s ≡ ok (tt, s') → Step s s'
    settling_all :
        (env : Env) (id : ℕ) (ps : List ℕ) (rs : List ℤ)
        → settle_multi transfer env id ps rs s ≡ ok (tt, s')
        → Step s s'
    completing :
        (env : Env) (admin : Address) (id : ℕ)
        → mark_completed env admin id s ≡ ok (tt, s')
        → Step s s'
    defaulting :
        (env : Env) (admin : Address) (id : ℕ)
        → mark_defaulted env admin id s ≡ ok (tt, s')
        → Step s s'

  pub data History (s : Settlements L) : Settlements L → Type 0 where
    start : History s s
    then_step : {t u : Settlements L} → History s t → Step t u → History s u

  pub initialize_kept :
      (env : Env) (admin : Address) (s s' : Settlements L)
      → initialize env admin s ≡ ok (tt, s')
      → (s'.agreement ≡ s.agreement) × (s'.committed ≡ s.committed)
  unfolding initialize
  initialize_kept env admin s s' h = (ground arith, ground arith)

  pub create_agreement-ok :
      (env : Env) (a : Agreement) (id : ℕ) (s s' : Settlements L)
      → create_agreement env a s ≡ ok (id, s')
      → (ltb_ℤ (pos 0) a.max_repayment_amount ≡ true)
        × (a.revenue_share_bps ≤ 10000)
        × (s'.agreement
            ≡ store s.agreement id (record a { id = id; status = 0; created_at = env.timestamp }))
        × (s'.committed ≡ s.committed)
  unfolding create_agreement
  create_agreement-ok env a id s s' h = (ground arith, ground arith, ground arith, ground arith)

  pub mark-ok :
      (status : ℕ) (env : Env) (admin : Address) (id : ℕ) (s s' : Settlements L)
      → mark status env admin id s ≡ ok (tt, s')
      → (a : Agreement) × (s.agreement id ≡ some a)
        × (s'.agreement ≡ store s.agreement id (record a { status = status }))
        × (s'.committed ≡ s.committed)
  unfolding mark
  mark-ok status env admin id s s' h = elim (Option-cases s.admin) [
    | inl e ↦ absurd (ground (arith, e))
    | inr (stored, e) ↦ elim (Option-cases (s.agreement id)) [
      | inl f ↦ absurd (ground (arith, e, f))
      | inr (a, f) ↦ (a, f, ground (arith, e, f), ground (arith, e, f))
    ]
  ]

  settled_kept :
      (env : Env) (id : ℕ) (ps : List ℕ) (rs : List ℤ) (s s' : Settlements L)
      → settle_multi transfer env id ps rs s ≡ ok (tt, s')
      → s'.agreement ≡ s.agreement
  settled_kept env id ps rs s s' h =
      let d = settle_multi-ok transfer env id ps rs s s' h in
      let (agreements, ledgers, others) = record_periods_kept env id ps rs d.amounts d.paid in
      ap (λ x. x.agreement) d.recorded ∙ agreements ∙ d.agreement_kept

  mark-AreAgreements :
      (status : ℕ) (env : Env) (admin : Address) (id : ℕ) (s s' : Settlements L)
      → mark status env admin id s ≡ ok (tt, s')
      → AreAgreements s.agreement
      → AreAgreements s'.agreement
  mark-AreAgreements status env admin id s s' h all =
      let (a, found, stored, kept) = mark-ok status env admin id s s' h in
      let (limit, positive, v) = all id a found in
      store-AreAgreements s.agreement s'.agreement id (record a { status = status }) stored
        (limit, positive, record { capped = v.capped; within = v.within }) all

  Step-AreAgreements :
      (s s' : Settlements L) → Step s s' → AreAgreements s.agreement → AreAgreements s'.agreement
  unfolding settle
  Step-AreAgreements s s' (initializing env admin h) all =
      subst AreAgreements (sym (initialize_kept env admin s s' h).0) all
  Step-AreAgreements s s' (creating env a id h) all =
      let (positive, share, stored, kept) = create_agreement-ok env a id s s' h in
      let sign = nonneg_of_pos a.max_repayment_amount (ground (arith, positive)) in
      store-AreAgreements s.agreement s'.agreement id
        (record a { id = id; status = 0; created_at = env.timestamp }) stored
        (
          pos_part a.max_repayment_amount,
          ground (arith, positive, sign),
          record { capped = pos_of_nonneg a.max_repayment_amount sign; within = share },
        )
        all
  Step-AreAgreements s s' (settling env id p r h) all =
      subst AreAgreements (sym (settled_kept env id (p ∷ []) (r ∷ []) s s' h)) all
  Step-AreAgreements s s' (settling_all env id ps rs h) all =
      subst AreAgreements (sym (settled_kept env id ps rs s s' h)) all
  Step-AreAgreements s s' (completing env admin id h) all =
      mark-AreAgreements 1 env admin id s s' h all
  Step-AreAgreements s s' (defaulting env admin id h) all =
      mark-AreAgreements 2 env admin id s s' h all

  pub History-AreAgreements :
      (l : L) (s : Settlements L) → History (deployed l) s → AreAgreements s.agreement
  History-AreAgreements l s start = λ id a found. absurd (ground arith)
  History-AreAgreements l s (then_step {t} past st) =
      Step-AreAgreements t s st (History-AreAgreements l t past)
