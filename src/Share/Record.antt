-- ===== src/Share/Record.antt =====
-- What a returning distribution did.
use veritasor_contracts.Prelude.{
  ℕ, ◌+◌, ◌≡◌, refl, sym, ◌∙◌, ap, true, false, ◌&&◌, List, Option, none, some, get_or, Env,
  Address, ok, arith, store, is_some, ◌==◌, if◌then◌else◌, Option-cases, Result-cases, inl, inr,
}
use veritasor_contracts.Prelude.Int.{ℤ}
use veritasor_contracts.Replay.{verify_and_increment_nonce}
use veritasor_contracts.Share.Types.{
  Period, Stakeholder, DistributionRecord, Share, Token, Attestations,
}
use veritasor_contracts.Share.Calls.{
  channel_distribute, to_be_bytes, same_period, divide, assert_revenue_attested, pay_all,
  distribute_revenue,
}

-- The records with one more.
abbrev pub add_record :
    (Address → Period → Option DistributionRecord)
    → Address
    → Period
    → DistributionRecord
    → Address
    → Period
    → Option DistributionRecord
add_record records business period r b p =
    if (business == b) && same_period period p then some r else records b p

-- The attestation contract has an attestation of just this revenue, neither revoked nor expired.
pub record IsAttested (sha256 : List ℕ → ℕ) (attestations : Attestations)
    (contract business : Address) (period : Period) (revenue : ℤ) : Type 0 where
  pub bound : attestations.root contract business period ≡ some (sha256 (to_be_bytes revenue))
  pub valid : attestations.is_revoked contract business period ≡ false
  pub current : attestations.is_expired contract business period ≡ false

fresh : {A : Type 0} (o : Option A) → is_some o ≡ false → o ≡ none
fresh none h = refl
fresh (some a) h = absurd (ground arith)

module _ {L : Type 0} (sha256 : List ℕ → ℕ) (attestations : Attestations) where
  assert_revenue_attested-ok :
      (contract business : Address) (period : Period) (revenue : ℤ) (s s' : Share L)
      → assert_revenue_attested sha256 attestations contract business period revenue s ≡ ok (tt, s')
      → IsAttested sha256 attestations contract business period revenue × (s' ≡ s)
  unfolding assert_revenue_attested
  assert_revenue_attested-ok contract business period revenue s s' h =
      elim (Option-cases (attestations.root contract business period)) [
        | inl e ↦ absurd (ground (arith, e))
        | inr (root, e) ↦
            let same : sha256 (to_be_bytes revenue) ≡ root = ground (arith, e) in
            (
              record {
                bound = e ∙ ap some (sym same);
                valid = ground (arith, e);
                current = ground (arith, e);
              },
              ground (arith, e),
            )
      ]

  module _ (token : Token L) where
    -- The effects of a returning distribution.
    pub record Distributed (env : Env) (business : Address) (period : Period) (revenue : ℤ)
        (s s' : Share L) : Type 0 where
      pub stakeholders : List Stakeholder
      pub amounts : List ℤ
      pub contract : Address
      pub currency : Address
      pub configured : s.stakeholders ≡ some stakeholders
      pub divided : divide revenue stakeholders ≡ ok amounts
      pub signed : env.authorized business ≡ true
      pub first_time : s.distribution business period ≡ none
      pub known : s.attestation_contract ≡ some contract
      pub attested : IsAttested sha256 attestations contract business period revenue
      pub in_token : s.token ≡ some currency
      pub paid : pay_all token currency business stakeholders amounts s.ledger ≡ some s'.ledger
      pub recorded :
          s'.distribution
          ≡ add_record s.distribution business period
              (record { total_amount = revenue; timestamp = env.timestamp; amounts = amounts })
      pub counted :
          s'.distribution_count
          ≡ store s.distribution_count business (get_or (s.distribution_count business) 0 + 1)
      pub kept : s'.stakeholders ≡ s.stakeholders

    pub distribute_revenue-ok :
        (env : Env) (business : Address) (period : Period) (revenue : ℤ) (nonce : ℕ)
        (s s' : Share L)
        → distribute_revenue sha256 attestations token env business period revenue nonce s
          ≡ ok (tt, s')
        → Distributed env business period revenue s s'
    unfolding distribute_revenue
    distribute_revenue-ok env business period revenue nonce s s' h =
        elim (Option-cases s.attestation_contract) [
          | inl e ↦ absurd (ground (arith, e))
          | inr (contract, e) ↦
              elim (Result-cases
                (assert_revenue_attested sha256 attestations contract business period revenue s)) [
                  | inr (bad, f) ↦ absurd (ground (arith, e, f))
                  | inl ((u, t), f) ↦ elim (Option-cases t.stakeholders) [
                    | inl g ↦ absurd (ground (arith, e, f, g))
                    | inr (xs, g) ↦ elim (Result-cases (divide revenue xs)) [
                      | inr (bad, k) ↦ absurd (ground (arith, e, f, g, k))
                      | inl (amounts, k) ↦ elim (Option-cases t.token) [
                        | inl c ↦ absurd (ground (arith, e, f, g, k, c))
                        | inr (currency, c) ↦
                            elim (Result-cases (
                              verify_and_increment_nonce business channel_distribute nonce
                                t.nonces)) [
                                  | inr (bad, n) ↦ absurd (ground (arith, e, f, g, k, c, n))
                                  | inl ((u', nonces), n) ↦
                                      elim (Option-cases
                                        (pay_all token currency business xs amounts t.ledger)) [
                                          | inl p ↦ absurd (ground (arith, e, f, g, k, c, n, p))
                                          | inr (ledger, p) ↦
                                              let (attested, same) =
                                                assert_revenue_attested-ok contract business period
                                                  revenue s t f in
                                              let g' : s.stakeholders ≡ some xs =
                                                ap (λ x. x.stakeholders) (sym same) ∙ g in
                                              record {
                                                stakeholders = xs;
                                                amounts = amounts;
                                                contract = contract;
                                                currency = currency;
                                                configured = g';
                                                divided = k;
                                                signed = ground (arith, e, f, g, k, c, n, p);
                                                first_time =
                                                    fresh (s.distribution business period)
                                                      (ground (arith, e, f, g, k, c, n, p));
                                                known = e;
                                                attested = attested;
                                                in_token = ap (λ x. x.token) (sym same) ∙ c;
                                                paid =
                                                    ap
                                                      (λ x.
                                                        pay_all token currency business xs amounts
                                                          x.ledger)
                                                      (sym same)
                                                    ∙ p
                                                    ∙ ap some (ground (arith, e, f, g, k, c, n, p));
                                                recorded =
                                                    ground (arith, e, f, g, k, c, n, p, same);
                                                counted = ground (arith, e, f, g, k, c, n, p, same);
                                                kept = ground (arith, e, f, g, k, c, n, p, same);
                                              }
                                        ]
                                ]
                      ]
                    ]
                  ]
                ]
        ]
