-- ===== src/Share/Books.antt =====
-- What the books of the share contract show after every history of calls.
use veritasor_contracts.Prelude.{
  ℕ, ◌<◌, ◌≡◌, refl, some_injective, sym, subst, ◌∙◌, ap, true, List, [], ◌∷◌, map, length, none,
  some, get_or, Env, Address, Result, ok, arith, sum, is_some, ==_refl,
}
use veritasor_contracts.Prelude.Int.{ℤ, pos}
use veritasor_contracts.Share.Types.{Error, Period, Stakeholder, Share, Token, Attestations}
use veritasor_contracts.Share.Calls.{pay_all, configure_stakeholders, distribute_revenue}
use veritasor_contracts.Share.Configured.{IsConfigured, configure_stakeholders-ok}
use veritasor_contracts.Share.Record.{IsAttested, Distributed, distribute_revenue-ok}
use veritasor_contracts.Share.Histories.{
  Made, same_period_refl, has_made, count_made, IsOnce, not_made, deployed, SameBooks, Quiet,
  Quiet-SameBooks,
}
use veritasor_contracts.Share.Floor.{split, residual_of, residual_bounded, sum-split, length-split}
use veritasor_contracts.Share.Payments.{Payments, address_of, pay_all-Payments}
use veritasor_contracts.Share.Split.{IsSmall, divide_lem}

module _ {L : Type 0} (token : Token L) (l : L) where
  -- Calls from the deployment, with the distributions that they made, the latest first.
  pub data History : List Made → Share L → Type 0 where
    start : History [] (deployed l)
    quietly : {log : List Made} {s s' : Share L} → History log s → Quiet s s' → History log s'
    configuring :
        {log : List Made} {s s' : Share L} (env : Env) (nonce : ℕ) (xs : List Stakeholder)
        → History log s
        → configure_stakeholders env nonce xs s ≡ ok (tt, s')
        → History log s'
    distributing :
        {log : List Made} {s s' : Share L} (sha256 : List ℕ → ℕ) (attestations : Attestations)
        (env : Env) (business : Address) (period : Period) (revenue : ℤ) (nonce : ℕ)
        → History log s
        → distribute_revenue sha256 attestations token env business period revenue nonce s
          ≡ ok (tt, s')
        → History (record { business = business; period = period } ∷ log) s'

ok_injective : {A : Type 0} (a b : A) → ◌≡◌ {A = Result Error A} (ok a) (ok b) → a ≡ b
ok_injective a b e = ground (arith, e)

-- The books show just the distributions of the log.
pub record IsBooked {L : Type 0} (log : List Made) (s : Share L) : Type 0 where
  pub counted : (b : Address) → get_or (s.distribution_count b) 0 ≡ count_made b log
  pub recorded : (b : Address) (p : Period) → is_some (s.distribution b p) ≡ has_made b p log
  pub once : IsOnce log

module _ {L : Type 0} where
  SameBooks-IsBooked :
      (log : List Made) (s s' : Share L) → SameBooks s s' → IsBooked log s → IsBooked log s'
  SameBooks-IsBooked log s s' k b = record {
    counted = λ a. ap (λ f. get_or (f a) 0) k.counts_kept ∙ b.counted a;
    recorded = λ a p. ap (λ f. is_some (f a p)) k.records_kept ∙ b.recorded a p;
    once = b.once;
  }

  module _ (sha256 : List ℕ → ℕ) (attestations : Attestations) (token : Token L) where
    Distributed-IsBooked :
        (env : Env) (business : Address) (period : Period) (revenue : ℤ) (log : List Made)
        (s s' : Share L)
        → Distributed sha256 attestations token env business period revenue s s'
        → IsBooked log s
        → IsBooked (record { business = business; period = period } ∷ log) s'
    Distributed-IsBooked env business period revenue log s s' d b = record {
      counted =
          λ a. ap (λ f. get_or (f a) 0) d.counted ∙ ground (arith, b.counted a, b.counted business);
      recorded = λ a p. ap (λ f. is_some (f a p)) d.recorded ∙ ground (arith, b.recorded a p);
      once = (
        not_made (record { business = business; period = period }) log
            (sym (b.recorded business period) ∙ ap is_some d.first_time),
        b.once,
      );
    }

module _ {L : Type 0} (token : Token L) (l : L) where
  -- After every history of calls the books refine the list of the distributions made: a business's
  -- counter is the number of its distributions, there is a record for exactly the business and period
  -- of each, and no business and period was distributed twice.
  pub distributions_refine :
      (log : List Made) (s : Share L)
      → History token l log s
      → ((b : Address) → get_or (s.distribution_count b) 0 ≡ count_made b log)
        × ((b : Address) (p : Period) → is_some (s.distribution b p) ≡ has_made b p log)
        × IsOnce log
  distributions_refine log s past =
      let b = History-IsBooked log s past in (b.counted, b.recorded, b.once)
    where
      History-IsBooked : (log : List Made) (s : Share L) → History token l log s → IsBooked log s
      History-IsBooked log s start = record {
        counted = λ b. refl;
        recorded = λ b p. refl;
        once = tt;
      }
      History-IsBooked log s (quietly {s = t} past q) =
          SameBooks-IsBooked log t s (Quiet-SameBooks t s q) (History-IsBooked log t past)
      History-IsBooked log s (configuring {s = t} env nonce xs past h) =
          let (good, stored, records, counts) = configure_stakeholders-ok env nonce xs t s h in
          let b = History-IsBooked log t past in
          record {
            counted = λ a. ap (λ f. get_or (f a) 0) counts ∙ b.counted a;
            recorded = λ a p. ap (λ f. is_some (f a p)) records ∙ b.recorded a p;
            once = b.once;
          }
      History-IsBooked log s
            (distributing {log = old} {s = t} sha256 attestations env business period revenue nonce
              past h) =
          Distributed-IsBooked sha256 attestations token env business period revenue old t s
            (distribute_revenue-ok sha256 attestations token env business period revenue nonce t s
              h)
            (History-IsBooked old t past)

  -- After every history, the stored list of stakeholders has one to fifty at different addresses, each
  -- with a share, and the shares make up 10000 basis points.
  pub stored_stakeholders-IsConfigured :
      (log : List Made) (s : Share L) (xs : List Stakeholder)
      → History token l log s
      → s.stakeholders ≡ some xs
      → IsConfigured xs
  stored_stakeholders-IsConfigured log s xs start found = absurd (ground arith)
  stored_stakeholders-IsConfigured log s xs (quietly {s = t} past q) found =
      let k = Quiet-SameBooks t s q in
      stored_stakeholders-IsConfigured log t xs past (sym k.stakeholders_kept ∙ found)
  stored_stakeholders-IsConfigured log s xs (configuring {s = t} env nonce ys past h) found =
      let (good, stored, records, counts) = configure_stakeholders-ok env nonce ys t s h in
      subst IsConfigured (some_injective ys xs (sym stored ∙ found)) good
  stored_stakeholders-IsConfigured log s xs
        (distributing {log = old} {s = t} sha256 attestations env business period revenue nonce past
          h)
        found =
      let d =
        distribute_revenue-ok sha256 attestations token env business period revenue nonce t s h in
      stored_stakeholders-IsConfigured old t xs past (sym d.kept ∙ found)

  -- A returning distribution of a revenue `a` whose product with 10000 fits an `i128`, after every
  -- history: the business signed it, it is the first for its business and period, the attestation
  -- contract holds an attestation of just this revenue that is neither revoked nor expired, the
  -- address of each stakeholder receives, out of the account of the business and in the configured
  -- token, the floor of its share, the first also the residual, which is less than the number of
  -- stakeholders, with no transfer of an amount of zero; these amounts sum to the revenue, and the
  -- record shows them.
  pub distribute_revenue_pays :
      (sha256 : List ℕ → ℕ) (attestations : Attestations) (env : Env) (business : Address)
      (period : Period) (a nonce : ℕ) (log : List Made) (s s' : Share L)
      → History token l log s
      → distribute_revenue sha256 attestations token env business period (pos a) nonce s
        ≡ ok (tt, s')
      → IsSmall a
      → (xs : List Stakeholder) × (contract : Address) × (currency : Address) × (s.stakeholders
          ≡ some xs)
        × (s.attestation_contract ≡ some contract)
        × (s.token ≡ some currency)
        × (env.authorized business ≡ true)
        × (s.distribution business period ≡ none)
        × IsAttested sha256 attestations contract business period (pos a)
        × Payments token currency business (map address_of xs) (split a xs) s.ledger s'.ledger
        × (residual_of a xs < length xs)
        × (sum (split a xs) ≡ a)
        × (s'.distribution business period
            ≡ some (record {
              total_amount = pos a;
              timestamp = env.timestamp;
              amounts = map pos (split a xs);
            }))
  distribute_revenue_pays sha256 attestations env business period a nonce log s s' past h small =
      let d =
        distribute_revenue-ok sha256 attestations token env business period (pos a) nonce s s' h in
      let whole = (stored_stakeholders-IsConfigured log s d.stakeholders past d.configured).whole in
      let same : d.amounts ≡ map pos (split a d.stakeholders) =
        ok_injective d.amounts (map pos (split a d.stakeholders))
          (sym d.divided ∙ divide_lem a d.stakeholders whole small) in
      (
        d.stakeholders,
        d.contract,
        d.currency,
        d.configured,
        d.known,
        d.in_token,
        d.signed,
        d.first_time,
        d.attested,
        pay_all-Payments token d.currency business d.stakeholders (split a d.stakeholders) s.ledger
            s'.ledger (length-split a d.stakeholders)
            (ap (λ x. pay_all token d.currency business d.stakeholders x s.ledger) (sym same)
              ∙ d.paid),
        (residual_bounded a d.stakeholders whole).1,
        sum-split a d.stakeholders whole,
        ap (λ f. f business period) d.recorded
            ∙ ground (arith, same, same_period_refl period, ==_refl business),
      )
