-- ===== src/Share/Histories.antt =====
-- Histories of the share contract, with the distributions they made, and what the books show of them.
use veritasor_contracts.Prelude.{
  ℕ, ◌+◌, ◌≡◌, ◌≢◌, refl, sym, subst, ◌∙◌, Bool, true, false, ◌&&◌, ◌||◌, List, [], ◌∷◌, All, none,
  Env, Address, ok, arith, ◌==◌, ==_refl, if◌then◌else◌, Result-cases, inl, inr,
}
use veritasor_contracts.Replay.{verify_and_increment_nonce, channel_admin}
use veritasor_contracts.Share.Types.{Period, Share}
use veritasor_contracts.Share.Calls.{
  same_period, initialize, require_admin_with_nonce, set_attestation_contract, set_token,
}
use veritasor_contracts.Share.Configured.{require_admin_with_nonce-ok}

-- A distribution that was made: the business and the period.
pub record Made : Type 0 where
  pub business : Address
  pub period : Period

abbrev pub is_for : Address → Period → Made → Bool
is_for b p m = (m.business == b) && same_period m.period p

abbrev pub has_made : Address → Period → List Made → Bool
has_made b p [] = false
has_made b p (m ∷ log) = is_for b p m || has_made b p log

abbrev pub count_made : Address → List Made → ℕ
count_made b [] = 0
count_made b (m ∷ log) = if m.business == b then count_made b log + 1 else count_made b log

-- No two distributions are for the same business and period.
abbrev pub IsOnce : List Made → Type 0
IsOnce [] = Unit
IsOnce (m ∷ log) = All (λ n. n ≢ m) log × IsOnce log

pub same_period_refl : (p : Period) → same_period p p ≡ true
unfolding same_period
same_period_refl [] = refl
same_period_refl (a ∷ p) = ground (arith, same_period_refl p, ==_refl a)

is_for_refl : (m : Made) → is_for m.business m.period m ≡ true
is_for_refl m = ground (arith, same_period_refl m.period, ==_refl m.business)

pub not_made :
    (m : Made) (log : List Made) → has_made m.business m.period log ≡ false → All (λ n. n ≢ m) log
not_made m [] h = tt
not_made m (n ∷ log) h = (
  λ e. absurd (differ (subst (λ x. is_for m.business m.period x ≡ true) (sym e) (is_for_refl m))),
  not_made m log (ground arith),
)
  where
    differ : is_for m.business m.period n ≡ true → ⊥
    differ f = ground (arith, f)

module _ {L : Type 0} where
  abbrev pub deployed : L → Share L
  deployed l = record {
    admin = none;
    attestation_contract = none;
    token = none;
    stakeholders = none;
    distribution = λ b p. none;
    distribution_count = λ b. none;
    nonces = λ a c. none;
    ledger = l;
  }

  -- The parts of the storage that only a configuration and a distribution write.
  pub record SameBooks (s s' : Share L) : Type 0 where
    pub stakeholders_kept : s'.stakeholders ≡ s.stakeholders
    pub records_kept : s'.distribution ≡ s.distribution
    pub counts_kept : s'.distribution_count ≡ s.distribution_count

  require_admin-SameBooks :
      (env : Env) (nonce : ℕ) (admin : Address) (s s' : Share L)
      → require_admin_with_nonce env nonce s ≡ ok (admin, s')
      → SameBooks s s'
  require_admin-SameBooks env nonce admin s s' h =
      let (nonces, e, signed, used, result) = require_admin_with_nonce-ok env nonce admin s s' h in
      subst (SameBooks s) (sym result)
        (record { stakeholders_kept = refl; records_kept = refl; counts_kept = refl })

  SameBooks-trans : (s t u : Share L) → SameBooks s t → SameBooks t u → SameBooks s u
  SameBooks-trans s t u k l = record {
    stakeholders_kept = l.stakeholders_kept ∙ k.stakeholders_kept;
    records_kept = l.records_kept ∙ k.records_kept;
    counts_kept = l.counts_kept ∙ k.counts_kept;
  }

  -- A returning call that writes none of the books.
  pub data Quiet (s s' : Share L) : Type 0 where
    initializing :
        (env : Env) (admin : Address) (nonce : ℕ) (contract token : Address)
        → initialize env admin nonce contract token s ≡ ok (tt, s')
        → Quiet s s'
    setting_contract :
        (env : Env) (nonce : ℕ) (contract : Address)
        → set_attestation_contract env nonce contract s ≡ ok (tt, s')
        → Quiet s s'
    setting_token :
        (env : Env) (nonce : ℕ) (token : Address)
        → set_token env nonce token s ≡ ok (tt, s')
        → Quiet s s'

  pub Quiet-SameBooks : (s s' : Share L) → Quiet s s' → SameBooks s s'
  unfolding initialize set_attestation_contract set_token
  Quiet-SameBooks s s' (initializing env admin nonce contract token h) =
      elim (Result-cases (verify_and_increment_nonce admin channel_admin nonce s.nonces)) [
        | inr (bad, f) ↦ absurd (ground (arith, f))
        | inl ((u, nonces), f) ↦ record {
          stakeholders_kept = ground (arith, f);
          records_kept = ground (arith, f);
          counts_kept = ground (arith, f);
        }
      ]
  Quiet-SameBooks s s' (setting_contract env nonce contract h) =
      elim (Result-cases (require_admin_with_nonce env nonce s)) [
        | inr (bad, f) ↦ absurd (ground (arith, f))
        | inl ((admin, t), f) ↦
            SameBooks-trans s t s' (require_admin-SameBooks env nonce admin s t f) (record {
              stakeholders_kept = ground (arith, f);
              records_kept = ground (arith, f);
              counts_kept = ground (arith, f);
            })
      ]
  Quiet-SameBooks s s' (setting_token env nonce token h) =
      elim (Result-cases (require_admin_with_nonce env nonce s)) [
        | inr (bad, f) ↦ absurd (ground (arith, f))
        | inl ((admin, t), f) ↦
            SameBooks-trans s t s' (require_admin-SameBooks env nonce admin s t f) (record {
              stakeholders_kept = ground (arith, f);
              records_kept = ground (arith, f);
              counts_kept = ground (arith, f);
            })
      ]
