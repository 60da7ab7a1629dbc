-- ===== src/Share/Configured.antt =====
-- What the checks of a configuration leave through.
use veritasor_contracts.Prelude.{
  ℕ, ◌+◌, ◌≤◌, ◌<◌, ◌≡◌, ◌↔◌, sym, ◌∙◌, ap, true, List, [], ◌∷◌, map, length, All, Distinct, Option,
  some, Env, Address, ok, arith, Option-cases, Result-cases, inl, inr,
}
use veritasor_contracts.Prelude.Int.{u32_max}
use veritasor_contracts.Replay.{verify_and_increment_nonce, channel_admin}
use veritasor_contracts.Share.Types.{Stakeholder, Share}
use veritasor_contracts.Share.Calls.{
  check_stakeholders, require_admin_with_nonce, configure_stakeholders,
}
use veritasor_contracts.Share.Floor.{total_bps}

abbrev pub HasShare : Stakeholder → Type 0
HasShare x = 0 < x.share_bps

-- One to fifty stakeholders at different addresses, each with a share, and the shares make up the whole.
pub record IsConfigured (xs : List Stakeholder) : Type 0 where
  pub some_one : 0 < length xs
  pub few : length xs ≤ 50
  pub shares : All HasShare xs
  pub apart : Distinct (map (λ y. y.address) xs)
  pub whole : total_bps xs ≡ 10000

check_stakeholders-ok :
    (xs : List Stakeholder) (t total : ℕ)
    → check_stakeholders xs t ≡ ok total
    → (total ≡ t + total_bps xs) × All HasShare xs × Distinct (map (λ y. y.address) xs)
unfolding check_stakeholders total_bps
check_stakeholders-ok [] t total h = (ground arith, tt, tt)
check_stakeholders-ok (x ∷ xs) t total h =
    let rest = check_stakeholders-ok xs (t + x.share_bps) total (ground arith) in
    (omega (arith, rest.0), (ground arith, rest.1), (ground arith, rest.2))

-- Conversely the checks let through what is so, while the total fits a `u32`.
check_stakeholders_lem :
    (xs : List Stakeholder) (t : ℕ)
    → All HasShare xs
    → Distinct (map (λ y. y.address) xs)
    → t + total_bps xs ≤ u32_max
    → check_stakeholders xs t ≡ ok (t + total_bps xs)
unfolding check_stakeholders total_bps
check_stakeholders_lem [] t shares apart fits = ground arith
check_stakeholders_lem (x ∷ xs) t shares apart fits =
    let rest = check_stakeholders_lem xs (t + x.share_bps) shares.1 apart.1 (omega (arith, fits)) in
    ground (arith, rest, shares.0, apart.0, fits)

-- The loop returns 10000 exactly when every share is positive, no address occurs twice and the shares
-- make up 10000 basis points.
pub check_stakeholders_iff :
    (xs : List Stakeholder)
    → (check_stakeholders xs 0 ≡ ok 10000)
      ↔ (All HasShare xs × Distinct (map (λ y. y.address) xs) × (total_bps xs ≡ 10000))
check_stakeholders_iff xs = (
  λ h.
      let (summed, shares, apart) = check_stakeholders-ok xs 0 10000 h in
      (shares, apart, omega (arith, summed)),
  λ h. check_stakeholders_lem xs 0 h.0 h.1 (omega (arith, h.2)) ∙ ap ok (omega (arith, h.2)),
)

module _ {L : Type 0} where
  pub require_admin_with_nonce-ok :
      (env : Env) (nonce : ℕ) (admin : Address) (s s' : Share L)
      → require_admin_with_nonce env nonce s ≡ ok (admin, s')
      → (nonces : ℕ → ℕ → Option ℕ) × (s.admin ≡ some admin)
        × (env.authorized admin ≡ true)
        × (verify_and_increment_nonce admin channel_admin nonce s.nonces ≡ ok (tt, nonces))
        × (s' ≡ record s { nonces = nonces })
  unfolding require_admin_with_nonce
  require_admin_with_nonce-ok env nonce admin s s' h = elim (Option-cases s.admin) [
    | inl e ↦ absurd (ground (arith, e))
    | inr (a, e) ↦ elim (Result-cases (verify_and_increment_nonce a channel_admin nonce s.nonces)) [
      | inr (bad, f) ↦ absurd (ground (arith, e, f))
      | inl ((u, nonces), f) ↦
          let same : a ≡ admin = ground (arith, e, f) in
          (
            nonces,
            e ∙ ap some same,
            ground (arith, e, f, same),
            ap (λ x. verify_and_increment_nonce x channel_admin nonce s.nonces) (sym same) ∙ f,
            ground (arith, e, f),
          )
    ]
  ]

  -- A returning configuration stores a list that passed every check, and changes no distribution.
  pub configure_stakeholders-ok :
      (env : Env) (nonce : ℕ) (xs : List Stakeholder) (s s' : Share L)
      → configure_stakeholders env nonce xs s ≡ ok (tt, s')
      → IsConfigured xs
        × (s'.stakeholders ≡ some xs)
        × (s'.distribution ≡ s.distribution)
        × (s'.distribution_count ≡ s.distribution_count)
  unfolding configure_stakeholders
  configure_stakeholders-ok env nonce xs s s' h =
      elim (Result-cases (require_admin_with_nonce env nonce s)) [
        | inr (bad, f) ↦ absurd (ground (arith, f))
        | inl ((admin, t), f) ↦ elim (Result-cases (check_stakeholders xs 0)) [
          | inr (bad, g) ↦ absurd (ground (arith, f, g))
          | inl (total, g) ↦
              let (nonces, e, signed, used, result) =
                require_admin_with_nonce-ok env nonce admin s t f in
              let (summed, shares, apart) = check_stakeholders-ok xs 0 total g in
              let kept : (s'.distribution ≡ t.distribution)
                  × (s'.distribution_count ≡ t.distribution_count) =
                (ground (arith, f, g), ground (arith, f, g)) in
              let checks : (0 < length xs) × (length xs ≤ 50) × (total ≡ 10000) =
                (ground (arith, f, g), ground (arith, f, g), ground (arith, f, g)) in
              (
                record {
                  some_one = checks.0;
                  few = checks.1;
                  shares = shares;
                  apart = apart;
                  whole = omega (arith, summed, checks.2);
                },
                ground (arith, f, g),
                kept.0 ∙ ap (λ x. x.distribution) result,
                kept.1 ∙ ap (λ x. x.distribution_count) result,
              )
        ]
      ]
