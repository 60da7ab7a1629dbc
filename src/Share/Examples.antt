-- ===== src/Share/Examples.antt =====
-- A distribution among three stakeholders, and the theorems at its states.
use veritasor_contracts.Prelude.{
  ℕ, ◌+◌, ◌-◌, ◌*◌, ◌<◌, ◌≡◌, refl, true, false, List, [], ◌∷◌, map, length, none, some, get_or,
  is_some, Env, ok, err, settle, arith, sum, leb, if◌then◌else◌,
}
use veritasor_contracts.Prelude.Int.{pos, pos_part, ◌*ℤ◌, ◌+ℤ◌, ◌-ℤ◌, div_ℤ}
use veritasor_contracts.Replay.{verify_and_increment_nonce}
use veritasor_contracts.Share.Types.{
  Period, Stakeholder, Share, Token, Attestations, already_distributed, root_differs,
}
use veritasor_contracts.Share.Calls.{
  to_be_bytes, same_period, check_stakeholders, calculate_share, allocate, add_residual,
  sum_amounts, divide, initialize, require_admin_with_nonce, configure_stakeholders,
  set_attestation_contract, set_token, assert_revenue_attested, pay_all, distribute_revenue,
}
use veritasor_contracts.Share.Floor.{total_bps, floors, split, residual_of}
use veritasor_contracts.Share.Configured.{IsConfigured}
use veritasor_contracts.Share.Record.{IsAttested}
use veritasor_contracts.Share.Histories.{has_made, count_made, IsOnce, deployed, initializing}
use veritasor_contracts.Share.Split.{divide_lem}
use veritasor_contracts.Share.Payments.{Payments, address_of}
use veritasor_contracts.Share.Books.{
  History, start, quietly, configuring, distributing, distributions_refine,
  stored_stakeholders-IsConfigured, distribute_revenue_pays,
}

-- The tokens' ledger is the balance of the business.
abbrev coin : Token ℕ
coin = record {
  balance = λ token holder held. pos held;
  transfer = λ token from to amount held.
      if leb (pos_part amount) held then some (held - pos_part amount) else none;
}

abbrev digest : List ℕ → ℕ
digest [] = 7
digest (b ∷ bytes) = b + 31 * digest bytes

abbrev registry : Attestations
registry = record {
  root = λ c b p. some (digest (to_be_bytes (pos 10001)));
  is_revoked = λ c b p. false;
  is_expired = λ c b p. false;
}

abbrev at : ℕ → Env
at n = record { timestamp = n; sequence = 0; authorized = λ a. true; current_contract = 99 }

program : Unit {0}
unfolding same_period check_stakeholders calculate_share allocate add_residual sum_amounts divide
    initialize require_admin_with_nonce configure_stakeholders set_attestation_contract set_token
    assert_revenue_attested pay_all distribute_revenue verify_and_increment_nonce total_bps floors
    split ◌*ℤ◌ ◌+ℤ◌ ◌-ℤ◌ div_ℤ
program = tt

abbrev three : List Stakeholder
three =
    record { address = 11; share_bps = 3334 }
    ∷ record { address = 12; share_bps = 3333 }
    ∷ record { address = 13; share_bps = 3333 }
    ∷ []

abbrev january : Period
january = 50 ∷ 54 ∷ 48 ∷ 49 ∷ []

abbrev s1 : Share ℕ
s1 = settle (deployed 20000) (initialize (at 1) 1 0 20 60 (deployed 20000))

abbrev s2 : Share ℕ
s2 = settle s1 (configure_stakeholders (at 2) 1 three s1)

abbrev s3 : Share ℕ
s3 = settle s2 (distribute_revenue digest registry coin (at 3) 5 january (pos 10001) 0 s2)

h2 : History coin 20000 [] s2
unfolding program
h2 = configuring (at 2) 1 three (quietly start (initializing (at 1) 1 0 20 60 refl)) refl

h3 : History coin 20000 (record { business = 5; period = january } ∷ []) s3
unfolding program
h3 = distributing digest registry (at 3) 5 january (pos 10001) 0 h2 refl

-- The example of the source: 3335, 3333 and 3333 of 10001.
three_paid :
    (s3.ledger ≡ 9999)
    × (divide (pos 10001) three ≡ ok (pos 3335 ∷ pos 3333 ∷ pos 3333 ∷ []))
    × (distribute_revenue digest registry coin (at 4) 5 january (pos 10001) 1 s3
        ≡ err already_distributed)
    × (distribute_revenue digest registry coin (at 4) 5 (51 ∷ january) (pos 10002) 1 s3
        ≡ err root_differs)
unfolding program
three_paid = (refl, refl, refl, refl)

distributions_refine_example :
    ((b : ℕ)
      → get_or (s3.distribution_count b) 0
        ≡ count_made b (record { business = 5; period = january } ∷ []))
    × ((b : ℕ) (p : Period)
        → is_some (s3.distribution b p)
          ≡ has_made b p (record { business = 5; period = january } ∷ []))
    × IsOnce (record { business = 5; period = january } ∷ [])
distributions_refine_example =
    distributions_refine coin 20000 (record { business = 5; period = january } ∷ []) s3 h3

stored_stakeholders-IsConfigured_example : IsConfigured three
unfolding program
stored_stakeholders-IsConfigured_example =
    stored_stakeholders-IsConfigured coin 20000 (record { business = 5; period = january } ∷ []) s3
      three h3 refl

divide_lem_example : divide (pos 10001) three ≡ ok (map pos (split 10001 three))
unfolding program
divide_lem_example = divide_lem 10001 three refl (omega arith)

distribute_revenue_pays_example :
    (xs : List Stakeholder) × (contract : ℕ) × (currency : ℕ) × (s2.stakeholders ≡ some xs)
    × (s2.attestation_contract ≡ some contract)
    × (s2.token ≡ some currency)
    × (true ≡ true)
    × (s2.distribution 5 january ≡ none)
    × IsAttested digest registry contract 5 january (pos 10001)
    × Payments coin currency 5 (map address_of xs) (split 10001 xs) s2.ledger s3.ledger
    × (residual_of 10001 xs < length xs)
    × (sum (split 10001 xs) ≡ 10001)
    × (s3.distribution 5 january
        ≡ some (record {
          total_amount = pos 10001;
          timestamp = 3;
          amounts = map pos (split 10001 xs);
        }))
unfolding program
distribute_revenue_pays_example =
    distribute_revenue_pays coin 20000 digest registry (at 3) 5 january 10001 0 [] s2 s3 h2 refl
      (omega arith)
