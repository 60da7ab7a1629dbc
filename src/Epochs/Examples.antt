-- ===== src/Epochs/Examples.antt =====
-- The rollover at concrete times.
use veritasor_contracts.Prelude.{ℕ, ◌+◌, ◌≡◌, List, [], ◌∷◌, some, Env, true, arith}
use veritasor_contracts.Epochs.{Epochs, get_epoch}
use veritasor_contracts.Epochs.Rollover.{bucket, rollovers, final, fresh, rollovers_lem}

abbrev at : ℕ → Env
at t = record { timestamp = t; sequence = 0; authorized = λ a. true; current_contract = 99 }

-- Buckets 1, 1, 2 and 5.
abbrev later : List Env
later = at 100000 ∷ at 172800 ∷ at 432000 ∷ []

rollovers_lem_example :
    (s : Epochs) × (rollovers (at 86400 ∷ later) fresh ≡ some s)
    × (get_epoch s + bucket (at 86400) ≡ final (bucket (at 86400)) later + 1)
    × (s.last_fee_bucket ≡ some (final (bucket (at 86400)) later))
rollovers_lem_example =
    rollovers_lem (at 86400) later (omega arith)
      (omega arith, omega arith, (omega arith, omega arith, (omega arith, omega arith, tt)))
