-- ===== src/Replay/Examples.antt =====
-- The theorems of this component at concrete inputs, and runs of its code.
use veritasor_contracts.Prelude.{
  ◌&&◌, ◌≡◌, ◌≤◌, refl, true, false, ok, err, List, [], ◌∷◌, none, ◌↔◌,
}
use veritasor_contracts.Replay.{
  Nonces, nonce_mismatch, get_nonce, set_nonce, verify_and_increment_nonce, is_well_known_channel,
  is_custom_channel, channel_admin, channel_business,
}
use veritasor_contracts.Replay.Laws.{channel_ranges}
use veritasor_contracts.Replay.Streams.{Call, present, run, no_replay, follow, get_nonce-run}

abbrev fresh : Nonces
fresh a c = none

abbrev first : Call
first = record { actor = 1; channel = channel_admin; nonce = 0 }

abbrev later : List Call
later =
    record { actor = 1; channel = channel_admin; nonce = 1 }
    ∷ record { actor = 1; channel = channel_business; nonce = 0 }
    ∷ record { actor = 2; channel = channel_admin; nonce = 9 }
    ∷ []

run-later : get_nonce 1 channel_admin (run later (set_nonce 1 channel_admin 1 fresh)) ≡ 2
unfolding run verify_and_increment_nonce
run-later = refl

first_accepted : present first fresh ≡ ok (tt, set_nonce 1 channel_admin 1 fresh)
unfolding verify_and_increment_nonce
first_accepted = refl

no_replay_example :
    present first (run later (set_nonce 1 channel_admin 1 fresh)) ≡ err nonce_mismatch
no_replay_example = no_replay first fresh (set_nonce 1 channel_admin 1 fresh) later first_accepted

channel_seven :
    ((is_well_known_channel 7 ≡ true) ↔ ((1 ≤ 7) × (7 ≤ 5)))
    × ((is_custom_channel 7 ≡ true) ↔ (256 ≤ 7))
    × ((is_well_known_channel 7 && is_custom_channel 7) ≡ false)
channel_seven = channel_ranges 7

get_nonce-run_example :
    get_nonce 1 channel_admin (run (first ∷ later) fresh)
    ≡ follow 1 channel_admin (first ∷ later) (get_nonce 1 channel_admin fresh)
get_nonce-run_example = get_nonce-run 1 channel_admin (first ∷ later) fresh

followed : follow 1 channel_admin (first ∷ later) 0 ≡ 2
unfolding follow
followed = refl
