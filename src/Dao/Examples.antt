-- ===== src/Dao/Examples.antt =====
-- A run of the DAO, and the theorems at its states.
use veritasor_contracts.Prelude.{
  ℕ, ◌+◌, ◌≤◌, ◌<◌, ◌≡◌, refl, true, false, List, [], ◌∷◌, none, some, Env, ok, err, settle, min,
  if◌then◌else◌, ◌==◌,
}
use veritasor_contracts.Prelude.Int.{ℤ, pos, u32_max}
use veritasor_contracts.Fees.{Fees, get_effective_fee_config}
use veritasor_contracts.Dao.Types.{
  FeeTuple, Proposal, Dao, Balance, already_voted, set_attestation_fee_config, pending, executed,
}
use veritasor_contracts.Dao.Config.{
  require_admin, require_token_holder, initialize, validate_min_votes, validate_proposal_duration,
  get_min_votes, get_proposal_duration, normalize_min_votes, normalize_duration,
}
use veritasor_contracts.Dao.Calls.{
  create, create_fee_config_proposal, vote_for, vote_against, check_vote, execute_proposal,
  get_votes_for, get_votes_against, has_voted, set_voted, increment_for, increment_against,
  quorum_met, has_majority, is_expired, store_proposal, get_proposal_internal, apply_action,
  next_proposal_id,
}
use veritasor_contracts.Dao.Ballots.{Ballot, ballot, count, has_cast, IsOnce}
use veritasor_contracts.Dao.Steps.{
  initializing, proposing_fee, executing, quiet, voting_for, voting_against, History, start,
  then_step, deployed,
}
use veritasor_contracts.Dao.Quorum.{tally_refines, execute_proposal_quorum, settled_forever}
use veritasor_contracts.Dao.Link.{answers, config_of, execute_proposal-get_effective_fee_config}

abbrev at : ℕ → Env
at n = record { timestamp = 0; sequence = n; authorized = λ a. true; current_contract = 99 }

program : Unit {0}
unfolding require_admin require_token_holder initialize validate_min_votes
    validate_proposal_duration get_min_votes get_proposal_duration normalize_min_votes
    normalize_duration create create_fee_config_proposal vote_for vote_against check_vote
    execute_proposal get_votes_for get_votes_against has_voted set_voted increment_for
    increment_against quorum_met has_majority is_expired store_proposal get_proposal_internal
    apply_action next_proposal_id
program = tt

-- The addresses below 10 hold the governance token 50.
abbrev holders : Balance
holders token who = if token == 50 then (if who == 7 then pos 0 else pos 5) else pos 0

abbrev new_fee : FeeTuple
new_fee = record { token = 60; collector = 61; base_fee = pos 400; enabled = true }

abbrev d1 : Dao
d1 = settle deployed (initialize (at 1) 1 (some 50) 3 100 deployed)

abbrev d2 : Dao
d2 = settle d1 (create_fee_config_proposal holders (at 10) 2 new_fee d1)

abbrev d3 : Dao
d3 = settle d2 (vote_for holders (at 11) 2 0 d2)

abbrev d4 : Dao
d4 = settle d3 (vote_against holders (at 12) 3 0 d3)

abbrev d5 : Dao
d5 = settle d4 (vote_for holders (at 13) 4 0 d4)

abbrev d6 : Dao
d6 = settle d5 (execute_proposal (at 14) 7 0 d5)

ran_1 : initialize (at 1) 1 (some 50) 3 100 deployed ≡ ok (tt, d1)
unfolding program
ran_1 = refl

ran_2 : create_fee_config_proposal holders (at 10) 2 new_fee d1 ≡ ok (0, d2)
unfolding program
ran_2 = refl

ran_3 : vote_for holders (at 11) 2 0 d2 ≡ ok (tt, d3)
unfolding program
ran_3 = refl

twice : vote_against holders (at 12) 2 0 d3 ≡ err already_voted
unfolding program
twice = refl

ran_4 : vote_against holders (at 12) 3 0 d3 ≡ ok (tt, d4)
unfolding program
ran_4 = refl

ran_5 : vote_for holders (at 13) 4 0 d4 ≡ ok (tt, d5)
unfolding program
ran_5 = refl

ran_6 : execute_proposal (at 14) 7 0 d5 ≡ ok (tt, d6)
unfolding program
ran_6 = refl

abbrev log : List Ballot
log = ballot 0 4 true ∷ ballot 0 3 false ∷ ballot 0 2 true ∷ []

History-5 : History deployed log d5
History-5 =
    then_step
      (then_step
        (then_step
          (then_step (then_step start (quiet (initializing (at 1) 1 (some 50) 3 100 ran_1)))
            (quiet (proposing_fee holders (at 10) 2 new_fee 0 ran_2)))
          (voting_for holders (at 11) 2 0 ran_3))
        (voting_against holders (at 12) 3 0 ran_4))
      (voting_for holders (at 13) 4 0 ran_5)

tally_refines_example :
    (get_votes_for 0 d5 ≡ min (count 0 true log) u32_max)
    × (get_votes_against 0 d5 ≡ min (count 0 false log) u32_max)
    × (has_voted 0 3 d5 ≡ has_cast 0 3 log)
    × IsOnce log
tally_refines_example = tally_refines log d5 0 3 History-5

execute_proposal_quorum_example :
    IsOnce log
    × (count 0 false log < count 0 true log)
    × (get_min_votes d5 ≤ count 0 true log + count 0 false log)
execute_proposal_quorum_example = execute_proposal_quorum log d5 d6 (at 14) 7 0 History-5 ran_6

abbrev accepted : Proposal
accepted = record {
  id = 0;
  creator = 2;
  action = set_attestation_fee_config new_fee;
  status = executed;
  created_at = 10;
}

History-6 : History deployed log d6
History-6 = then_step History-5 (quiet (executing (at 14) 7 0 ran_6))

settled_forever_example : d6.proposals 0 ≡ some accepted
unfolding program
settled_forever_example = settled_forever log [] d6 d6 0 accepted History-6 refl refl start

abbrev bound : Fees ℤ
bound = record {
  fee_config = none;
  pending_fee_config = none;
  dao = some 77;
  tier_discount = λ t. none;
  business_tier = λ b. none;
  business_count = λ b. none;
  volume_thresholds = none;
  volume_discounts = none;
  ledger = pos 0;
}

execute_proposal-get_effective_fee_config_example :
    get_effective_fee_config (answers 77 d6) bound ≡ some (config_of new_fee)
unfolding program
execute_proposal-get_effective_fee_config_example =
    execute_proposal-get_effective_fee_config 77 (at 14) 7 0 d5 d6 bound
      (record accepted { status = pending }) new_fee refl refl refl ran_6
