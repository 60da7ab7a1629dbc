-- ===== src/Audit/Examples.antt =====
-- A log of two entries, and the theorem at it.
use veritasor_contracts.Prelude.{
  ℕ, ◌+◌, ◌*◌, ◌≡◌, refl, true, List, [], ◌∷◌, length, get_elem?, get_or, some, Env, settle,
}
use veritasor_contracts.Replay.{verify_and_increment_nonce}
use veritasor_contracts.Audit.Calls.{
  AuditRecordHashInput, AuditRecord, Audit, initialize, append, zero_hash,
}
use veritasor_contracts.Audit.Chain.{IsChain, head_hash, seqs_of, actor_of, contract_of, deployed}
use veritasor_contracts.Audit.Log.{entry_for, History, start, initializing, appending, log_refines}

abbrev digest : AuditRecordHashInput → ℕ
digest i = i.payload + 7 * i.prev_hash + 1

abbrev at : ℕ → Env
at n = record { timestamp = 0; sequence = n; authorized = λ a. true; current_contract = 99 }

program : Unit {0}
unfolding initialize append verify_and_increment_nonce head_hash seqs_of
program = tt

abbrev l1 : Audit
l1 = settle deployed (initialize (at 1) 1 0 deployed)

abbrev l2 : Audit
l2 = settle l1 (append digest (at 2) 1 5 20 30 400 l1)

abbrev l3 : Audit
l3 = settle l2 (append digest (at 3) 2 6 20 31 500 l2)

abbrev logged : List AuditRecord
logged = entry_for digest (at 2) 5 20 30 400 l1 ∷ entry_for digest (at 3) 6 20 31 500 l2 ∷ []

h3 : History digest logged l3
unfolding program
h3 =
    appending (at 3) 2 6 20 31 500 1
      (appending (at 2) 1 5 20 30 400 0 (initializing (at 1) 1 0 start refl) refl) refl

indexed :
    (l3.contract_index 20 ≡ some (0 ∷ 1 ∷ []))
    × (l3.actor_index 6 ≡ some (1 ∷ []))
    × (l3.last_hash ≡ some 3308)
unfolding program
indexed = (refl, refl, refl)

log_refines_example :
    (get_or l3.next_seq 0 ≡ length logged)
    × ((n : ℕ) → l3.entry n ≡ get_elem? logged n)
    × IsChain digest 0 zero_hash logged
    × (get_or l3.last_hash zero_hash ≡ head_hash zero_hash logged)
    × ((a : ℕ) → get_or (l3.actor_index a) [] ≡ seqs_of actor_of a logged)
    × ((c : ℕ) → get_or (l3.contract_index c) [] ≡ seqs_of contract_of c logged)
log_refines_example = log_refines digest logged l3 h3
