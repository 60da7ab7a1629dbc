-- ===== src/Audit/Calls.antt =====
-- The storage and the calls of the audit log.
use veritasor_contracts.Prelude.{
  ℕ, ◌+◌, not, List, [], ◌∷◌, ◌++◌, Option, some, get_or, Env, Address, ok, err, Action, pure,
  ensure, gets, modify, expect, ◌>>=◌, ◌>>◌, ⊤, Slots, store, is_some, ltb,
}
use veritasor_contracts.Prelude.Int.{u64_max}
use veritasor_contracts.Replay
use veritasor_contracts.Replay.{Nonces, verify_and_increment_nonce, channel_admin}

-- What is hashed of an entry. Texts and hashes are numbers that are only compared.
pub record AuditRecordHashInput : Type 0 where
  pub seq : ℕ
  pub actor : Address
  pub source_contract : Address
  pub action : ℕ
  pub payload : ℕ
  pub ledger_seq : ℕ
  pub prev_hash : ℕ

-- An entry: what is hashed of it, and its hash.
pub record AuditRecord : Type 0 where
  pub input : AuditRecordHashInput
  pub entry_hash : ℕ

-- The panics, named for their messages.
pub data Error : Type 0 where
  replay : Replay.Error → Error
  unauthorized already_initialized not_initialized seq_overflow : Error

-- A field for each constructor of `DataKey`, and the nonces.
pub record Audit : Type 0 where
  pub admin : Option Address
  pub next_seq : Option ℕ
  pub last_hash : Option ℕ
  pub entry : Slots AuditRecord
  pub actor_index : Slots (List ℕ)
  pub contract_index : Slots (List ℕ)
  pub nonces : Nonces

abbrev pub Call : Type 0 → Type 0
Call A = Action Error Audit A

abbrev pub use_nonce : Address → ℕ → Call ⊤
use_nonce actor nonce s = elim (verify_and_increment_nonce actor channel_admin nonce s.nonces) [
  | err e ↦ err (replay e)
  | ok (u, nonces) ↦ ok (tt, record s { nonces = nonces })
]

-- 32 zero bytes; a hash is the number that its bytes write.
abbrev pub zero_hash : ℕ
zero_hash = 0

unfoldable pub initialize : Env → Address → ℕ → Call ⊤
initialize env admin nonce = do
  ensure (env.authorized admin) unauthorized
  use_nonce admin nonce
  present ← gets (λ s. is_some s.admin)
  ensure (not present) already_initialized
  modify (λ s. record s { admin = some admin; next_seq = some 0; last_hash = some zero_hash })

-- `push_back` on a list that may be missing.
abbrev pub push : Slots (List ℕ) → ℕ → ℕ → Slots (List ℕ)
push index key n = store index key (get_or (index key) [] ++ n ∷ [])

unfoldable pub append : (AuditRecordHashInput → ℕ) → Env → ℕ → Address → Address → ℕ → ℕ → Call ℕ
append sha256 env nonce actor source_contract action payload = do
  stored ← gets (λ s. s.admin)
  admin ← expect stored not_initialized
  ensure (env.authorized admin) unauthorized
  use_nonce admin nonce
  seq ← gets (λ s. get_or s.next_seq 0)
  prev_hash ← gets (λ s. get_or s.last_hash zero_hash)
  let input : AuditRecordHashInput = record {
    seq = seq;
    actor = actor;
    source_contract = source_contract;
    action = action;
    payload = payload;
    ledger_seq = env.sequence;
    prev_hash = prev_hash;
  }
  let entry_hash = sha256 input
  modify (λ s. record s {
    entry = store s.entry seq (record { input = input; entry_hash = entry_hash });
  })
  ensure (ltb seq u64_max) seq_overflow
  modify (λ s. record s {
    next_seq = some (seq + 1);
    last_hash = some entry_hash;
    actor_index = push s.actor_index actor seq;
    contract_index = push s.contract_index source_contract seq;
  })
  pure seq
