-- ===== src/Audit/Chain.antt =====
-- The storage of the log shows the list of the entries appended, which is a hash chain.
use veritasor_contracts.Prelude.{
  ℕ, zero, suc, ◌+◌, ◌≡◌, refl, List, [], ◌∷◌, ◌++◌, length, get_elem?, none, some, get_or, arith,
  ◌==◌, if◌then◌else◌,
}
use veritasor_contracts.Audit.Calls.{AuditRecordHashInput, AuditRecord, Audit, zero_hash}

-- The numbers of the entries of an actor or of a contract, in order.
unfoldable pub seqs_of : (AuditRecord → ℕ) → ℕ → List AuditRecord → List ℕ
seqs_of key k [] = []
seqs_of key k (r ∷ rs) = if key r == k then r.input.seq ∷ seqs_of key k rs else seqs_of key k rs

abbrev pub actor_of : AuditRecord → ℕ
actor_of r = r.input.actor

abbrev pub contract_of : AuditRecord → ℕ
contract_of r = r.input.source_contract

-- The hash at the head of the chain after some entries.
unfoldable pub head_hash : ℕ → List AuditRecord → ℕ
head_hash h [] = h
head_hash h (r ∷ rs) = head_hash r.entry_hash rs

module _ (sha256 : AuditRecordHashInput → ℕ) where
  -- Entries numbered from `n`, each with the hash of the one before and with its own.
  abbrev pub IsChain : ℕ → ℕ → List AuditRecord → Type 0
  IsChain n h [] = Unit
  IsChain n h (r ∷ rs) =
      (r.input.seq ≡ n)
      × (r.input.prev_hash ≡ h)
      × (r.entry_hash ≡ sha256 r.input)
      × IsChain (n + 1) r.entry_hash rs

  pub IsChain-append :
      (n h : ℕ) (rs : List AuditRecord) (r : AuditRecord)
      → IsChain n h rs
      → r.input.seq ≡ n + length rs
      → r.input.prev_hash ≡ head_hash h rs
      → r.entry_hash ≡ sha256 r.input
      → IsChain n h (rs ++ r ∷ [])
  unfolding head_hash
  IsChain-append n h [] r chain number before hashed = (omega (arith, number), before, hashed, tt)
  IsChain-append n h (x ∷ rs) r chain number before hashed = (
    chain.0,
    chain.1,
    chain.2,
    IsChain-append (n + 1) x.entry_hash rs r chain.3 (omega (arith, number)) before hashed,
  )

  -- The storage shows the entries `rs`, the oldest first.
  pub record Shows (rs : List AuditRecord) (s : Audit) : Type 0 where
    pub number : get_or s.next_seq 0 ≡ length rs
    pub head : get_or s.last_hash zero_hash ≡ head_hash zero_hash rs
    pub entries : (n : ℕ) → s.entry n ≡ get_elem? rs n
    pub actors : (a : ℕ) → get_or (s.actor_index a) [] ≡ seqs_of actor_of a rs
    pub contracts : (c : ℕ) → get_or (s.contract_index c) [] ≡ seqs_of contract_of c rs
    pub chain : IsChain 0 zero_hash rs

abbrev pub deployed : Audit
deployed = record {
  admin = none;
  next_seq = none;
  last_hash = none;
  entry = λ n. none;
  actor_index = λ a. none;
  contract_index = λ c. none;
  nonces = λ a c. none;
}

pub head_hash-append :
    (h : ℕ) (rs : List AuditRecord) (r : AuditRecord) → head_hash h (rs ++ r ∷ []) ≡ r.entry_hash
unfolding head_hash
head_hash-append h [] r = refl
head_hash-append h (x ∷ rs) r = head_hash-append x.entry_hash rs r

pub get_elem?-append :
    (rs : List AuditRecord) (r : AuditRecord) (n : ℕ)
    → get_elem? (rs ++ r ∷ []) n ≡ (if length rs == n then some r else get_elem? rs n)
get_elem?-append [] r zero = ground arith
get_elem?-append [] r (suc n) = ground arith
get_elem?-append (x ∷ rs) r zero = ground arith
get_elem?-append (x ∷ rs) r (suc n) = ground (arith, get_elem?-append rs r n)

pub seqs_of-append :
    (key : AuditRecord → ℕ) (k : ℕ) (rs : List AuditRecord) (r : AuditRecord)
    → seqs_of key k (rs ++ r ∷ [])
      ≡ (if key r == k then seqs_of key k rs ++ r.input.seq ∷ [] else seqs_of key k rs)
unfolding seqs_of
seqs_of-append key k [] r = ground arith
seqs_of-append key k (x ∷ rs) r = ground (arith, seqs_of-append key k rs r)
