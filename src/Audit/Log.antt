-- ===== src/Audit/Log.antt =====
-- Histories of the audit log.
use veritasor_contracts.Prelude.{
  ℕ, ◌+◌, ◌≡◌, ◌⊎◌, refl, sym, ◌∙◌, ap, true, List, [], ◌∷◌, ◌++◌, length, length-append, get_elem?,
  some, get_or, Env, Address, ok, arith, store, is_some, Option-cases, Result-cases, inl, inr,
}
use veritasor_contracts.Replay.{verify_and_increment_nonce, channel_admin}
use veritasor_contracts.Audit.Calls.{
  AuditRecordHashInput, AuditRecord, Audit, initialize, push, zero_hash, append,
}
use veritasor_contracts.Audit.Chain.{
  seqs_of, actor_of, contract_of, head_hash, IsChain, IsChain-append, Shows, deployed,
  head_hash-append, get_elem?-append, seqs_of-append,
}

module _ (sha256 : AuditRecordHashInput → ℕ) where
  -- What a returning append wrote, as one record.
  pub record Appended (env : Env) (r : AuditRecord) (s s' : Audit) : Type 0 where
    pub number : r.input.seq ≡ get_or s.next_seq 0
    pub before : r.input.prev_hash ≡ get_or s.last_hash zero_hash
    pub hashed : r.entry_hash ≡ sha256 r.input
    pub admins : s'.admin ≡ s.admin
    pub started : is_some s.admin ≡ true
    pub next : s'.next_seq ≡ some (r.input.seq + 1)
    pub head : s'.last_hash ≡ some r.entry_hash
    pub entries : s'.entry ≡ store s.entry r.input.seq r
    pub actors : s'.actor_index ≡ push s.actor_index (actor_of r) r.input.seq
    pub contracts : s'.contract_index ≡ push s.contract_index (contract_of r) r.input.seq

  -- The entry that an append makes.
  abbrev pub entry_for : Env → Address → Address → ℕ → ℕ → Audit → AuditRecord
  entry_for env actor contract action payload s =
      let input : AuditRecordHashInput = record {
        seq = get_or s.next_seq 0;
        actor = actor;
        source_contract = contract;
        action = action;
        payload = payload;
        ledger_seq = env.sequence;
        prev_hash = get_or s.last_hash zero_hash;
      } in
      record { input = input; entry_hash = sha256 input }

  append-ok :
      (env : Env) (nonce : ℕ) (actor contract : Address) (action payload n : ℕ) (s s' : Audit)
      → append sha256 env nonce actor contract action payload s ≡ ok (n, s')
      → Appended env (entry_for env actor contract action payload s) s s'
  unfolding append
  append-ok env nonce actor contract action payload n s s' h = elim (Option-cases s.admin) [
    | inl e ↦ absurd (ground (arith, e))
    | inr (a, e) ↦ elim (Result-cases (verify_and_increment_nonce a channel_admin nonce s.nonces)) [
      | inr (bad, f) ↦ absurd (ground (arith, e, f))
      | inl ((u, nonces), f) ↦ record {
        number = refl;
        before = refl;
        hashed = refl;
        admins = ground (arith, e, f);
        started = ground (arith, e);
        next = ground (arith, e, f);
        head = ground (arith, e, f);
        entries = ground (arith, e, f);
        actors = ground (arith, e, f);
        contracts = ground (arith, e, f);
      }
    ]
  ]

  Appended-Shows :
      (env : Env) (r : AuditRecord) (rs : List AuditRecord) (s s' : Audit)
      → Appended env r s s'
      → Shows sha256 rs s
      → Shows sha256 (rs ++ r ∷ []) s'
  Appended-Shows env r rs s s' w v =
      let at_end : r.input.seq ≡ length rs = w.number ∙ v.number in
      record {
        number = ap (λ o. get_or o 0) w.next ∙ omega (arith, at_end, length-append rs (r ∷ []));
        head = ap (λ o. get_or o zero_hash) w.head ∙ sym (head_hash-append zero_hash rs r);
        entries = λ n.
            ap (λ f. f n) w.entries ∙ ground (arith, at_end, v.entries n, get_elem?-append rs r n);
        actors = λ a.
            ap (λ f. get_or (f a) []) w.actors
            ∙ ground (arith, v.actors a, v.actors (actor_of r), seqs_of-append actor_of a rs r);
        contracts = λ c.
            ap (λ f. get_or (f c) []) w.contracts
            ∙ ground (
              arith,
              v.contracts c,
              v.contracts (contract_of r),
              seqs_of-append contract_of c rs r,
            );
        chain =
            IsChain-append sha256 0 zero_hash rs r v.chain (omega (arith, at_end))
              (w.before ∙ v.head) w.hashed;
      }

  -- Calls from the deployment, with the entries that they appended, the oldest first.
  pub data History : List AuditRecord → Audit → Type 0 where
    start : History [] deployed
    initializing :
        {rs : List AuditRecord} {s s' : Audit} (env : Env) (admin : Address) (nonce : ℕ)
        → History rs s
        → initialize env admin nonce s ≡ ok (tt, s')
        → History rs s'
    appending :
        {rs : List AuditRecord} {s s' : Audit} (env : Env) (nonce : ℕ) (actor contract : Address)
        (action payload n : ℕ)
        → History rs s
        → append sha256 env nonce actor contract action payload s ≡ ok (n, s')
        → History (rs ++ entry_for env actor contract action payload s ∷ []) s'

  -- Before the initialisation nothing is appended.
  abbrev IsFresh : Audit → List AuditRecord → Type 0
  IsFresh s rs = (is_some s.admin ≡ true) ⊎ (rs ≡ [])

  initialize-Shows :
      (env : Env) (admin : Address) (nonce : ℕ) (rs : List AuditRecord) (s s' : Audit)
      → initialize env admin nonce s ≡ ok (tt, s')
      → Shows sha256 rs s
      → IsFresh s rs
      → Shows sha256 rs s' × IsFresh s' rs
  unfolding initialize head_hash
  initialize-Shows env admin nonce rs s s' h v fresh =
      elim (Result-cases (verify_and_increment_nonce admin channel_admin nonce s.nonces)) [
        | inr (bad, f) ↦ absurd (ground (arith, f))
        | inl ((u, nonces), f) ↦ elim fresh [
          | inl old ↦ absurd (ground (arith, f, old))
          | inr none_yet ↦
              let head : s'.last_hash ≡ some zero_hash = ground (arith, f) in
              let entries : s'.entry ≡ s.entry = ground (arith, f) in
              let actors : s'.actor_index ≡ s.actor_index = ground (arith, f) in
              let contracts : s'.contract_index ≡ s.contract_index = ground (arith, f) in
              (
                record {
                  number = ground (arith, f, none_yet);
                  head =
                      ap (λ o. get_or o zero_hash) head ∙ ap (head_hash zero_hash) (sym none_yet);
                  entries = λ n. ap (λ g. g n) entries ∙ v.entries n;
                  actors = λ a. ap (λ g. get_or (g a) []) actors ∙ v.actors a;
                  contracts = λ c. ap (λ g. get_or (g c) []) contracts ∙ v.contracts c;
                  chain = v.chain;
                },
                inr none_yet,
              )
        ]
      ]

  History-Shows :
      (rs : List AuditRecord) (s : Audit) → History rs s → Shows sha256 rs s × IsFresh s rs
  unfolding head_hash seqs_of
  History-Shows rs s start = (
    record {
      number = refl;
      head = refl;
      entries = λ n. refl;
      actors = λ a. refl;
      contracts = λ c. refl;
      chain = tt;
    },
    inr refl,
  )
  History-Shows rs s (initializing {s = t} env admin nonce past h) =
      let (v, fresh) = History-Shows rs t past in initialize-Shows env admin nonce rs t s h v fresh
  History-Shows rs s
        (appending {rs = old} {s = t} env nonce actor contract action payload n past h) =
      let w = append-ok env nonce actor contract action payload n t s h in
      let (v, fresh) = History-Shows old t past in
      (
        Appended-Shows env (entry_for env actor contract action payload t) old t s w v,
        inl (ap is_some w.admins ∙ w.started),
      )

  -- After every history of calls the storage refines the list of the entries appended: the counter is
  -- their number, the entry of each number is the one in that place and there is no other, the
  -- entries form a hash chain from the zero hash that ends in the stored head, and each index lists
  -- the numbers of the entries of its actor or contract in their order.
  pub log_refines :
      (rs : List AuditRecord) (s : Audit)
      → History rs s
      → (get_or s.next_seq 0 ≡ length rs)
        × ((n : ℕ) → s.entry n ≡ get_elem? rs n)
        × IsChain sha256 0 zero_hash rs
        × (get_or s.last_hash zero_hash ≡ head_hash zero_hash rs)
        × ((a : ℕ) → get_or (s.actor_index a) [] ≡ seqs_of actor_of a rs)
        × ((c : ℕ) → get_or (s.contract_index c) [] ≡ seqs_of contract_of c rs)
  log_refines rs s past =
      let v = (History-Shows rs s past).0 in
      (v.number, v.entries, v.chain, v.head, v.actors, v.contracts)
