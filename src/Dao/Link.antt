-- ===== src/Dao/Link.antt =====
-- The DAO as the source of the attestation contract's fee configuration
-- (`get_fee_config_from_dao` in contracts/attestation/src/dynamic_fees.rs calls
-- `get_attestation_fee_config` of contracts/protocol-dao/src/lib.rs).
use veritasor_contracts.Prelude.{
  ℕ, ◌≡◌, ◌∙◌, sym, ap, Option, none, some, Env, Address, ok, arith, ◌==◌, ==_refl, if◌then◌else◌,
  some_injective,
}
use veritasor_contracts.Fees.{Fees, FeeConfig, get_effective_fee_config}
use veritasor_contracts.Dao.Types.{FeeTuple, Dao, set_attestation_fee_config, Proposal}
use veritasor_contracts.Dao.Calls.{apply_action, execute_proposal}
use veritasor_contracts.Dao.Settle.{execute_proposal-ok}

abbrev pub config_of : FeeTuple → FeeConfig
config_of t = record {
  token = t.token;
  collector = t.collector;
  base_fee = t.base_fee;
  enabled = t.enabled;
}

-- The answers of the DAO deployed at `dao`, with the storage `s`; no other contract answers.
unfoldable pub answers : Address → Dao → Address → Option FeeConfig
answers dao s a =
    if a == dao
    then (elim s.attestation_fee_config [ none ↦ none | some t ↦ some (config_of t) ])
    else none

effective_of :
    {L : Type 0} (dao : Address) (s : Dao) (fees : Fees L) (config : FeeTuple)
    → fees.dao ≡ some dao
    → s.attestation_fee_config ≡ some config
    → get_effective_fee_config (answers dao s) fees ≡ some (config_of config)
unfolding answers get_effective_fee_config
effective_of dao s fees config bound stored = ground (arith, bound, stored, ==_refl dao)

-- When the DAO that an attestation contract is bound to executes a fee configuration proposal,
-- that configuration is the one which the attestation contract charges by, whatever it has stored
-- itself.
pub execute_proposal-get_effective_fee_config :
    {L : Type 0} (dao : Address) (env : Env) (x : Address) (id : ℕ) (s s' : Dao) (fees : Fees L)
    (p : Proposal) (config : FeeTuple)
    → fees.dao ≡ some dao
    → s.proposals id ≡ some p
    → p.action ≡ set_attestation_fee_config config
    → execute_proposal env x id s ≡ ok (tt, s')
    → get_effective_fee_config (answers dao s') fees ≡ some (config_of config)
unfolding apply_action
execute_proposal-get_effective_fee_config dao env x id s s' fees p config bound found acts h =
    let (q, t, found', live, early, enough, won, ran, result) =
      execute_proposal-ok env x id s s' h in
    let same : q.action ≡ set_attestation_fee_config config =
      ap (λ r. r.action) (some_injective q p (sym found' ∙ found)) ∙ acts in
    let written : t.attestation_fee_config ≡ some config =
      ground (arith, ap (λ a. apply_action a s) (sym same) ∙ ran) in
    effective_of dao s' fees config bound (ap (λ r. r.attestation_fee_config) result ∙ written)
