-- ===== src/Authorization/Enforcement/EnsEac.antt =====
-- Roles on the ENS registry as a boundary:
-- backend/src/authorization/enforcement/ens-eac-adapter.ts, and `hasOnChainRole` of
-- backend/src/ens/agent-identity.ts. The chain is a parameter.
pub mod Laws
use xander.Prelude.{ℕ, String, Bool, true, false, not, Option, none, some}
use xander.Ens.Roles.{agent_role_for_action}
use xander.Authorization.Enforcement.Adapter.{
  EnforcementOutcome, AdapterName, EnforcementResult, CapabilityState,
}
use xander.Authorization.Enforcement.Local.{outcome_if}

-- How a call of something remote ends: it returns, or it throws.
pub data Attempt {ℓ} (A : Type ℓ) : Type ℓ where
  returned : A → Attempt A
  threw : Attempt A

-- The registry contract, as the operator's client reads and writes it. A write that fails may have
-- changed the chain all the same.
pub record Chain : Type 1 where
  pub World : Type 0
  -- `hasRoles` of the contract, for a label and a role bitmap
  pub has_roles : World → String → ℕ → Attempt Bool
  -- `grantAgentRoles` and `revokeAgentRoles`, with the hash of the transaction
  pub grant_roles : World → String → ℕ → Attempt String × World
  pub revoke_roles : World → String → ℕ → Attempt String × World

abbrev pub eac_result : EnforcementOutcome → Option String → EnforcementResult
eac_result outcome reference = record {
  outcome = outcome;
  adapter = AdapterName.ens_eac;
  reference = reference;
}

abbrev pub eac_state : Option Bool → CapabilityState
eac_state enforceable = record { enforceable = enforceable; adapter = AdapterName.ens_eac }

-- What a second look at the chain makes of a transaction that went through.
unfoldable pub eac_verdict : Attempt Bool → (Bool → Bool) → String → EnforcementResult
eac_verdict threw wanted tx = eac_result EnforcementOutcome.unknown none
eac_verdict (returned held) wanted tx = eac_result (outcome_if (wanted held)) (some tx)

unfoldable pub inspect_verdict : Attempt Bool → CapabilityState
inspect_verdict threw = eac_state none
inspect_verdict (returned held) = eac_state (some held)

module _ (C : Chain) where
  -- `hasOnChainRole`: an action with no role bit is held by nobody.
  unfoldable pub has_on_chain_role : C.World → String → String → Attempt Bool
  has_on_chain_role w label action = elim (agent_role_for_action action) [
    | none ↦ returned false
    | some role ↦ C.has_roles w label role
  ]

  unfoldable pub grant_role : C.World → String → String → ℕ → EnforcementResult × C.World
  grant_role w label action role =
      let (attempt, w') = C.grant_roles w label role in
      elim attempt [
        | threw ↦ (eac_result EnforcementOutcome.unknown none, w')
        | returned tx ↦ (eac_verdict (has_on_chain_role w' label action) (λ held. held) tx, w')
      ]

  -- `grant`, for the label of the actor if it has one
  unfoldable pub eac_grant : Option String → String → C.World → EnforcementResult × C.World
  eac_grant none action w = (eac_result EnforcementOutcome.unknown none, w)
  eac_grant (some label) action w = elim (agent_role_for_action action) [
    | none ↦ (eac_result EnforcementOutcome.failed none, w)
    | some role ↦ grant_role w label action role
  ]

  unfoldable pub revoke_role : C.World → String → String → ℕ → EnforcementResult × C.World
  revoke_role w label action role =
      let (attempt, w') = C.revoke_roles w label role in
      elim attempt [
        | threw ↦ (eac_result EnforcementOutcome.unknown none, w')
        | returned tx ↦ (eac_verdict (has_on_chain_role w' label action) not tx, w')
      ]

  -- `revoke`: an action with no role bit is permitted by nothing, so it confirms.
  unfoldable pub eac_revoke : Option String → String → C.World → EnforcementResult × C.World
  eac_revoke none action w = (eac_result EnforcementOutcome.unknown none, w)
  eac_revoke (some label) action w = elim (agent_role_for_action action) [
    | none ↦ (eac_result EnforcementOutcome.confirmed none, w)
    | some role ↦ revoke_role w label action role
  ]

  -- `attenuate`: a role has no magnitude, so nothing is narrowed and nothing confirmed.
  unfoldable pub eac_attenuate : Option String → EnforcementResult
  eac_attenuate target = eac_result EnforcementOutcome.unknown none

  -- `inspect`
  unfoldable pub eac_inspect : Option String → String → C.World → CapabilityState
  eac_inspect none action w = eac_state none
  eac_inspect (some label) action w = inspect_verdict (has_on_chain_role w label action)
