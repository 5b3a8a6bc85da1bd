-- ===== src/Authorization/Enforcement/Local.antt =====
-- Xander's own store as a boundary: backend/src/authorization/enforcement/local-adapter.ts.
pub mod Laws
use xander.Prelude.{
  ℕ, String, Bool, true, false, ◌&&◌, ◌||◌, Option, none, some, if◌then◌else◌, str_eq,
}
use xander.Capabilities.Types.{CapabilityStatus, CapabilityType, CapabilityLimits, is_active}
use xander.Capabilities.Store.{
  Capability, Database, State, CheckArgs, with_status, check_capability,
}
use xander.Authorization.Enforcement.Adapter.{
  EnforcementOutcome, AdapterName, EnforcementResult, CapabilityState,
}

abbrev pub is_suspended : CapabilityStatus → Bool
is_suspended CapabilityStatus.suspended = true
is_suspended _ = false

abbrev pub is_revoked : CapabilityStatus → Bool
is_revoked CapabilityStatus.revoked = true
is_revoked _ = false

abbrev pub outcome_if : Bool → EnforcementOutcome
outcome_if true = EnforcementOutcome.confirmed
outcome_if false = EnforcementOutcome.failed

abbrev pub local_result : EnforcementOutcome → Option String → EnforcementResult
local_result outcome reference = record {
  outcome = outcome;
  adapter = AdapterName.local;
  reference = reference;
}

-- The `where` clause of a revocation by id.
abbrev pub is_withdrawable : String → Capability → Bool
is_withdrawable id c = str_eq c.id id && (is_active c.status || is_suspended c.status)

abbrev pub narrowed : CapabilityLimits → Capability → Capability
narrowed limits c = record c {
  amount_limit = limits.amount_limit;
  frequency_limit = limits.frequency_limit;
  frequency_window_seconds = limits.frequency_window_seconds;
  capability_type = CapabilityType.attenuated_grant;
}

abbrev pub revoked_row : Option Capability → Bool
revoked_row none = false
revoked_row (some c) = is_revoked c.status

module _ (D : Database) where
  unfoldable pub find_capability : String → State D → Option Capability
  find_capability id s = D.capability.find_unique (λ c. str_eq c.id id) s.capabilities

  -- `grant`: the row is the grant, so this confirms it.
  unfoldable pub local_grant : String → State D → EnforcementResult
  local_grant id s = elim (find_capability id s) [
    | none ↦ local_result EnforcementOutcome.failed none
    | some c ↦ local_result (outcome_if (is_active c.status)) (some c.id)
  ]

  -- The state after the `updateMany` of `revoke`.
  unfoldable pub revoked_state : String → State D → State D
  revoked_state id s = record s {
    capabilities =
        (D.capability.update_many (is_withdrawable id) (with_status CapabilityStatus.revoked)
          s.capabilities).1;
  }

  -- `revoke`: the row is read again, so a row that was revoked before confirms too.
  unfoldable pub local_revoke : String → State D → EnforcementResult × State D
  local_revoke id s =
      let after = revoked_state id s in
      (local_result (outcome_if (revoked_row (find_capability id after))) (some id), after)

  -- `attenuate`
  unfoldable pub local_attenuate : String → CapabilityLimits → State D → EnforcementResult × State D
  local_attenuate id limits s = elim (find_capability id s) [
    | none ↦ (local_result EnforcementOutcome.failed none, s)
    | some c ↦ (
      local_result EnforcementOutcome.confirmed (some id),
      record s {
        capabilities =
            (D.capability.update_many (λ r. str_eq r.id id) (narrowed limits) s.capabilities).1;
      },
    )
  ]

  -- `inspect`
  unfoldable pub local_inspect : State D → CheckArgs → ℕ → CapabilityState
  local_inspect s args now = record {
    enforceable = some (check_capability D s args now).allowed;
    adapter = AdapterName.local;
  }
