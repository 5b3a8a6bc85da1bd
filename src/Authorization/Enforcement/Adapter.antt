-- ===== src/Authorization/Enforcement/Adapter.antt =====
-- What a boundary answers: backend/src/authorization/enforcement/enforcement-adapter.ts.
use xander.Prelude.{String, Bool, true, false, Option}

-- It worked, it did not work, or it is not known.
pub data EnforcementOutcome : Type 0 where
  confirmed failed unknown : EnforcementOutcome

-- Which boundary answered; an adapter's `name`.
pub data AdapterName : Type 0 where
  local ens_eac : AdapterName

pub record EnforcementResult : Type 0 where
  pub outcome : EnforcementOutcome
  pub adapter : AdapterName
  pub reference : Option String

-- `enforceable` is none where the boundary could not answer.
pub record CapabilityState : Type 0 where
  pub enforceable : Option Bool
  pub adapter : AdapterName

abbrev pub is_confirmed : EnforcementOutcome → Bool
is_confirmed EnforcementOutcome.confirmed = true
is_confirmed _ = false

-- `isEnforced`
unfoldable pub is_enforced : EnforcementResult → Bool
is_enforced result = is_confirmed result.outcome
