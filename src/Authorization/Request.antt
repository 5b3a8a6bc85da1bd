-- ===== src/Authorization/Request.antt =====
-- What policy sees and what it answers: backend/src/authorization/policy-evaluator.ts, and the
-- results of backend/src/intent/intent-types.ts. A trust dimension is a number of millionths.
use xander.Prelude.{ℕ, String, Bool, Option, List}
use xander.Capabilities.Types.{CapabilityLimits}

pub data AuthorizationResult : Type 0 where
  allow limit challenge review block : AuthorizationResult

pub record AuthorizationActor : Type 0 where
  pub id : String
  pub actor_type : String
  pub status : String

pub record AuthorizationIntent : Type 0 where
  pub id : String
  pub action_type : String
  pub resource_type : String
  pub resource_id : String
  pub amount : Option String
  pub asset : Option String
  pub chain_id : Option ℕ
  pub target_address : Option String

pub record AuthorizationTrust : Type 0 where
  pub band : String
  pub coordination_risk : Option ℕ
  pub behavior_integrity : Option ℕ
  pub evidence_freshness : Option ℕ
  pub snapshot_id : Option String

pub record AuthorizationAssurance : Type 0 where
  pub has_live_lease : Bool
  pub level : Option String
  pub expires_at : Option ℕ

pub record HeldCapability : Type 0 where
  pub id : String
  pub action_type : String
  pub amount_limit : Option String
  pub expires_at : Option ℕ

pub record AuthorizationRequest : Type 0 where
  pub actor : AuthorizationActor
  pub intent : AuthorizationIntent
  pub trust : AuthorizationTrust
  pub assurance : AuthorizationAssurance
  pub current_capabilities : List HeldCapability

pub record AuthorizationOutcome : Type 0 where
  pub result : AuthorizationResult
  pub reason_code : String
  pub rule_id : Option String
  pub rule_name : Option String
  pub policy_id : Option String
  pub policy_version : String
  pub limits : Option CapabilityLimits
  pub attenuated : Bool
  pub required_assurance : Option String
