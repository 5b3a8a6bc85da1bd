-- ===== src/Intents/Rows.antt =====
-- What an authorization reads and writes: the arguments and rows of `authorize` and
-- `persistDecision` of backend/src/intent/intent-service.ts, `isExpired` of
-- backend/src/intent/intent-validator.ts. Hashes and texts are left out.
use xander.Prelude.{ℕ, String, Bool, true, false, not, Option, none, some, List, map, leb, is_none}
use Prim.Native.String.{◌++◌}
use xander.Capabilities.Types.{AssuranceLease, CapabilityLimits}
use xander.Capabilities.Store.{Capability, GrantInput}
use xander.Trust.Vector.{TrustVector}
use xander.Policy.Engine.{PolicyDecision}
use xander.Authorization.Request.{
  AuthorizationResult, AuthorizationRequest, AuthorizationOutcome, HeldCapability,
}

pub record Actor : Type 0 where
  pub id : String
  pub actor_type : String
  pub status : String

-- The arguments of `authorize`.
pub record Request : Type 0 where
  pub intent_id : String
  pub actor : Actor
  pub expires_at : ℕ
  pub now : ℕ
  pub resource_type : String
  pub resource_id : String
  pub action_type : String
  pub amount : Option String
  pub asset : Option String
  pub chain_id : Option ℕ
  pub target_address : Option String

-- What `buildTrustContext` returns; its throwing is none.
pub record TrustContext : Type 0 where
  pub band : String
  pub vector : TrustVector
  pub snapshot_id : String

-- The row that `persistDecision` writes.
pub record DecisionRow : Type 0 where
  pub id : String
  pub intent_id : String
  pub result : AuthorizationResult
  pub reason_code : String
  pub policy_version : String
  pub required_assurance : Option String
  pub risk_score : ℕ
  pub cluster_id : Option String
  pub confidence : String
  pub trust_snapshot_id : Option String
  pub policy_id : Option String

-- The receipt next to it, which says that nothing has been executed.
pub record ReceiptRow : Type 0 where
  pub intent_id : String
  pub decision_id : String
  pub actor_id : String
  pub policy_version : String
  pub trust_snapshot_id : Option String
  pub execution_status : String

-- `isExpired`
unfoldable pub is_expired : ℕ → ℕ → Bool
is_expired expires_at now = leb expires_at now

-- `persistDecision`
unfoldable pub receipt_of : Request → DecisionRow → ReceiptRow
receipt_of request row = record {
  intent_id = request.intent_id;
  decision_id = row.id;
  actor_id = request.actor.id;
  policy_version = row.policy_version;
  trust_snapshot_id = row.trust_snapshot_id;
  execution_status = "NOT_EXECUTED";
}

-- A decision before any risk was looked up.
unfoldable pub early_row : Request → String → AuthorizationResult → String → DecisionRow
early_row request id result reason_code = record {
  id = id;
  intent_id = request.intent_id;
  result = result;
  reason_code = reason_code;
  policy_version = "none";
  required_assurance = none;
  risk_score = 0;
  cluster_id = none;
  confidence = "LOW";
  trust_snapshot_id = none;
  policy_id = none;
}

-- A decision that is held because the evidence or the trust is not there.
unfoldable pub held_row : Request → String → PolicyDecision → Option String → DecisionRow
held_row request id policy snapshot_id = record {
  id = id;
  intent_id = request.intent_id;
  result = AuthorizationResult.review;
  reason_code = "EVIDENCE_NOT_FRESH";
  policy_version = policy.policy_version;
  required_assurance = policy.required_assurance;
  risk_score = policy.risk_score;
  cluster_id = policy.cluster_id;
  confidence = policy.confidence;
  trust_snapshot_id = snapshot_id;
  policy_id = none;
}

-- A decision of the policy evaluator.
unfoldable pub decided_row :
    Request → String → PolicyDecision → TrustContext → AuthorizationOutcome → DecisionRow
decided_row request id policy trust outcome = record {
  id = id;
  intent_id = request.intent_id;
  result = outcome.result;
  reason_code = outcome.reason_code;
  policy_version = outcome.policy_version;
  required_assurance = outcome.required_assurance;
  risk_score = policy.risk_score;
  cluster_id = policy.cluster_id;
  confidence = policy.confidence;
  trust_snapshot_id = some trust.snapshot_id;
  policy_id = outcome.policy_id;
}

abbrev pub lease_id_of : Option AssuranceLease → Option String
lease_id_of none = none
lease_id_of (some lease) = some lease.id

abbrev pub level_of : Option AssuranceLease → Option String
level_of none = none
level_of (some lease) = some lease.level

abbrev pub lease_end : Option AssuranceLease → Option ℕ
lease_end none = none
lease_end (some lease) = some lease.expires_at

abbrev pub held_capability : Capability → HeldCapability
held_capability c = record {
  id = c.id;
  action_type = c.action_type;
  amount_limit = c.amount_limit;
  expires_at = c.expires_at;
}

-- The request that the evaluator sees.
unfoldable pub evaluation_request :
    Request → TrustContext → Option AssuranceLease → List Capability → AuthorizationRequest
evaluation_request request trust lease held = record {
  actor = record {
    id = request.actor.id;
    actor_type = request.actor.actor_type;
    status = request.actor.status;
  };
  intent = record {
    id = request.intent_id;
    action_type = request.action_type;
    resource_type = request.resource_type;
    resource_id = request.resource_id;
    amount = request.amount;
    asset = request.asset;
    chain_id = request.chain_id;
    target_address = request.target_address;
  };
  trust = record {
    band = trust.band;
    coordination_risk = trust.vector.coordination_risk.value;
    behavior_integrity = trust.vector.behavior_integrity.value;
    evidence_freshness = trust.vector.evidence_freshness.value;
    snapshot_id = some trust.snapshot_id;
  };
  assurance = record {
    has_live_lease = not (is_none lease);
    level = level_of lease;
    expires_at = lease_end lease;
  };
  current_capabilities = map held_capability held;
}

unfoldable pub grant_input :
    Request → CapabilityLimits → String → Option AssuranceLease → Bool → GrantInput
grant_input request limits decision_id lease attenuated = record {
  actor_id = request.actor.id;
  action_type = request.action_type;
  resource_scope = request.resource_type ++ ":" ++ request.resource_id;
  chain_scope = request.chain_id;
  limits = limits;
  source_decision_id = some decision_id;
  assurance_lease_id = lease_id_of lease;
  attenuated = attenuated;
}

-- `outcome.result === 'ALLOW' || outcome.result === 'LIMIT'`
abbrev pub is_authorizing : AuthorizationResult → Bool
is_authorizing AuthorizationResult.allow = true
is_authorizing AuthorizationResult.limit = true
is_authorizing _ = false
