-- ===== src/Control/Rows.antt =====
-- The arguments, rows and errors of a decision in backend/src/control/control-service.ts, and what
-- it writes.
use xander.Prelude.{ℕ, String, Bool, true, false, Option, none, some, List, str_eq, if◌then◌else◌}
use xander.Prelude.Table.{Table}
use xander.Capabilities.Types.{CapabilityType}
use xander.Capabilities.Store.{Capability}
use xander.Agents.Rows.{AgentError}
use xander.Control.Auth.{OperatorCommand, command_name, AuthorizationCheck}
use xander.Control.Pending.{PendingAction, PendingStatus}

pub record AuthenticatedOperator : Type 0 where
  pub operator_id : String
  pub session_id : String
  pub device_id : String
  pub actor_scope : List String
  pub action_scope : List String

pub record DecisionInput : Type 0 where
  pub action_id : String
  pub command : OperatorCommand
  pub binding_hash : String
  pub nonce : String
  pub limit_amount : Option String
  pub step_up_proof_id : Option String
  pub now : ℕ

pub data AuditOutcome : Type 0 where
  allowed denied : AuditOutcome

pub record AuditEntry : Type 0 where
  pub operator_id : Option String
  pub session_id : Option String
  pub device_id : Option String
  pub action : String
  pub subject : Option String
  pub outcome : AuditOutcome
  pub nonce : Option String

-- The errors of the control plane, and what an agent service threw.
pub data ControlError : Type 0 where
  no_such_action not_pending action_expired not_authorized not_legal binding_mismatch
        step_up_required already_submitted :
      ControlError
  agent_failed : AgentError → ControlError

pub record ControlTables : Type 1 where
  pub pending : Table PendingAction
  pub audit : Table AuditEntry

-- What a refusal puts on file, and what a decision does.
abbrev pub denial : AuthenticatedOperator → DecisionInput → AuditEntry
denial operator input = record {
  operator_id = some operator.operator_id;
  session_id = some operator.session_id;
  device_id = some operator.device_id;
  action = command_name input.command;
  subject = some input.action_id;
  outcome = AuditOutcome.denied;
  nonce = none;
}

abbrev pub approval : AuthenticatedOperator → DecisionInput → PendingAction → AuditEntry
approval operator input action = record {
  operator_id = some operator.operator_id;
  session_id = some operator.session_id;
  device_id = some operator.device_id;
  action = command_name input.command;
  subject = some action.id;
  outcome = AuditOutcome.allowed;
  nonce = some input.nonce;
}

abbrev pub decide_action : AuthenticatedOperator → DecisionInput → PendingAction → PendingAction
decide_action operator input a = record a {
  status = PendingStatus.decided;
  decided_at = some input.now;
  decided_by = some operator.operator_id;
  decision = some input.command;
  limit_amount = input.limit_amount;
  step_up_proof_id = input.step_up_proof_id;
}

abbrev pub has_nonce : String → AuditEntry → Bool
has_nonce nonce e = elim e.nonce [ none ↦ false | some n ↦ str_eq n nonce ]

abbrev pub limited : String → Capability → Capability
limited amount c = record c {
  amount_limit = some amount;
  capability_type = CapabilityType.attenuated_grant;
}

abbrev pub is_authorized : AuthorizationCheck → Bool
is_authorized AuthorizationCheck.allowed = true
is_authorized _ = false

-- An id that is there and not the empty text.
abbrev pub named : Option String → Option String
named none = none
named (some id) = if str_eq id "" then none else some id
