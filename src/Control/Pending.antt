-- ===== src/Control/Pending.antt =====
-- What waits for a human: `createPendingAction` and `listPendingActions` of
-- backend/src/control/control-service.ts.
use xander.Prelude.{
  ℕ, ◌+◌, ◌*◌, String, Bool, true, false, ◌&&◌, Option, none, some, List, any, leb, map,
}
use xander.Prelude.Table.{Table}
use xander.Control.Auth.{OperatorCommand, command_name, compute_binding_hash, requires_step_up}

pub data PendingStatus : Type 0 where
  pending decided expired cancelled : PendingStatus

pub record PendingAction : Type 0 where
  pub id : String
  pub subject_type : String
  pub subject_id : String
  pub summary : String
  pub allowed : List String
  pub actor_id : Option String
  pub agent_id : Option String
  pub incident_id : Option String
  pub intent_id : Option String
  pub severity : String
  pub binding_hash : String
  pub status : PendingStatus
  pub created_at : ℕ
  pub expires_at : ℕ
  pub requires_step_up : Bool
  pub decided_at : Option ℕ
  pub decided_by : Option String
  pub decision : Option OperatorCommand
  pub limit_amount : Option String
  pub step_up_proof_id : Option String

pub record CreatePendingActionInput : Type 0 where
  pub subject_type : String
  pub subject_id : String
  pub summary : String
  pub allowed : List OperatorCommand
  pub actor_id : Option String
  pub agent_id : Option String
  pub incident_id : Option String
  pub intent_id : Option String
  pub amount : Option String
  pub severity : Option String
  pub ttl_seconds : Option ℕ

-- The configuration that the control plane reads, and the hash.
pub record ControlSetting : Type 0 where
  pub sha256 : String → String
  pub step_up_enabled : Bool
  pub pending_ttl_seconds : ℕ

abbrev pub or_else {ℓ} : {A : Type ℓ} → Option A → A → A
or_else none a = a
or_else (some a) _ = a

abbrev pub is_pending : PendingStatus → Bool
is_pending PendingStatus.pending = true
is_pending _ = false

-- The row that `createPendingAction` writes, with the id that the database gives it.
unfoldable pub pending_action :
    ControlSetting → CreatePendingActionInput → String → ℕ → PendingAction
pending_action setting input id now = record {
  id = id;
  subject_type = input.subject_type;
  subject_id = input.subject_id;
  summary = input.summary;
  allowed = map command_name input.allowed;
  actor_id = input.actor_id;
  agent_id = input.agent_id;
  incident_id = input.incident_id;
  intent_id = input.intent_id;
  severity = or_else input.severity "MEDIUM";
  binding_hash =
      compute_binding_hash setting.sha256 input.subject_type input.subject_id input.summary
        input.amount;
  status = PendingStatus.pending;
  created_at = now;
  expires_at = now + or_else input.ttl_seconds setting.pending_ttl_seconds * 1000;
  requires_step_up =
      any (λ c. requires_step_up (command_name c) setting.step_up_enabled) input.allowed;
  decided_at = none;
  decided_by = none;
  decision = none;
  limit_amount = none;
  step_up_proof_id = none;
}

-- The `where` clause of the expiry in place, and what it writes.
abbrev pub is_overdue : ℕ → PendingAction → Bool
is_overdue now a = is_pending a.status && leb a.expires_at now

abbrev pub expire_action : PendingAction → PendingAction
expire_action a = record a { status = PendingStatus.expired }

module _ (P : Table PendingAction) where
  -- `createPendingAction`
  unfoldable pub create_pending_action :
      ControlSetting → CreatePendingActionInput → String → ℕ → P.Db → P.Db
  create_pending_action setting input id now db = P.create (pending_action setting input id now) db

  -- `listPendingActions`, before the number of rows is cut
  unfoldable pub list_pending_actions : ℕ → P.Db → List PendingAction × P.Db
  list_pending_actions now db =
      let swept = (P.update_many (is_overdue now) expire_action db).1 in
      (P.find_many (λ a. is_pending a.status) (λ a. a.created_at) swept, swept)
