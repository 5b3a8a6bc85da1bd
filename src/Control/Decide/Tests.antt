-- ===== src/Control/Decide/Tests.antt =====
-- A pending action about one actor, and the theorems at it.
use xander.Prelude.{
  ◌≡◌, ◌≢◌, ◌⊎◌, refl, true, none, some, List, [], ◌∷◌, In, All, inl, arith, eq_iff,
}
use xander.Prelude.Memory.{memory}
use xander.Prelude.Effects.{returns}
use xander.Capabilities.Types.{CapabilityDenial}
use xander.Capabilities.Store.{denied, check_capability}
use xander.Capabilities.Tests.{database, state, args}
use xander.Authorization.Enforcement.Tests.{chain, label_of}
use xander.Trust.Mutation.{update_status}
use xander.Agents.Rows.{AgentTables}
use xander.Control.Auth.{
  OperatorCommand, authorize_operator_action, is_in_scope, check_actor_scope, is_allowed_decision,
  requires_step_up,
}
use xander.Control.Pending.{PendingAction, PendingStatus, ControlSetting}
use xander.Control.Decide.{
  ControlWorld, audit, has_step_up, refusal_of, deny_actor, apply_command, carry_out, answer,
  decide_pending_action,
}
use xander.Control.Rows.{
  AuthenticatedOperator, DecisionInput, AuditEntry, ControlError, ControlTables, approval,
}
use xander.Control.Decide.Nonce.{IsRefused, decide_pending_action_replayed}
use xander.Control.Decide.Laws.{IsEntitled, decide_pending_action_sound}
use xander.Control.Decide.Effect.{denying, decide_pending_action-check}

abbrev agents : AgentTables
agents = record { agent = memory; signal = memory; challenge = memory; liveness = memory }

abbrev tables : ControlTables
tables = record { pending = memory; audit = memory }

abbrev setting : ControlSetting
setting = record { sha256 = λ text. text; step_up_enabled = true; pending_ttl_seconds = 3600 }

abbrev operator : AuthenticatedOperator
operator = record {
  operator_id = "op-1";
  session_id = "session-1";
  device_id = "phone";
  actor_scope = "alice" ∷ [];
  action_scope = [];
}

abbrev action : PendingAction
action = record {
  id = "action-1";
  subject_type = "INCIDENT";
  subject_id = "incident-1";
  summary = "what happened";
  allowed = "DENY" ∷ "FREEZE" ∷ [];
  actor_id = some "alice";
  agent_id = none;
  incident_id = none;
  intent_id = none;
  severity = "HIGH";
  binding_hash = "bound";
  status = PendingStatus.pending;
  created_at = 50;
  expires_at = 5000;
  requires_step_up = true;
  decided_at = none;
  decided_by = none;
  decision = none;
  limit_amount = none;
  step_up_proof_id = none;
}

abbrev input : DecisionInput
input = record {
  action_id = "action-1";
  command = OperatorCommand.deny;
  binding_hash = "bound";
  nonce = "nonce-1";
  limit_amount = none;
  step_up_proof_id = none;
  now = 100;
}

abbrev world : List AuditEntry → ControlWorld database chain agents tables label_of
world audits = record {
  agents = record { agents = []; signals = []; challenges = []; livenesses = []; store = state };
  chain = true;
  pendings = action ∷ [];
  audits = audits;
}

after : ControlWorld database chain agents tables label_of
unfolding decide_pending_action answer carry_out apply_command deny_actor audit refusal_of
    authorize_operator_action is_in_scope check_actor_scope is_allowed_decision requires_step_up
    has_step_up update_status
after =
    (decide_pending_action database chain agents tables label_of setting operator input
      (world [])).1

decided :
    decide_pending_action database chain agents tables label_of setting operator input (world [])
    ≡ (returns true, after)
unfolding decide_pending_action answer carry_out apply_command deny_actor audit refusal_of
    authorize_operator_action is_in_scope check_actor_scope is_allowed_decision requires_step_up
    has_step_up update_status after
decided = refl

decide_pending_action_replayed_example :
    (e : ControlError) × IsRefused database chain agents tables label_of
      (world (approval operator input action ∷ []))
      e
      (decide_pending_action database chain agents tables label_of setting operator input
        (world (approval operator input action ∷ [])))
decide_pending_action_replayed_example =
    decide_pending_action_replayed database chain agents tables label_of setting operator input
      (world (approval operator input action ∷ [])) (approval operator input action) (inl refl) refl
      (ground (arith, eq_iff "nonce-1" ""))

decide_pending_action_sound_example :
    ((a : PendingAction) × In a (action ∷ [])
      × (a.id ≡ "action-1")
      × IsEntitled database chain agents tables label_of setting operator input a (world []))
    × ((input.nonce ≡ "") ⊎ All (λ (r : AuditEntry). r.nonce ≢ some input.nonce) [])
decide_pending_action_sound_example =
    decide_pending_action_sound database chain agents tables label_of setting operator input
      (world []) after true decided

decide_pending_action-check_example :
    check_capability database after.agents.store args 200 ≡ denied none CapabilityDenial.not_found
decide_pending_action-check_example =
    decide_pending_action-check database chain agents tables label_of setting operator input action
      "alice" (world []) after true args 200 refl refl (ground (arith, eq_iff "alice" "")) denying
      decided refl
