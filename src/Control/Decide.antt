-- ===== src/Control/Decide.antt =====
-- A human decides: `authenticate`, `decidePendingAction`, `applyCommand`, `deny` and `audit` of
-- backend/src/control/control-service.ts. A request runs with no other between its steps; the signal
-- to a workflow, the reasons as text and failures of the audit other than a nonce that is taken are
-- left out.
pub mod Laws
pub mod Nonce
pub mod Effect
mod Tests
use xander.Prelude.{
  ℕ, ◌<◌, String, Bool, true, false, ◌&&◌, ◌||◌, not, Option, none, some, List, [], ◌∷◌, length,
  ltb, leb, str_eq, is_none, if◌then◌else◌,
}
use xander.Prelude.Table.{Table}
use xander.Prelude.Effects.{
  Outcome, returns, throws, Program, pure, throw, reads, writes, expect, require, ◌>>=◌, ◌>>◌,
}
use xander.Capabilities.Types.{CapabilityStatus, CapabilityType}
use xander.Capabilities.Store.{Capability, Database, State}
use xander.Authorization.Enforcement.EnsEac.{Chain}
use xander.Authorization.Enforcement.Service.{Boundaries}
use xander.Authorization.Enforcement.Sweep.{revoke_each, held_by}
use xander.Trust.Mutation.{is_exercisable, update_status}
use xander.World.Replay.{ChallengeStatus}
use xander.Policy.Challenges.{is_passed}
use xander.Agents.Service.{AgentWorld, AgentProgram, freeze_agent, unfreeze_agent}
use xander.Agents.Rows.{Agent, AgentError, AgentTables}
use xander.Control.Auth.{
  OperatorCommand, command_name, Session, SessionCheck, check_session, AuthorizationCheck,
  authorize_operator_action, requires_step_up, is_allowed_decision,
}
use xander.Control.Pending.{PendingAction, PendingStatus, ControlSetting, is_pending, expire_action}
use xander.Control.Rows.{
  AuditEntry, AuditOutcome, AuthenticatedOperator, ControlError, ControlTables, DecisionInput,
  approval, decide_action, denial, has_nonce, is_authorized, limited, named,
}

module _ (D : Database) (C : Chain) (A : AgentTables) (T : ControlTables)
    (label_of : String → Option String) where
  pub record ControlWorld : Type 0 where
    pub agents : AgentWorld D A
    pub chain : C.World
    pub pendings : T.pending.Db
    pub audits : T.audit.Db

  abbrev pub ControlProgram : Type 0 → Type 0
  ControlProgram X = Program ControlWorld ControlError X

  abbrev pub boundaries_of : ControlWorld → Boundaries D C
  boundaries_of w = record { store = w.agents.store; chain = w.chain }

  abbrev pub with_boundaries : Boundaries D C → ControlWorld → ControlWorld
  with_boundaries b w = record w { agents = record (w.agents) { store = b.store }; chain = b.chain }

  abbrev pub set_store : State D → ControlWorld → ControlWorld
  set_store s w = record w { agents = record (w.agents) { store = s } }

  -- What the agent service returned or threw.
  abbrev pub from_agents :
      Outcome AgentError Agent × AgentWorld D A
      → ControlWorld
      → Outcome ControlError Agent × ControlWorld
  from_agents (returns a, v) w = (returns a, record w { agents = v })
  from_agents (throws e, v) w = (throws (ControlError.agent_failed e), record w { agents = v })

  -- A call of the agent service.
  abbrev pub call_agents : AgentProgram D A Agent → ControlProgram Agent
  call_agents m w = from_agents (m w.agents) w

  -- `audit`: the index on the nonce is unique; the error passes on only if there is a nonce.
  unfoldable pub audit : AuditEntry → ControlProgram (Unit {0})
  audit entry = elim entry.nonce [
    | none ↦ writes (λ w. record w { audits = T.audit.create entry w.audits })
    | some nonce ↦ (do
      taken ← reads (λ w. ltb 0 (T.audit.count (has_nonce nonce) w.audits))
      if taken
          then (if str_eq nonce "" then pure tt else throw ControlError.already_submitted)
          else writes (λ w. record w { audits = T.audit.create entry w.audits }))
  ]

  -- `deny`
  unfoldable pub deny : AuthenticatedOperator → DecisionInput → ControlError → ControlProgram Bool
  deny operator input e = audit (denial operator input) >> throw e

  -- Whether a step-up that was named has passed.
  unfoldable pub has_step_up : Option String → ControlWorld → Bool
  has_step_up proof w = elim (named proof) [
    | none ↦ false
    | some id ↦ elim (A.challenge.find_unique (λ c. str_eq c.id id) w.agents.challenges) [
      | none ↦ false
      | some c ↦ is_passed c.status
    ]
  ]

  -- The guards of `decidePendingAction` from the scopes to the step-up, in their order.
  unfoldable pub refusal_of :
      ControlSetting
      → AuthenticatedOperator
      → DecisionInput
      → PendingAction
      → ControlWorld
      → Option ControlError
  refusal_of setting operator input action w =
      let command = command_name input.command in
      if not (
        is_authorized (
          authorize_operator_action "ACTIVE" operator.actor_scope operator.action_scope command
            action.actor_id))
      then some ControlError.not_authorized
      else if not (is_allowed_decision action.allowed command)
      then some ControlError.not_legal
      else if not (str_eq action.binding_hash input.binding_hash)
      then some ControlError.binding_mismatch
      else if (action.requires_step_up && requires_step_up command setting.step_up_enabled)
          && not (has_step_up input.step_up_proof_id w)
      then some ControlError.step_up_required
      else none

  unfoldable pub revoke_actor : Option String → ControlProgram Bool
  revoke_actor none w = pure false w
  revoke_actor (some actor) w =
      let capabilities = held_by D C label_of actor (boundaries_of w) in
      (
        returns (ltb 0 (length capabilities)),
        with_boundaries (revoke_each D C label_of actor capabilities (boundaries_of w)) w,
      )

  unfoldable pub limit_actor : Option String → Option String → ControlProgram Bool
  limit_actor none _ w = pure false w
  limit_actor (some actor) none w = pure false w
  limit_actor (some actor) (some amount) w =
      let (count, db) =
        D.capability.update_many (is_exercisable actor) (limited amount)
          w.agents.store.capabilities in
      (returns (ltb 0 count), set_store (record (w.agents.store) { capabilities = db }) w)

  unfoldable pub deny_actor : Option String → ControlProgram Bool
  deny_actor none w = pure false w
  deny_actor (some actor) w =
      let (count, store) =
        update_status D (is_exercisable actor) CapabilityStatus.suspended w.agents.store in
      (returns (ltb 0 count), set_store store w)

  unfoldable pub freeze_named : Option String → ControlProgram Bool
  freeze_named none = pure false
  freeze_named (some agent) = do frozen ← call_agents (freeze_agent D A agent); pure true

  unfoldable pub unfreeze_named : ℕ → Option String → ControlProgram Bool
  unfreeze_named now none = pure false
  unfreeze_named now (some agent) = do
    thawed ← call_agents (unfreeze_agent D A now agent)
    pure true

  -- `applyCommand`: whether something was changed
  unfoldable pub apply_command :
      ℕ → PendingAction → OperatorCommand → Option String → ControlProgram Bool
  apply_command now action OperatorCommand.freeze limit = freeze_named (named action.agent_id)
  apply_command now action OperatorCommand.unfreeze limit =
      unfreeze_named now (named action.agent_id)
  apply_command now action OperatorCommand.revoke limit = revoke_actor (named action.actor_id)
  apply_command now action OperatorCommand.limit limit =
      limit_actor (named action.actor_id) (named limit)
  apply_command now action OperatorCommand.deny limit = deny_actor (named action.actor_id)
  apply_command now action OperatorCommand.approve limit = pure false
  apply_command now action OperatorCommand.extend limit = pure false

  abbrev pub update_action : String → (PendingAction → PendingAction) → ControlWorld → ControlWorld
  update_action id f w = record w {
    pendings = (T.pending.update_many (λ a. str_eq a.id id) f w.pendings).1;
  }

  -- The rest of `decidePendingAction`, once every guard has passed: the nonce is claimed first.
  unfoldable pub carry_out :
      AuthenticatedOperator → DecisionInput → PendingAction → ControlProgram Bool
  carry_out operator input action = do
    audit (approval operator input action)
    applied ← apply_command input.now action input.command input.limit_amount
    writes (update_action action.id (decide_action operator input))
    pure applied

  -- `decidePendingAction`, once the action is there
  unfoldable pub answer :
      ControlSetting → AuthenticatedOperator → DecisionInput → PendingAction → ControlProgram Bool
  answer setting operator input action =
      if not (is_pending action.status)
      then deny operator input ControlError.not_pending
      else if leb action.expires_at input.now
      then writes (update_action action.id expire_action)
        >> deny operator input ControlError.action_expired
      else reads (refusal_of setting operator input action) >>= (λ refused. elim refused [
        | some e ↦ deny operator input e
        | none ↦ carry_out operator input action
      ])

  -- `decidePendingAction`, with whether something local was changed
  unfoldable pub decide_pending_action :
      ControlSetting → AuthenticatedOperator → DecisionInput → ControlProgram Bool
  decide_pending_action setting operator input = do
    found ← reads (λ w. T.pending.find_unique (λ a. str_eq a.id input.action_id) w.pendings)
    elim found [
      | none ↦ deny operator input ControlError.no_such_action
      | some action ↦ answer setting operator input action
    ]
