-- ===== src/Control/Decide/Effect.antt =====
-- What a decision that was carried out does to the actor it is about
-- (backend/src/control/control-service.ts).
use xander.Prelude.{
  ℕ, ◌≡◌, ◌≢◌, refl, sym, ap, String, Bool, false, Option, none, some, eq_iff, str_eq, arith,
}
use xander.Prelude.Effects.{Outcome, returns, proceed-returns}
use xander.Capabilities.Types.{CapabilityStatus, CapabilityDenial}
use xander.Capabilities.Store.{Database, CheckArgs, denied, check_capability}
use xander.Authorization.Enforcement.EnsEac.{Chain}
use xander.Authorization.Enforcement.Sweep.Laws.{revoke_each-IsIdle}
use xander.Trust.Mutation.{is_exercisable}
use xander.Trust.Mutation.Laws.{inactive-check, update_status-inactive, is_exercisable-covers}
use xander.Agents.Rows.{AgentTables}
use xander.Control.Auth.{OperatorCommand}
use xander.Control.Pending.{PendingAction, ControlSetting}
use xander.Control.Decide.{
  audit, revoke_actor, deny_actor, boundaries_of, apply_command, carry_out, decide_pending_action,
}
use xander.Control.Rows.{
  AuthenticatedOperator, DecisionInput, ControlError, ControlTables, approval, named,
}
use xander.Control.Decide.Nonce.{World}
use xander.Control.Decide.Laws.{answer_carried}

-- The commands that leave an actor with nothing.
pub data TakesAll : OperatorCommand → Type 0 where
  revoking : TakesAll OperatorCommand.revoke
  denying : TakesAll OperatorCommand.deny

module _ (D : Database) (C : Chain) (A : AgentTables) (T : ControlTables)
    (label_of : String → Option String) where
  apply_command-check :
      (at_time : ℕ) (action : PendingAction) (command : OperatorCommand) (limit : Option String)
      → (actor : String) (w : World D C A T label_of) (args : CheckArgs) (now : ℕ)
      → TakesAll command
      → named action.actor_id ≡ some actor
      → args.actor_id ≡ actor
      → check_capability D
          (apply_command D C A T label_of at_time action command limit w).1.agents.store
          args
          now
        ≡ denied none CapabilityDenial.not_found
  unfolding apply_command revoke_actor deny_actor
  apply_command-check at_time action _ limit actor w args now revoking held same = rw held (
      inactive-check D _ actor
        (revoke_each-IsIdle D C label_of actor (boundaries_of D C A T label_of w)) args now same)
  apply_command-check at_time action _ limit actor w args now denying held same = rw held (
      inactive-check D _ actor
        (update_status-inactive actor (is_exercisable actor) CapabilityStatus.suspended
          (is_exercisable-covers actor) (λ x. cc) D w.agents.store)
        args now same)

  carry_out-check :
      (operator : AuthenticatedOperator) (input : DecisionInput) (action : PendingAction)
      → (actor : String) (w v : World D C A T label_of) (applied : Bool) (args : CheckArgs)
        (now : ℕ)
      → carry_out D C A T label_of operator input action w ≡ (returns applied, v)
      → TakesAll input.command
      → named action.actor_id ≡ some actor
      → args.actor_id ≡ actor
      → check_capability D v.agents.store args now ≡ denied none CapabilityDenial.not_found
  unfolding carry_out
  carry_out-check operator input action actor w v applied args now h takes held same =
      let (_, u, _, rest) =
        proceed-returns (audit D C A T label_of (approval operator input action) w) _ applied v h in
      let (done, x, did, after) =
        proceed-returns
          (apply_command D C A T label_of input.now action input.command input.limit_amount u) _
          applied v rest in
      let checked =
        apply_command-check input.now action input.command input.limit_amount actor u args now takes
          held same in
      let stores : v.agents.store ≡ x.agents.store =
        sym (
          ap (λ (p : Outcome ControlError Bool × World D C A T label_of). p.1.agents.store)
            after) in
      rw
        (
          stores,
          sym (
              ap (λ (p : Outcome ControlError Bool × World D C A T label_of). p.1.agents.store)
                did),
        )
        checked

  -- After an operator's REVOKE or DENY was carried out, every check of the actor that the action
  -- names finds no capability.
  pub decide_pending_action-check :
      (setting : ControlSetting) (operator : AuthenticatedOperator) (input : DecisionInput)
      → (action : PendingAction) (actor : String)
      → (w v : World D C A T label_of) (applied : Bool) (args : CheckArgs) (now : ℕ)
      → T.pending.find_unique (λ a. str_eq a.id input.action_id) w.pendings ≡ some action
      → action.actor_id ≡ some actor
      → actor ≢ ""
      → TakesAll input.command
      → decide_pending_action D C A T label_of setting operator input w ≡ (returns applied, v)
      → args.actor_id ≡ actor
      → check_capability D v.agents.store args now ≡ denied none CapabilityDenial.not_found
  unfolding decide_pending_action
  decide_pending_action-check setting operator input action actor w v applied args now found held
        given takes h same =
      let g : str_eq actor "" ≡ false = ground (arith, eq_iff actor "") in
      carry_out-check operator input action actor w v applied args now
        (answer_carried D C A T label_of setting operator input action w v applied
          (rw found at h)).1
        takes (rw (held, g) refl) same
