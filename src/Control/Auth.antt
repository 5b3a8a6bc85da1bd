-- ===== src/Control/Auth.antt =====
-- Who may issue which command: backend/src/control/operator-auth.ts. The hashes are a third party's;
-- `secretsMatch` compares texts, however long it takes.
use xander.Prelude.{
  ℕ, String, Bool, true, ◌&&◌, not, Option, none, some, List, [], ◌∷◌, any, leb, str_eq,
  if◌then◌else◌,
}
use xander.Prelude.Text.{append, nul}

-- `OPERATOR_COMMANDS` of backend/src/workflow/shared.ts
pub data OperatorCommand : Type 0 where
  approve deny limit freeze unfreeze revoke extend : OperatorCommand

abbrev pub command_name : OperatorCommand → String
command_name OperatorCommand.approve = "APPROVE"
command_name OperatorCommand.deny = "DENY"
command_name OperatorCommand.limit = "LIMIT"
command_name OperatorCommand.freeze = "FREEZE"
command_name OperatorCommand.unfreeze = "UNFREEZE"
command_name OperatorCommand.revoke = "REVOKE"
command_name OperatorCommand.extend = "EXTEND"

-- What `computeBindingHash` hashes, with the hash a parameter.
unfoldable pub compute_binding_hash :
    (String → String) → String → String → String → Option String → String
compute_binding_hash sha256 subject_type subject_id summary none =
    sha256 (append subject_type (append nul (append subject_id (append nul (append summary nul)))))
compute_binding_hash sha256 subject_type subject_id summary (some amount) = sha256 (
    append subject_type
      (append nul (append subject_id (append nul (append summary (append nul amount))))))

-- The columns of a session that `checkSession` reads.
pub record Session : Type 0 where
  pub id : String
  pub operator_id : String
  pub status : String
  pub expires_at : ℕ
  pub device_id : String

-- The reasons of `checkSession`, `ok` among them.
pub data SessionCheck : Type 0 where
  valid no_session not_active session_expired device_mismatch : SessionCheck

-- `checkSession`
unfoldable pub check_session : Option Session → String → ℕ → SessionCheck
check_session none device now = SessionCheck.no_session
check_session (some session) device now =
    if not (str_eq session.status "ACTIVE")
    then SessionCheck.not_active
    else if leb session.expires_at now
    then SessionCheck.session_expired
    else if not (str_eq session.device_id device)
    then SessionCheck.device_mismatch
    else SessionCheck.valid

-- `isInScope`: an empty scope is no restriction.
unfoldable pub is_in_scope : List String → String → Bool
is_in_scope [] value = true
is_in_scope (s ∷ scope) value = any (str_eq value) (s ∷ scope)

-- The reasons of `authorizeOperatorAction`.
pub data AuthorizationCheck : Type 0 where
  allowed operator_not_active command_out_of_scope no_actor_named actor_out_of_scope :
      AuthorizationCheck

unfoldable pub check_actor_scope : List String → Option String → AuthorizationCheck
check_actor_scope [] actor = AuthorizationCheck.allowed
check_actor_scope (s ∷ scope) none = AuthorizationCheck.no_actor_named
check_actor_scope (s ∷ scope) (some actor) =
    if str_eq actor ""
    then AuthorizationCheck.no_actor_named
    else if is_in_scope (s ∷ scope) actor
    then AuthorizationCheck.allowed
    else AuthorizationCheck.actor_out_of_scope

-- `authorizeOperatorAction`
unfoldable pub authorize_operator_action :
    String → List String → List String → String → Option String → AuthorizationCheck
authorize_operator_action status actor_scope action_scope command actor =
    if not (str_eq status "ACTIVE")
    then AuthorizationCheck.operator_not_active
    else if not (is_in_scope action_scope command)
    then AuthorizationCheck.command_out_of_scope
    else check_actor_scope actor_scope actor

abbrev pub critical_commands : List String
critical_commands = "REVOKE" ∷ "FREEZE" ∷ []

-- `requiresStepUp`
unfoldable pub requires_step_up : String → Bool → Bool
requires_step_up command enabled = enabled && any (str_eq command) critical_commands

-- `isAllowedDecision`
unfoldable pub is_allowed_decision : List String → String → Bool
is_allowed_decision allowed_commands command = any (str_eq command) allowed_commands
