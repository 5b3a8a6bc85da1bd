-- ===== src/Authorization/Enforcement/Execution.antt =====
-- The execution boundary: backend/src/authorization/enforcement/execution-service.ts. Between its
-- awaits other requests run, so each step reads a state and a clock of its own (`Moments`). What it
-- does to the world is an ordered list of effects; the reason texts are left out.
pub mod Laws
pub mod Completion
use xander.Prelude.{
  ℕ, String, Bool, true, false, not, ◌||◌, Option, none, some, List, [], ◌∷◌, ◌++◌, leb, str_eq,
  if◌then◌else◌,
}
use xander.Capabilities.Store.{Capability, Database, State, CheckArgs, check_capability}
use xander.Authorization.Enforcement.Adapter.{AdapterName}
use xander.Authorization.Enforcement.EnsEac.{Attempt, Chain, threw, returned}
use xander.Authorization.Enforcement.Service.{EnforcementVerdict, Boundaries, verify_enforcement}

pub data ExecutionStatus : Type 0 where
  not_executed executed_as_authorized blocked_unenforceable failed : ExecutionStatus

-- The columns of the intent that the function reads.
pub record Intent : Type 0 where
  pub id : String
  pub actor_id : String
  pub action_type : String
  pub amount : Option String
  pub target_address : Option String
  pub expires_at : ℕ

pub record ExecutionOutcome : Type 0 where
  pub intent_id : String
  pub status : ExecutionStatus
  pub executed : Bool
  pub adapters : List AdapterName
  pub capability_id : Option String
  pub tx_hash : Option String
  pub receipt_id : Option String

pub record ReceiptUpdate : Type 0 where
  pub status : ExecutionStatus
  pub tx_hash : Option String
  pub adapters : List AdapterName
  pub executed_at : Option ℕ

pub data ExecutionEffect : Type 0 where
  call_executor : ExecutionEffect
  -- of a capability, by an intent, of an amount
  record_use : String → String → Option String → ExecutionEffect
  update_receipt : String → ReceiptUpdate → ExecutionEffect

abbrev pub is_executed : ExecutionStatus → Bool
is_executed ExecutionStatus.executed_as_authorized = true
is_executed _ = false

unfoldable pub receipt_effects :
    Option String → ExecutionStatus → List AdapterName → Option String → ℕ → List ExecutionEffect
receipt_effects none status adapters tx_hash now = []
receipt_effects (some id) status adapters tx_hash now =
    if str_eq id ""
    then []
    else update_receipt id (record {
      status = status;
      tx_hash = tx_hash;
      adapters = adapters;
      executed_at = if is_executed status then some now else none;
    })
      ∷ []

-- `finishReceipt`, whose result the caller completes with the capability
unfoldable pub finish_receipt :
    String
    → Option String
    → ExecutionStatus
    → List AdapterName
    → Option String
    → Option String
    → ℕ
    → ExecutionOutcome × List ExecutionEffect
finish_receipt intent_id receipt_id status adapters tx_hash capability_id now = (
  record {
    intent_id = intent_id;
    status = status;
    executed = is_executed status;
    adapters = adapters;
    capability_id = capability_id;
    tx_hash = tx_hash;
    receipt_id = receipt_id;
  },
  receipt_effects receipt_id status adapters tx_hash now,
)

-- `refuse`
unfoldable pub refuse :
    String
    → Option String
    → List AdapterName
    → Option String
    → ℕ
    → ExecutionOutcome × List ExecutionEffect
refuse intent_id receipt_id adapters capability_id now =
    finish_receipt intent_id receipt_id ExecutionStatus.blocked_unenforceable adapters none
      capability_id now

abbrev pub then_effects :
    List ExecutionEffect
    → ExecutionOutcome × List ExecutionEffect
    → ExecutionOutcome × List ExecutionEffect
then_effects before (outcome, after) = (outcome, before ++ after)

-- `decision.result !== 'ALLOW' && decision.result !== 'LIMIT'`, of a decision that is there
abbrev pub authorizes : Option String → Bool
authorizes none = false
authorizes (some result) = str_eq result "ALLOW" || str_eq result "LIMIT"

abbrev pub action_of : Intent → CheckArgs
action_of intent = record {
  actor_id = intent.actor_id;
  action_type = intent.action_type;
  amount = intent.amount;
  target_address = intent.target_address;
}

-- What follows a successful action: the use is recorded, then the receipt.
unfoldable pub succeed :
    Intent
    → Option String
    → String
    → List AdapterName
    → Option String
    → ℕ
    → ExecutionOutcome × List ExecutionEffect
succeed intent receipt_id capability_id adapters tx_hash now =
    then_effects (record_use capability_id intent.id intent.amount ∷ []) (
      finish_receipt intent.id receipt_id ExecutionStatus.executed_as_authorized adapters tx_hash
        (some capability_id) now)

-- The executor, if there is one, and what follows; how the executor ends is its own affair.
unfoldable pub perform :
    Option (Attempt (Option String))
    → Intent
    → Option String
    → String
    → List AdapterName
    → ℕ
    → ExecutionOutcome × List ExecutionEffect
perform none intent receipt_id capability_id adapters now =
    succeed intent receipt_id capability_id adapters none now
perform (some threw) intent receipt_id capability_id adapters now =
    then_effects (call_executor ∷ []) (
      finish_receipt intent.id receipt_id ExecutionStatus.failed adapters none (some capability_id)
        now)
perform (some (returned tx_hash)) intent receipt_id capability_id adapters now =
    then_effects (call_executor ∷ []) (succeed intent receipt_id capability_id adapters tx_hash now)

module _ (D : Database) (C : Chain) where
  -- What the steps read, in their order: the intent, the newest receipt and decision of it, and a
  -- clock at the gate; a state and a clock for the check; those for the boundaries; a clock at the
  -- end. Nothing relates them: anything may happen in between.
  pub record Moments : Type 0 where
    pub intent : Option Intent
    pub receipt_id : Option String
    pub decision : Option String
    pub gate_time : ℕ
    pub checked : State D
    pub check_time : ℕ
    pub verified : Boundaries D C
    pub verify_time : ℕ
    pub end_time : ℕ

  -- Step 2 on: every boundary, then the action.
  unfoldable pub verify_and_perform :
      (String → Option String)
      → Option (Attempt (Option String))
      → Moments
      → Intent
      → Capability
      → ExecutionOutcome × List ExecutionEffect
  verify_and_perform label_of executor m intent capability =
      let verdict = verify_enforcement D C label_of m.verified (action_of intent) m.verify_time in
      if verdict.enforced
      then perform executor intent m.receipt_id capability.id verdict.adapters m.end_time
      else refuse intent.id m.receipt_id verdict.adapters (some capability.id) m.end_time

  unfoldable pub check_and_perform :
      (String → Option String)
      → Option (Attempt (Option String))
      → Moments
      → Intent
      → ExecutionOutcome × List ExecutionEffect
  check_and_perform label_of executor m intent =
      let check = check_capability D m.checked (action_of intent) m.check_time in
      let blocked = refuse intent.id m.receipt_id (AdapterName.local ∷ []) none m.end_time in
      if check.allowed
      then elim check.capability [
        | none ↦ blocked
        | some capability ↦ verify_and_perform label_of executor m intent capability
      ]
      else blocked

  unfoldable pub execute_intent :
      (String → Option String)
      → Option (Attempt (Option String))
      → Moments
      → Intent
      → ExecutionOutcome × List ExecutionEffect
  execute_intent label_of executor m intent =
      if not (authorizes m.decision)
      then refuse intent.id m.receipt_id [] none m.end_time
      else if leb intent.expires_at m.gate_time
      then refuse intent.id m.receipt_id [] none m.end_time
      else check_and_perform label_of executor m intent

  -- `executeAuthorizedAction`; none stands for `NoSuchIntentError`.
  unfoldable pub execute_authorized_action :
      (String → Option String)
      → Option (Attempt (Option String))
      → Moments
      → Option (ExecutionOutcome × List ExecutionEffect)
  execute_authorized_action label_of executor m = elim m.intent [
    | none ↦ none
    | some intent ↦ some (execute_intent label_of executor m intent)
  ]
