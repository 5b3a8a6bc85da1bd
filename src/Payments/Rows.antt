-- ===== src/Payments/Rows.antt =====
-- The rows, arguments and answers of backend/src/x402/x402-service.ts, the guards of a payment, and
-- what its steps write.
use xander.Prelude.{
  ℕ, ◌-◌, String, Bool, true, false, Option, none, some, List, str_eq, if◌then◌else◌,
}
use xander.Prelude.Text.{to_lower_case}
use xander.Capabilities.Types.{CapabilityDenial}
use xander.Capabilities.Store.{CheckArgs}
use xander.Authorization.Request.{AuthorizationResult}
use xander.Authorization.Enforcement.Adapter.{AdapterName}
use xander.Authorization.Enforcement.Service.{EnforcementVerdict}
use xander.Authorization.Enforcement.Execution.{ExecutionStatus}
use xander.Payments.Authorizations.{
  PaymentRequirements, PaymentPayload, Mismatch, payment_mismatch, authorization_window,
}

pub data PaymentStatus : Type 0 where
  required denied invalid verified settled failed : PaymentStatus

pub record X402Payment : Type 0 where
  pub id : String
  pub actor_id : String
  pub intent_id : Option String
  pub receipt_id : Option String
  pub requirements : PaymentRequirements
  pub payer : Option String
  pub status : PaymentStatus
  pub nonce : Option String
  pub transaction : Option String
  pub settled_at : Option ℕ

-- The columns of `ActionReceipt` that the function reads or writes.
pub record PaidReceipt : Type 0 where
  pub id : String
  pub intent_id : String
  pub execution_status : ExecutionStatus
  pub execution_tx_hash : Option String
  pub enforcement_adapters : List AdapterName
  pub executed_at : Option ℕ
  pub created_at : ℕ

-- What the facilitator answered: an error, a refusal, or its consent.
pub data Verification : Type 0 where
  unreachable rejected_payment valid_payment : Verification

-- The transaction of a settlement, and the payer if it names one.
pub data Settlement : Type 0 where
  unreachable : Settlement
  unsuccessful : Option String → Settlement
  successful : String → Option String → Settlement

-- What the request is and what other modules and the facilitator made of it.
pub record PaidRequest : Type 0 where
  pub wallet : String
  pub payload : Option PaymentPayload
  pub requirements : PaymentRequirements
  pub actor_id : String
  pub intent_id : String
  pub decision : Option AuthorizationResult
  pub now : ℕ
  pub gate_time : ℕ
  pub payment_id : String
  pub verification : Verification
  pub settlement : Settlement

-- Why a request was not settled, where it was answered.
pub data Outcome402 : Type 0 where
  payment_required : Outcome402
  refused : Outcome402
  no_allowance : Option CapabilityDenial → Outcome402
  mismatch : Mismatch → Outcome402
  nonce_replay facilitator_rejected unenforced unsettled settled : Outcome402

pub record X402Result : Type 0 where
  pub outcome : Outcome402
  pub receipt_id : Option String
  pub allowance_remaining : Option ℕ

pub data X402Error : Type 0 where
  not_verified not_settled : X402Error

-- The HTTP status of an answer.
unfoldable pub status_of : Outcome402 → ℕ
status_of Outcome402.payment_required = 402
status_of Outcome402.refused = 403
status_of (Outcome402.no_allowance (some CapabilityDenial.frequency_exceeded)) = 429
status_of (Outcome402.no_allowance _) = 403
status_of (Outcome402.mismatch m) = 402
status_of Outcome402.nonce_replay = 402
status_of Outcome402.facilitator_rejected = 402
status_of Outcome402.unenforced = 403
status_of Outcome402.unsettled = 402
status_of Outcome402.settled = 200

-- `result === 'ALLOW' || result === 'LIMIT'`; without a decision it is a review.
abbrev pub is_granted : Option AuthorizationResult → Bool
is_granted (some AuthorizationResult.allow) = true
is_granted (some AuthorizationResult.limit) = true
is_granted _ = false

abbrev pub paid_action : PaidRequest → CheckArgs
paid_action q = record {
  actor_id = q.actor_id;
  action_type = "X402_PAYMENT";
  amount = some q.requirements.amount;
  target_address = none;
}

-- The guards of a payment, in their order.
unfoldable pub payment_refusal : PaidRequest → PaymentPayload → Option Mismatch
payment_refusal q p = elim (payment_mismatch p q.requirements) [
  | some m ↦ some m
  | none ↦ elim (authorization_window p.authorization q.now) [
    | some m ↦ some m
    | none ↦
        if str_eq (to_lower_case p.authorization.from) (to_lower_case q.wallet)
        then none
        else some Mismatch.payer_mismatch
  ]
]

-- The row that `record` creates.
abbrev pub payment_row : PaidRequest → PaymentStatus → Option String → Option String → X402Payment
payment_row q status nonce payer = record {
  id = q.payment_id;
  actor_id = q.actor_id;
  intent_id = some q.intent_id;
  receipt_id = none;
  requirements = q.requirements;
  payer = payer;
  status = status;
  nonce = nonce;
  transaction = none;
  settled_at = none;
}

abbrev pub with_payment_status : PaymentStatus → X402Payment → X402Payment
with_payment_status status p = record p { status = status }

abbrev pub claims_nonce : String → X402Payment → Bool
claims_nonce nonce p = elim p.nonce [ none ↦ false | some n ↦ str_eq n nonce ]

abbrev pub lower_or : Option String → String → String
lower_or none other = to_lower_case other
lower_or (some t) other = to_lower_case t

abbrev pub settled_row :
    PaidRequest
    → PaymentPayload
    → String
    → Option String
    → Option String
    → X402Payment
    → X402Payment
settled_row q p transaction payer receipt x = record x {
  status = PaymentStatus.settled;
  transaction = some transaction;
  payer = some (lower_or payer p.authorization.from);
  receipt_id = receipt;
  settled_at = some q.gate_time;
}

abbrev pub executed_receipt : PaidRequest → EnforcementVerdict → String → PaidReceipt → PaidReceipt
executed_receipt q verdict transaction r = record r {
  execution_status = ExecutionStatus.executed_as_authorized;
  execution_tx_hash = some transaction;
  enforcement_adapters = verdict.adapters;
  executed_at = some q.gate_time;
}

abbrev pub answer_with : Outcome402 → Option ℕ → X402Result
answer_with outcome remaining = record {
  outcome = outcome;
  receipt_id = none;
  allowance_remaining = remaining;
}

abbrev pub one_less : Option ℕ → Option ℕ
one_less none = none
one_less (some n) = some (n - 1)
