-- ===== src/Payments/Service.antt =====
-- A paid request of an agent: `authorizePaidRequest` and `allowanceRemaining` of
-- backend/src/x402/x402-service.ts, from the decision about its intent on. No other request runs in
-- between; the gate has a clock of its own. The availability, the actor, the trust band and the
-- decision come from other modules, the answers from the facilitator; the reasons as text and the
-- body of the price are left out.
pub mod Paid
pub mod Laws
pub mod Served
mod Tests
use mathlib.Core.List.{head?}
use xander.Prelude.{
  ℕ, ◌-◌, ◌*◌, String, Bool, true, false, ◌&&◌, ◌||◌, not, Option, none, some, List, ltb, leb,
  str_eq, if◌then◌else◌,
}
use xander.Prelude.Table.{Table}
use xander.Prelude.Text.{to_lower_case}
use xander.Prelude.Effects.{Program, pure, throw, reads, writes, ◌>>=◌, ◌>>◌}
use xander.Capabilities.Types.{CapabilityDenial}
use xander.Capabilities.Store.{
  Capability, CheckArgs, CapabilityCheck, Database, State, check_capability, record_usage,
  used_in_window,
}
use xander.Authorization.Request.{AuthorizationResult}
use xander.Authorization.Enforcement.Adapter.{AdapterName}
use xander.Authorization.Enforcement.EnsEac.{Chain}
use xander.Authorization.Enforcement.Service.{Boundaries, EnforcementVerdict, verify_enforcement}
use xander.Authorization.Enforcement.Execution.{ExecutionStatus}
use xander.Payments.Authorizations.{
  PaymentRequirements, PaymentPayload, Mismatch, payment_mismatch, authorization_window,
}
use xander.Payments.Rows.{
  Outcome402, PaidReceipt, PaidRequest, PaymentStatus, Settlement, Verification, X402Error,
  X402Payment, X402Result, answer_with, claims_nonce, executed_receipt, is_granted, lower_or,
  one_less, paid_action, payment_refusal, payment_row, settled_row, status_of, with_payment_status,
}

module _ (D : Database) (C : Chain) (P : Table X402Payment) (R : Table PaidReceipt)
    (label_of : String → Option String) where
  pub record PaymentWorld : Type 0 where
    pub boundaries : Boundaries D C
    pub payments : P.Db
    pub receipts : R.Db

  abbrev pub PaymentProgram : Type 0 → Type 0
  PaymentProgram X = Program PaymentWorld X402Error X

  -- `record`, for a row without a nonce
  abbrev pub add_payment : X402Payment → PaymentWorld → PaymentWorld
  add_payment row w = record w { payments = P.create row w.payments }

  abbrev pub update_payment : String → (X402Payment → X402Payment) → PaymentWorld → PaymentWorld
  update_payment id f w = record w {
    payments = (P.update_many (λ p. str_eq p.id id) f w.payments).1;
  }

  -- `allowanceRemaining`
  unfoldable pub allowance_remaining : PaidRequest → Capability → PaymentWorld → Option ℕ
  allowance_remaining q c w = elim c.frequency_limit [
    | none ↦ none
    | some limit ↦ elim c.frequency_window_seconds [
      | none ↦ none
      | some window ↦ some (limit - used_in_window D w.boundaries.store q.now c.id window)
    ]
  ]

  -- An answer that puts a row on file and no more.
  abbrev pub answered :
      PaidRequest → PaymentStatus → Outcome402 → Option ℕ → PaymentProgram X402Result
  answered q status outcome remaining = do
    writes (add_payment (payment_row q status none none))
    pure (answer_with outcome remaining)

  -- An answer that marks the row with the nonce.
  abbrev pub marked :
      PaidRequest → PaymentStatus → Outcome402 → Option ℕ → PaymentProgram X402Result
  marked q status outcome remaining = do
    writes (update_payment q.payment_id (with_payment_status status))
    pure (answer_with outcome remaining)

  abbrev pub newest_receipt : String → PaymentWorld → Option PaidReceipt
  newest_receipt intent w =
      head? (R.find_many (λ r. str_eq r.intent_id intent) (λ r. r.created_at) w.receipts)

  -- The use is recorded, the receipt finished and the payment settled.
  unfoldable pub serve :
      PaidRequest
      → PaymentPayload
      → Capability
      → EnforcementVerdict
      → String
      → Option String
      → Option ℕ
      → PaymentProgram X402Result
  serve q p c verdict transaction payer remaining = do
    writes (λ w. record w {
      boundaries = record (w.boundaries) {
        store =
            record_usage D c.id (some q.intent_id) (some q.requirements.amount) q.gate_time
              w.boundaries.store;
      };
    })
    receipt ← reads (λ w. elim (newest_receipt q.intent_id w) [ none ↦ none | some r ↦ some r.id ])
    writes (λ w. elim receipt [
      | none ↦ w
      | some id ↦ record w {
        receipts =
            (R.update_many (λ r. str_eq r.id id) (executed_receipt q verdict transaction)
              w.receipts).1;
      }
    ])
    writes (update_payment q.payment_id (settled_row q p transaction payer receipt))
    pure (record {
      outcome = Outcome402.settled;
      receipt_id = receipt;
      allowance_remaining = one_less remaining;
    })

  unfoldable pub settle :
      PaidRequest
      → PaymentPayload
      → Capability
      → EnforcementVerdict
      → Option ℕ
      → Settlement
      → PaymentProgram X402Result
  settle q p c verdict remaining Settlement.unreachable = do
    writes (update_payment q.payment_id (with_payment_status PaymentStatus.failed))
    throw X402Error.not_settled
  settle q p c verdict remaining (Settlement.unsuccessful transaction) = do
    writes (
        update_payment q.payment_id
          (λ x. record x { status = PaymentStatus.failed; transaction = transaction }))
    pure (answer_with Outcome402.unsettled remaining)
  settle q p c verdict remaining (Settlement.successful transaction payer) =
      serve q p c verdict transaction payer remaining

  -- The gate, and what comes after it.
  unfoldable pub pass_gate :
      PaidRequest → PaymentPayload → Capability → Option ℕ → PaymentProgram X402Result
  pass_gate q p c remaining = do
    verdict ← reads (λ w. verify_enforcement D C label_of w.boundaries (paid_action q) q.gate_time)
    (if verdict.enforced
        then settle q p c verdict remaining q.settlement
        else marked q PaymentStatus.denied Outcome402.unenforced remaining)

  unfoldable pub verify_payment :
      PaidRequest
      → PaymentPayload
      → Capability
      → Option ℕ
      → Verification
      → PaymentProgram X402Result
  verify_payment q p c remaining Verification.unreachable = do
    writes (update_payment q.payment_id (with_payment_status PaymentStatus.failed))
    throw X402Error.not_verified
  verify_payment q p c remaining Verification.rejected_payment =
      marked q PaymentStatus.invalid Outcome402.facilitator_rejected remaining
  verify_payment q p c remaining Verification.valid_payment = pass_gate q p c remaining

  -- The nonce is claimed before the facilitator is asked: its index is unique.
  unfoldable pub claim_nonce :
      PaidRequest → PaymentPayload → Capability → Option ℕ → PaymentProgram X402Result
  claim_nonce q p c remaining = do
    let nonce = to_lower_case p.authorization.nonce
    used ← reads (λ w. ltb 0 (P.count (claims_nonce nonce) w.payments))
    (if used then answered q PaymentStatus.invalid Outcome402.nonce_replay remaining else (do
      writes (
          add_payment (
            payment_row q PaymentStatus.verified (some nonce)
              (some (to_lower_case p.authorization.from))))
      verify_payment q p c remaining q.verification))

  -- A price is quoted where there is no payment yet.
  unfoldable pub take_payment :
      PaidRequest → Capability → Option ℕ → Option PaymentPayload → PaymentProgram X402Result
  take_payment q c remaining none =
      answered q PaymentStatus.required Outcome402.payment_required remaining
  take_payment q c remaining (some p) = elim (payment_refusal q p) [
    | some m ↦ answered q PaymentStatus.invalid (Outcome402.mismatch m) remaining
    | none ↦ claim_nonce q p c remaining
  ]

  -- From the check of the capability on.
  unfoldable pub price :
      PaidRequest → CapabilityCheck → Option Capability → PaymentProgram X402Result
  price q check none =
      answered q PaymentStatus.denied (Outcome402.no_allowance check.denial) (some 0)
  price q check (some c) =
      if check.allowed
      then reads (allowance_remaining q c) >>= (λ remaining. take_payment q c remaining q.payload)
      else answered q PaymentStatus.denied (Outcome402.no_allowance check.denial) (some 0)

  -- `authorizePaidRequest`
  unfoldable pub authorize_paid_request : PaidRequest → PaymentProgram X402Result
  authorize_paid_request q =
      if is_granted q.decision
      then reads (λ w. check_capability D w.boundaries.store (paid_action q) q.now)
        >>= (λ check. price q check check.capability)
      else answered q PaymentStatus.denied Outcome402.refused none
