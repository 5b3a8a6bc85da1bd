-- ===== src/Intents/Authorize.antt =====
-- The decision on an intent and the capability it grants: `authorize` of
-- backend/src/intent/intent-service.ts. Between its awaits other requests run, so what each step
-- reads is one record of readings (`Readings`).
pub mod Route
pub mod Granted
pub mod Laws
use xander.Prelude.{
  ℕ, String, Bool, true, false, Option, none, some, List, [], ◌∷◌, str_eq, not, if◌then◌else◌,
}
use xander.Capabilities.Types.{AssuranceLease, CapabilityLimits}
use xander.Capabilities.Store.{
  Capability, Database, State, get_live_lease, grant_capability, is_candidate,
}
use xander.Policy.Engine.{Decision, ClusterRisk, Threshold, PolicyDecision, decide}
use xander.Authorization.Request.{AuthorizationResult, AuthorizationOutcome}
use xander.Authorization.Rules.{Rule, PolicyContext, evaluate_rules}
use xander.Intents.Rows.{
  Request, TrustContext, DecisionRow, ReceiptRow, is_expired, receipt_of, early_row, held_row,
  decided_row, lease_id_of, evaluation_request, grant_input, is_authorizing,
}

-- What an authorization wrote.
pub record Written (D : Database) : Type 0 where
  pub decision : DecisionRow
  pub receipt : ReceiptRow
  pub grant : Option Capability
  pub store : State D

abbrev pub is_pending : Decision → Bool
is_pending Decision.pending_review = true
is_pending _ = false

module _ (D : Database) where
  -- What the steps read, in their order: the actor's first wallet, the risk and the thresholds of
  -- its policy, the trust context (none where building it throws), the lease at its time, the
  -- capabilities on file, the active rules, and the ids and the clock of the rows written.
  pub record Readings : Type 0 where
    pub wallet : Option String
    pub risk : ClusterRisk
    pub thresholds : List Threshold
    pub trust : Option TrustContext
    pub lease_store : State D
    pub lease_time : ℕ
    pub listed_store : State D
    pub rules : List Rule
    pub context : PolicyContext
    pub decision_id : String
    pub grant_store : State D
    pub capability_id : String
    pub grant_time : ℕ

  -- A decision that grants nothing.
  unfoldable pub persist : Request → DecisionRow → Readings → Written D
  persist request row r = record {
    decision = row;
    receipt = receipt_of request row;
    grant = none;
    store = r.grant_store;
  }

  -- `if ((outcome.result === 'ALLOW' || …) && outcome.limits)`
  unfoldable pub grant_outcome :
      Request
      → Readings
      → Option AssuranceLease
      → DecisionRow
      → AuthorizationOutcome
      → Option CapabilityLimits
      → Written D
  grant_outcome request r lease row outcome none = persist request row r
  grant_outcome request r lease row outcome (some limits) =
      let (granted, store) =
        grant_capability D (grant_input request limits row.id lease outcome.attenuated)
          r.capability_id r.grant_time r.grant_store in
      if is_authorizing outcome.result
      then record {
        decision = row;
        receipt = receipt_of request row;
        grant = some granted;
        store = store;
      }
      else persist request row r

  -- The outcome of the policy evaluator for this request.
  unfoldable pub outcome_for : Request → Readings → TrustContext → AuthorizationOutcome
  outcome_for request r trust =
      let lease = get_live_lease D r.lease_store request.actor.id r.lease_time in
      let held =
        D.capability.find_many (is_candidate request.actor.id request.action_type)
          (λ c. c.created_at) r.listed_store.capabilities in
      evaluate_rules r.rules (evaluation_request request trust lease held) r.context

  -- From the trust context on: the evaluator decides.
  unfoldable pub evaluate_intent : Request → Readings → TrustContext → Written D
  evaluate_intent request r trust =
      let policy = decide r.risk r.thresholds in
      let outcome = outcome_for request r trust in
      grant_outcome request r (get_live_lease D r.lease_store request.actor.id r.lease_time)
        (decided_row request r.decision_id policy trust outcome) outcome outcome.limits

  -- The trust context is there, or the claim is held.
  unfoldable pub with_trust : Request → Readings → PolicyDecision → Option TrustContext → Written D
  with_trust request r policy none = persist request (held_row request r.decision_id policy none) r
  with_trust request r policy (some trust) =
      if is_pending policy.decision
      then persist request (held_row request r.decision_id policy (some trust.snapshot_id)) r
      else evaluate_intent request r trust

  -- The actor has a wallet, or there is no evidence to go by.
  unfoldable pub with_wallet : Request → Readings → Option String → Written D
  with_wallet request r none =
      persist request
        (early_row request r.decision_id AuthorizationResult.review "EVIDENCE_NOT_FRESH") r
  with_wallet request r (some wallet) = with_trust request r (decide r.risk r.thresholds) r.trust

  -- `authorize`
  unfoldable pub authorize : Request → Readings → Written D
  authorize request r =
      if is_expired request.expires_at request.now
      then persist request
          (early_row request r.decision_id AuthorizationResult.review "INTENT_EXPIRED") r
      else if not (str_eq request.actor.status "ACTIVE")
      then persist request
          (early_row request r.decision_id AuthorizationResult.block "ACTOR_NOT_ACTIVE") r
      else with_wallet request r r.wallet
