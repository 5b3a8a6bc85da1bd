-- ===== src/Intents/Authorize/Laws.antt =====
-- What it takes for an intent to be authorized, and what an authorization grants
-- (`authorize` of backend/src/intent/intent-service.ts).
use xander.Prelude.{◌∷◌, ◌≡◌, sym, ◌∙◌, ap, subst, true, false, Option, none, some, arith}
use xander.Capabilities.Types.{AssuranceLease}
use xander.Capabilities.Store.{
  State, Capability, Database, granted_row, get_live_lease, is_candidate,
}
use xander.Policy.Engine.{decide}
use xander.Authorization.Request.{AuthorizationResult, AuthorizationRequest}
use xander.Authorization.Rules.{Rule, limits_for, evaluate_rules}
use xander.Authorization.Rules.Selection.{IsFirst}
use xander.Authorization.Rules.Outcome.{Authorizes, Grants, evaluate_rules-Authorizes}
use xander.Intents.Rows.{
  Request, TrustContext, DecisionRow, decided_row, evaluation_request, grant_input, is_authorizing,
}
use xander.Intents.Authorize.{Written, Readings, persist, outcome_for, evaluate_intent, authorize}
use xander.Intents.Authorize.Route.{
  IsAdmitted, stopped, evaluated, authorize-Route, grant_outcome-decision, grant_outcome-withheld,
  grant_outcome-granted,
}
use xander.Intents.Authorize.Granted.{IsGrantOf, granted_row-IsGrantOf}

is_authorizing-Authorizes :
    (result : AuthorizationResult) → Authorizes result → is_authorizing result ≡ true
is_authorizing-Authorizes result h = ground arith

module _ (D : Database) (request : Request) (r : Readings D) (trust : TrustContext) where
  -- The lease that backs the actor, and the request that the evaluator saw.
  abbrev pub lease_seen : Option AssuranceLease
  lease_seen = get_live_lease D r.lease_store request.actor.id r.lease_time

  abbrev pub request_seen : AuthorizationRequest
  request_seen = evaluation_request request trust lease_seen (
      D.capability.find_many (is_candidate request.actor.id request.action_type) (λ c. c.created_at)
        r.listed_store.capabilities)

  -- The capability that a rule grants.
  abbrev pub capability_for : Rule → Capability
  capability_for rule =
      granted_row
        (grant_input request (limits_for rule r.context.now) r.decision_id lease_seen
          (evaluate_rules r.rules request_seen r.context).attenuated)
        r.capability_id r.grant_time

  evaluated-result :
      (evaluate_intent D request r trust).decision.result
      ≡ (evaluate_rules r.rules request_seen r.context).result
  unfolding evaluate_intent outcome_for decided_row
  evaluated-result =
      ap (λ (row : DecisionRow). row.result)
        (grant_outcome-decision D request r lease_seen
          (decided_row request r.decision_id (decide r.risk r.thresholds) trust
            (evaluate_rules r.rules request_seen r.context))
          (evaluate_rules r.rules request_seen r.context)
          (evaluate_rules r.rules request_seen r.context).limits)

  evaluated-grant :
      (rule : Rule)
      → Authorizes (evaluate_rules r.rules request_seen r.context).result
      → (evaluate_rules r.rules request_seen r.context).limits
        ≡ some (limits_for rule r.context.now)
      → ((evaluate_intent D request r trust).grant ≡ some (capability_for rule))
        × ((evaluate_intent D request r trust).store ≡ record (r.grant_store) {
          capabilities = D.capability.create (capability_for rule) r.grant_store.capabilities;
        })
  unfolding evaluate_intent outcome_for decided_row
  evaluated-grant rule a e =
      grant_outcome-granted D request r lease_seen
        (decided_row request r.decision_id (decide r.risk r.thresholds) trust
          (evaluate_rules r.rules request_seen r.context))
        (evaluate_rules r.rules request_seen r.context)
        (evaluate_rules r.rules request_seen r.context).limits (limits_for rule r.context.now) e
        (is_authorizing-Authorizes _ a)

  evaluated-withheld :
      is_authorizing (evaluate_rules r.rules request_seen r.context).result ≡ false
      → ((evaluate_intent D request r trust).grant ≡ none)
        × ((evaluate_intent D request r trust).store ≡ r.grant_store)
  unfolding evaluate_intent outcome_for
  evaluated-withheld h =
      grant_outcome-withheld D request r lease_seen
        (decided_row request r.decision_id (decide r.risk r.thresholds) trust
          (evaluate_rules r.rules request_seen r.context))
        (evaluate_rules r.rules request_seen r.context)
        (evaluate_rules r.rules request_seen r.context).limits h

authorize-granted :
    (D : Database) (request : Request) (r : Readings D) (trust : TrustContext) (rule : Rule)
    → authorize D request r ≡ evaluate_intent D request r trust
    → ((evaluate_intent D request r trust).grant ≡ some (capability_for D request r trust rule))
      × ((evaluate_intent D request r trust).store ≡ record (r.grant_store) {
        capabilities =
            D.capability.create (capability_for D request r trust rule) r.grant_store.capabilities;
      })
    → (c : Capability) × ((authorize D request r).grant ≡ some c)
      × IsGrantOf request rule r.context.now (lease_seen D request r trust) r.decision_id c
      × (D.capability.rows (authorize D request r).store.capabilities
          ≡ c ∷ D.capability.rows r.grant_store.capabilities)
      × ((authorize D request r).store.usages ≡ r.grant_store.usages)
      × ((authorize D request r).store.leases ≡ r.grant_store.leases)
authorize-granted D request r trust rule e (granted, stored) =
    let store : (authorize D request r).store ≡ record (r.grant_store) {
      capabilities =
          D.capability.create (capability_for D request r trust rule) r.grant_store.capabilities;
    } =
      ap (λ (w : Written D). w.store) e ∙ stored in
    (
      capability_for D request r trust rule,
      ap (λ (w : Written D). w.grant) e ∙ granted,
      granted_row-IsGrantOf request rule r.context.now r.grant_time (lease_seen D request r trust)
          r.decision_id r.capability_id
          (evaluate_rules r.rules (request_seen D request r trust) r.context).attenuated,
      ap (λ (s : State D). D.capability.rows s.capabilities) store
          ∙ D.capability.create-rows (capability_for D request r trust rule)
              r.grant_store.capabilities,
      ap (λ (s : State D). s.usages) store,
      ap (λ (s : State D). s.leases) store,
    )

-- An intent is allowed or limited only if it had not expired, its actor is active and has a wallet,
-- the evidence could be vouched for and the trust context could be built; then the first of the
-- rules that apply grants it, and one capability is added to those on file, while no other
-- capability, no use and no lease changes: an active one of the actor, for the action and the chain
-- of the intent, with the ceiling, the rate and the lifetime of that rule, under the live lease of
-- the actor, if there is one, and with the decision that it comes from.
pub authorize-IsAdmitted :
    (D : Database) (request : Request) (r : Readings D)
    → Authorizes (authorize D request r).decision.result
    → (trust : TrustContext) × (rule : Rule) × IsAdmitted D request r trust
      × IsFirst r.rules (request_seen D request r trust) (some rule)
      × Grants rule.effect
      × ((c : Capability) × ((authorize D request r).grant ≡ some c)
          × IsGrantOf request rule r.context.now (lease_seen D request r trust) r.decision_id c
          × (D.capability.rows (authorize D request r).store.capabilities
              ≡ c ∷ D.capability.rows r.grant_store.capabilities)
          × ((authorize D request r).store.usages ≡ r.grant_store.usages)
          × ((authorize D request r).store.leases ≡ r.grant_store.leases))
unfolding persist
authorize-IsAdmitted D request r h = elim (authorize-Route D request r) [
  | stopped row no_grant e ↦
      let yes_grant = is_authorizing-Authorizes _ h in
      absurd (
        cc
          (sym yes_grant ∙ (ap (λ (w : Written D). is_authorizing w.decision.result) e ∙ no_grant)))
  | evaluated trust admitted e ↦
      let a =
        subst Authorizes
          (ap (λ (w : Written D). w.decision.result) e ∙ evaluated-result D request r trust) h in
      let (rule, first, grants, limits, _) =
        evaluate_rules-Authorizes r.rules (request_seen D request r trust) r.context a in
      (
        trust,
        rule,
        admitted,
        first,
        grants,
        authorize-granted D request r trust rule e
            (evaluated-grant D request r trust rule a limits),
      )
]

-- An intent that is challenged, held for review or blocked is granted nothing: the capabilities on
-- file are those that were there.
pub authorize_withholds :
    (D : Database) (request : Request) (r : Readings D)
    → is_authorizing (authorize D request r).decision.result ≡ false
    → ((authorize D request r).grant ≡ none) × ((authorize D request r).store ≡ r.grant_store)
unfolding persist
authorize_withholds D request r h = elim (authorize-Route D request r) [
  | stopped row no_grant e ↦ (ap (λ (w : Written D). w.grant) e, ap (λ (w : Written D). w.store) e)
  | evaluated trust admitted e ↦
      let same : (authorize D request r).decision.result
          ≡ (evaluate_rules r.rules (request_seen D request r trust) r.context).result =
        ap (λ (w : Written D). w.decision.result) e ∙ evaluated-result D request r trust in
      let (no_grant, kept) =
        evaluated-withheld D request r trust (sym (ap is_authorizing same) ∙ h) in
      (ap (λ (w : Written D). w.grant) e ∙ no_grant, ap (λ (w : Written D). w.store) e ∙ kept)
]
