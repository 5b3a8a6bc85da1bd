-- ===== src/Authorization/Rules/Outcome.antt =====
-- What an evaluation answers (`evaluateRules` of backend/src/authorization/rule-engine.ts).
use xander.Prelude.{◌≡◌, refl, ◌↔◌, ◌⊎◌, inl, inr, Option, none, some, List, arith, In, ◌≢◌, subst}
use xander.Authorization.Request.{AuthorizationResult, AuthorizationRequest}
use xander.Authorization.Rules.{
  Effect, Rule, PolicyContext, limits_for, apply_effect, apply_rule, evaluate_rules, select_rule,
}
use xander.Authorization.Rules.Matching.{Matches}
use xander.Authorization.Rules.Selection.{IsFirst, select_rule-IsFirst}

-- The two results that authorize an action.
abbrev pub Authorizes : AuthorizationResult → Type 0
Authorizes result = (result ≡ AuthorizationResult.allow) ⊎ (result ≡ AuthorizationResult.limit)

-- The effects whose rules authorize an action.
abbrev pub Grants : Effect → Type 0
Grants effect = (effect ≡ Effect.allow) ⊎ (effect ≡ Effect.limit)

effect-Grants :
    (e : Effect) (rule : Rule) (request : AuthorizationRequest) (context : PolicyContext)
    → Authorizes (apply_effect e rule request context).result
    → Grants e
      × ((apply_effect e rule request context).limits ≡ some (limits_for rule context.now))
      × ((apply_effect e rule request context).rule_id ≡ some rule.id)
unfolding apply_effect
effect-Grants Effect.allow rule request context h = (inl refl, refl, refl)
effect-Grants Effect.limit rule request context h = (inr refl, refl, refl)
effect-Grants _ rule request context h = ground arith

rule-Grants :
    (found : Option Rule) (request : AuthorizationRequest) (context : PolicyContext)
    → Authorizes (apply_rule found request context).result
    → (rule : Rule) × (found ≡ some rule)
      × Grants rule.effect
      × ((apply_rule found request context).limits ≡ some (limits_for rule context.now))
      × ((apply_rule found request context).rule_id ≡ some rule.id)
unfolding apply_rule
rule-Grants none request context h = ground arith
rule-Grants (some rule) request context h =
    let (grants, limits, id) = effect-Grants rule.effect rule request context h in
    (rule, refl, grants, limits, id)

-- An evaluation that authorizes an action rests on a listed rule whose effect is ALLOW or LIMIT:
-- it applies to the request, no rule that applies has a smaller priority, the outcome names it, and
-- the bounds of the capability to grant are the rule's.
pub evaluate_rules-Authorizes :
    (rules : List Rule) (request : AuthorizationRequest) (context : PolicyContext)
    → Authorizes (evaluate_rules rules request context).result
    → (rule : Rule) × IsFirst rules request (some rule)
      × Grants rule.effect
      × ((evaluate_rules rules request context).limits ≡ some (limits_for rule context.now))
      × ((evaluate_rules rules request context).rule_id ≡ some rule.id)
unfolding evaluate_rules
evaluate_rules-Authorizes rules request context h =
    let (rule, found, grants, limits, id) =
      rule-Grants (select_rule rules request) request context h in
    (
      rule,
      subst (IsFirst rules request) found (select_rule-IsFirst rules request),
      grants,
      limits,
      id,
    )

effect-limits_iff :
    (e : Effect) (rule : Rule) (request : AuthorizationRequest) (context : PolicyContext)
    → ((apply_effect e rule request context).limits ≢ none)
      ↔ Authorizes (apply_effect e rule request context).result
unfolding apply_effect
effect-limits_iff Effect.allow rule request context = ground arith
effect-limits_iff _ rule request context = ground arith

outcome-limits_iff :
    (found : Option Rule) (request : AuthorizationRequest) (context : PolicyContext)
    → ((apply_rule found request context).limits ≢ none)
      ↔ Authorizes (apply_rule found request context).result
unfolding apply_rule
outcome-limits_iff none request context = ground arith
outcome-limits_iff (some rule) request context = effect-limits_iff rule.effect rule request context

-- An outcome carries the bounds of a capability exactly when its result authorizes the action.
pub evaluate_rules-limits_iff :
    (rules : List Rule) (request : AuthorizationRequest) (context : PolicyContext)
    → ((evaluate_rules rules request context).limits ≢ none)
      ↔ Authorizes (evaluate_rules rules request context).result
unfolding evaluate_rules
evaluate_rules-limits_iff rules request context =
    outcome-limits_iff (select_rule rules request) request context

nothing_found :
    (rules : List Rule) (request : AuthorizationRequest) (found : Option Rule)
    → IsFirst rules request found
    → ((r : Rule) → In r rules → ¬ Matches r request)
    → found ≡ none
nothing_found rules request none first h = refl
nothing_found rules request (some r) first h = absurd (h r first.0 first.1)

-- A request to which no listed rule applies is held for review: it is not allowed, it names no rule
-- and it carries no bounds to grant.
pub evaluate_rules_unmatched :
    (rules : List Rule) (request : AuthorizationRequest) (context : PolicyContext)
    → ((r : Rule) → In r rules → ¬ Matches r request)
    → ((evaluate_rules rules request context).result ≡ AuthorizationResult.review)
      × ((evaluate_rules rules request context).reason_code ≡ "NO_MATCHING_POLICY_RULE")
      × ((evaluate_rules rules request context).rule_id ≡ none)
      × ((evaluate_rules rules request context).limits ≡ none)
unfolding evaluate_rules apply_rule
evaluate_rules_unmatched rules request context h =
    rw
      (nothing_found rules request (select_rule rules request) (select_rule-IsFirst rules request)
        h)
      (refl, refl, refl, refl)
