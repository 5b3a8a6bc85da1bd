-- ===== src/Authorization/Rules/Tests.antt =====
-- A policy of three rules, and the theorems about it.
use xander.Prelude.{◌≡◌, refl, ◌↔◌, inl, inr, true, none, some, List, [], ◌∷◌, arith, In, subst}
use xander.Prelude.Sort.{sort_asc}
use xander.Capabilities.Types.{parse_amount, within_amount_limit}
use xander.Authorization.Request.{AuthorizationResult, AuthorizationRequest, AuthorizationOutcome}
use xander.Authorization.Rules.{
  Effect, Rule, PolicyContext, rule_matches, select_rule, limits_for, apply_rule, evaluate_rules,
  action_ok, band_ok, least_ok, most_ok, assurance_ok,
}
use xander.Authorization.Rules.Matching.{Matches, rule_matches_iff}
use xander.Authorization.Rules.Selection.{IsFirst, SameMembers, HasUniquePriorities}
use xander.Authorization.Rules.Outcome.{Grants, evaluate_rules-Authorizes}

abbrev pub plain : Rule
plain = record {
  id = "r1";
  priority = 10;
  name = "small transfers";
  action_type = some "TRANSFER";
  min_amount = none;
  max_amount = some "1000";
  trust_bands = "VERIFIED_LOW" ∷ "ESTABLISHED_LOW" ∷ [];
  max_coordination_risk = some 300000;
  min_behavior_integrity = none;
  requires_live_assurance = some true;
  effect = Effect.allow;
  reason_code = "SMALL_TRANSFER";
  limit_amount = some "1000";
  limit_frequency = some 5;
  limit_window_seconds = some 3600;
  capability_ttl_seconds = some 600;
}

abbrev capped : Rule
capped = record plain { id = "r2"; priority = 20; max_amount = none; effect = Effect.limit }

abbrev rules : List Rule
rules = capped ∷ plain ∷ []

abbrev pub request : AuthorizationRequest
request = record {
  actor = record { id = "alice"; actor_type = "AGENT"; status = "ACTIVE" };
  intent = record {
    id = "i1";
    action_type = "TRANSFER";
    resource_type = "wallet";
    resource_id = "w1";
    amount = some "700";
    asset = none;
    chain_id = none;
    target_address = none;
  };
  trust = record {
    band = "VERIFIED_LOW";
    coordination_risk = some 100000;
    behavior_integrity = none;
    evidence_freshness = none;
    snapshot_id = none;
  };
  assurance = record { has_live_lease = true; level = none; expires_at = none };
  current_capabilities = [];
}

-- The same request of an actor whose coordination risk was not measured.
abbrev unmeasured : AuthorizationRequest
unmeasured = record request { trust = record (request.trust) { coordination_risk = none } }

abbrev context : PolicyContext
context = record { policy_id = some "p"; policy_version = "1"; now = 5000 }

-- The evaluation with all that it calls open.
run : List Rule → AuthorizationRequest → AuthorizationOutcome
unfolding evaluate_rules apply_rule select_rule rule_matches action_ok band_ok least_ok most_ok
    assurance_ok sort_asc parse_amount limits_for within_amount_limit
run rs q = evaluate_rules rs q context

allowed : (evaluate_rules rules request context).result ≡ AuthorizationResult.allow
unfolding run
allowed = refl

unmatched_held : (evaluate_rules rules unmeasured context).result ≡ AuthorizationResult.review
unfolding run
unmatched_held = refl

rule_matches_iff_example : (rule_matches plain request ≡ true) ↔ Matches plain request
rule_matches_iff_example = rule_matches_iff plain request

distinct : HasUniquePriorities rules
distinct a b (inl e) (inl f) h = rw (e, f)
distinct a b (inl e) (inr (inl f)) h = ground arith
distinct a b (inr (inl e)) (inl f) h = ground arith
distinct a b (inr (inl e)) (inr (inl f)) h = rw (e, f)
distinct a b m n h = ground arith

same : SameMembers rules (plain ∷ capped ∷ [])
same r = ground arith

evaluate_rules-Authorizes_example :
    (rule : Rule) × IsFirst rules request (some rule)
    × Grants rule.effect
    × ((evaluate_rules rules request context).limits ≡ some (limits_for rule 5000))
    × ((evaluate_rules rules request context).rule_id ≡ some rule.id)
evaluate_rules-Authorizes_example = evaluate_rules-Authorizes rules request context (inl allowed)

unmatched : (r : Rule) → In r rules → ¬ Matches r unmeasured
unfolding run
unmatched r (inl e) m =
    let hit : rule_matches capped unmeasured ≡ true =
      (rule_matches_iff capped unmeasured).1 (subst (λ x. Matches x unmeasured) e m) in
    cc hit
unmatched r (inr (inl e)) m =
    let hit : rule_matches plain unmeasured ≡ true =
      (rule_matches_iff plain unmeasured).1 (subst (λ x. Matches x unmeasured) e m) in
    cc hit
unmatched r (inr (inr none_left)) m = none_left
