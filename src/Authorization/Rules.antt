-- ===== src/Authorization/Rules.antt =====
-- The rule engine: backend/src/authorization/rule-engine.ts. The summaries for people are left
-- out; everything that another part of the program reads is kept.
pub mod Matching
pub mod Selection
pub mod Outcome
pub mod Tests
use xander.Prelude.{
  ℕ, ◌+◌, ◌*◌, String, Bool, true, false, ◌&&◌, not, Option, none, some, List, [], ◌∷◌, leb,
  if◌then◌else◌, any, find, str_eq,
}
use xander.Prelude.Sort.{sort_asc}
use xander.Capabilities.Types.{
  CapabilityLimits, parse_amount, attenuate_amount, within_amount_limit,
}
use xander.Authorization.Request.{AuthorizationResult, AuthorizationRequest, AuthorizationOutcome}

-- The effect column is free text: what the program has no name for is `unrecognised`.
pub data Effect : Type 0 where
  allow limit challenge review block : Effect
  unrecognised : String → Effect

pub record Rule : Type 0 where
  pub id : String
  pub priority : ℕ
  pub name : String
  pub action_type : Option String
  pub min_amount : Option String
  pub max_amount : Option String
  pub trust_bands : List String
  pub max_coordination_risk : Option ℕ
  pub min_behavior_integrity : Option ℕ
  pub requires_live_assurance : Option Bool
  pub effect : Effect
  pub reason_code : String
  pub limit_amount : Option String
  pub limit_frequency : Option ℕ
  pub limit_window_seconds : Option ℕ
  pub capability_ttl_seconds : Option ℕ

pub record PolicyContext : Type 0 where
  pub policy_id : Option String
  pub policy_version : String
  pub now : ℕ

unfoldable pub action_ok : Option String → String → Bool
action_ok none actual = true
action_ok (some wanted) actual = str_eq wanted actual

unfoldable pub band_ok : List String → String → Bool
band_ok [] band = true
band_ok (b ∷ bands) band = any (str_eq band) (b ∷ bands)

-- A bound, once parsed, against an amount, once parsed. A malformed bound constrains nothing.
unfoldable pub least_ok : Option ℕ → Option ℕ → Bool
least_ok none amount = true
least_ok (some least) none = false
least_ok (some least) (some amount) = leb least amount

unfoldable pub most_ok : Option ℕ → Option ℕ → Bool
most_ok none value = true
most_ok (some most) none = false
most_ok (some most) (some value) = leb value most

unfoldable pub assurance_ok : Option Bool → Bool → Bool
assurance_ok none live = true
assurance_ok (some true) live = live
assurance_ok (some false) live = not live

-- `ruleMatches`: every condition that the rule names holds.
unfoldable pub rule_matches : Rule → AuthorizationRequest → Bool
rule_matches rule request =
    let amount = parse_amount request.intent.amount in
    action_ok rule.action_type request.intent.action_type
    && (band_ok rule.trust_bands request.trust.band
        && (least_ok (parse_amount rule.min_amount) amount
            && (most_ok (parse_amount rule.max_amount) amount
                && (most_ok rule.max_coordination_risk request.trust.coordination_risk
                    && (least_ok rule.min_behavior_integrity request.trust.behavior_integrity
                        && assurance_ok rule.requires_live_assurance
                            request.assurance.has_live_lease)))))

-- `selectRule`: the first match by ascending priority.
unfoldable pub select_rule : List Rule → AuthorizationRequest → Option Rule
select_rule rules request =
    find (λ rule. rule_matches rule request) (sort_asc (λ rule. rule.priority) rules)

unfoldable pub expiry_of : Option ℕ → ℕ → Option ℕ
expiry_of none now = none
expiry_of (some ttl) now = some (now + ttl * 1000)

-- `limitsFor`
unfoldable pub limits_for : Rule → ℕ → CapabilityLimits
unfolding expiry_of
limits_for rule now = record {
  amount_limit = rule.limit_amount;
  frequency_limit = rule.limit_frequency;
  frequency_window_seconds = rule.limit_window_seconds;
  allowed_targets = [];
  expires_at = expiry_of rule.capability_ttl_seconds now;
}

-- The fields that every outcome of a matched rule shares.
outcome_of :
    Rule
    → PolicyContext
    → AuthorizationResult
    → Option CapabilityLimits
    → Bool
    → Option String
    → AuthorizationOutcome
outcome_of rule context result limits attenuated required = record {
  result = result;
  reason_code = rule.reason_code;
  rule_id = some rule.id;
  rule_name = some rule.name;
  policy_id = context.policy_id;
  policy_version = context.policy_version;
  limits = limits;
  attenuated = attenuated;
  required_assurance = required;
}

-- The `switch` of `applyRule`, on the effect of the matched rule.
apply_effect : Effect → Rule → AuthorizationRequest → PolicyContext → AuthorizationOutcome
unfolding outcome_of
apply_effect Effect.allow rule request context =
    outcome_of rule context AuthorizationResult.allow (some (limits_for rule context.now)) false
      none
apply_effect Effect.limit rule request context =
    outcome_of rule context AuthorizationResult.limit (some (limits_for rule context.now))
      (not (within_amount_limit request.intent.amount rule.limit_amount)) none
apply_effect Effect.challenge rule request context =
    outcome_of rule context AuthorizationResult.challenge none false (some "SELFIE_CHECK")
apply_effect Effect.review rule request context =
    outcome_of rule context AuthorizationResult.review none false none
apply_effect Effect.block rule request context =
    outcome_of rule context AuthorizationResult.block none false none
apply_effect (Effect.unrecognised _) rule request context =
    record (outcome_of rule context AuthorizationResult.review none false none) {
      reason_code = "UNKNOWN_RULE_EFFECT";
    }

-- `applyRule`
unfoldable pub apply_rule :
    Option Rule → AuthorizationRequest → PolicyContext → AuthorizationOutcome
unfolding apply_effect
apply_rule none request context = record {
  result = AuthorizationResult.review;
  reason_code = "NO_MATCHING_POLICY_RULE";
  rule_id = none;
  rule_name = none;
  policy_id = context.policy_id;
  policy_version = context.policy_version;
  limits = none;
  attenuated = false;
  required_assurance = none;
}
apply_rule (some rule) request context = apply_effect rule.effect rule request context

-- `evaluateRules`
unfoldable pub evaluate_rules :
    List Rule → AuthorizationRequest → PolicyContext → AuthorizationOutcome
evaluate_rules rules request context = apply_rule (select_rule rules request) request context
