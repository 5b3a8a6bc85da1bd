-- ===== src/Hardening/Dependencies.antt =====
-- The table of dependencies and what may be authorized without them:
-- backend/src/hardening/dependency-policy.ts. The columns for people are left out.
pub mod Laws
use xander.Prelude.{
  ◌>>=◌, String, Bool, true, false, not, Option, none, some, List, [], ◌∷◌, map, filter, find,
  str_eq, if◌then◌else◌,
}

pub data DegradedBehaviour : Type 0 where
  refuse_all hold_for_review refuse_action : DegradedBehaviour
  degrade_to_unknown degrade_local_only : DegradedBehaviour

pub record DependencyPolicy : Type 0 where
  pub dependency : String
  pub behaviour : DegradedBehaviour
  pub can_still_authorize : Bool

abbrev policy : String → DegradedBehaviour → Bool → DependencyPolicy
policy dependency behaviour can_still_authorize = record {
  dependency = dependency;
  behaviour = behaviour;
  can_still_authorize = can_still_authorize;
}

-- `DEPENDENCY_POLICIES`
abbrev pub dependency_policies : List DependencyPolicy
dependency_policies =
    policy "POSTGRES" DegradedBehaviour.refuse_all false
    ∷ policy "REDIS" DegradedBehaviour.degrade_local_only true
    ∷ policy "GRAPH_TOKEN_API" DegradedBehaviour.hold_for_review false
    ∷ policy "GRAPH_SUBGRAPHS" DegradedBehaviour.hold_for_review false
    ∷ policy "SUBSTREAMS" DegradedBehaviour.hold_for_review false
    ∷ policy "SUBGRAPH_MCP" DegradedBehaviour.degrade_to_unknown true
    ∷ policy "WORLD" DegradedBehaviour.refuse_action false
    ∷ policy "TEMPORAL" DegradedBehaviour.degrade_local_only true
    ∷ policy "ENS_RPC" DegradedBehaviour.refuse_action false
    ∷ policy "ERC8004_RPC" DegradedBehaviour.degrade_to_unknown true
    ∷ policy "X402_FACILITATOR" DegradedBehaviour.refuse_action false
    ∷ policy "ANTHROPIC" DegradedBehaviour.degrade_to_unknown true
    ∷ []

-- `policyFor`; none stands for its error.
unfoldable pub policy_for : String → Option DependencyPolicy
policy_for dependency = find (λ p. str_eq p.dependency dependency) dependency_policies

-- `unavailable.map((d) => policyFor(d))`, which throws with the first that throws
unfoldable pub policies_for : List String → Option (List DependencyPolicy)
policies_for [] = some []
policies_for (d ∷ unavailable) = do
  p ← policy_for d
  rest ← policies_for unavailable
  some (p ∷ rest)

pub record Availability : Type 0 where
  pub can_authorize : Bool
  pub blocked_by : List String

abbrev pub is_empty : List DependencyPolicy → Bool
is_empty [] = true
is_empty (_ ∷ _) = false

abbrev pub blocking : List DependencyPolicy → List DependencyPolicy
blocking policies = filter (λ p. not p.can_still_authorize) policies

unfoldable pub availability_of : List DependencyPolicy → Availability
availability_of policies = record {
  can_authorize = is_empty (blocking policies);
  blocked_by = map (λ p. p.dependency) (blocking policies);
}

-- `canAuthorizeWithout`
unfoldable pub can_authorize_without : List String → Option Availability
can_authorize_without unavailable = do
  policies ← policies_for unavailable
  some (availability_of policies)

-- `authorizationCriticalDependencies`
unfoldable pub authorization_critical_dependencies : List String
authorization_critical_dependencies = map (λ p. p.dependency) (blocking dependency_policies)
