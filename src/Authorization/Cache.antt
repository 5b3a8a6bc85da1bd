-- ===== src/Authorization/Cache.antt =====
-- The active policy and its cache: backend/src/authorization/native-policy-evaluator.ts. The loads
-- of a process are taken one after the other; loads that overlap are not modelled.
pub mod Laws
pub mod Tests
use xander.Prelude.{
  ℕ, ◌+◌, ◌*◌, String, Bool, true, false, ◌&&◌, not, Option, none, some, List, [], ◌∷◌, leb,
  if◌then◌else◌,
}
use xander.Authorization.Request.{AuthorizationRequest, AuthorizationOutcome}
use xander.Authorization.Rules.{Rule, evaluate_rules}

pub record Policy : Type 0 where
  pub id : String
  pub version : String
  pub rules : List Rule

pub record CachedPolicy : Type 0 where
  pub loaded_at_ms : ℕ
  pub policy_id : Option String
  pub version : String
  pub rules : List Rule

-- What a load takes from the policy that the database has as active, if it has one.
unfoldable pub loaded_policy : Option Policy → ℕ → CachedPolicy
loaded_policy none now = record {
  loaded_at_ms = now;
  policy_id = none;
  version = "none";
  rules = [];
}
loaded_policy (some policy) now = record {
  loaded_at_ms = now;
  policy_id = some policy.id;
  version = policy.version;
  rules = policy.rules;
}

-- The clock when the load begins and when it ends, and the policy that the database answers.
pub record LoadMoments : Type 0 where
  pub begun_at : ℕ
  pub active_policy : Option Policy
  pub ended_at : ℕ

unfoldable pub is_fresh : ℕ → ℕ → CachedPolicy → Bool
is_fresh ttl_seconds now c = not (leb (c.loaded_at_ms + ttl_seconds * 1000) now)

-- The policy to use, and the cache afterwards.
abbrev pub load_anew : LoadMoments → CachedPolicy × Option CachedPolicy
load_anew m = let loaded = loaded_policy m.active_policy m.ended_at in (loaded, some loaded)

-- `loadActiveRules`
unfoldable pub load_active_rules :
    Bool → ℕ → LoadMoments → Option CachedPolicy → CachedPolicy × Option CachedPolicy
load_active_rules force ttl_seconds m none = load_anew m
load_active_rules force ttl_seconds m (some c) =
    if not force && is_fresh ttl_seconds m.begun_at c then (c, some c) else load_anew m

-- `resetPolicyCache`
unfoldable pub reset_policy_cache : Option CachedPolicy → Option CachedPolicy
reset_policy_cache cache = none

-- `NativePolicyEvaluator.evaluate`, with the clock that it reads for the rules
unfoldable pub evaluate :
    ℕ
    → LoadMoments
    → ℕ
    → AuthorizationRequest
    → Option CachedPolicy
    → AuthorizationOutcome × Option CachedPolicy
evaluate ttl_seconds m now request cache =
    let (policy, after) = load_active_rules false ttl_seconds m cache in
    (
      evaluate_rules policy.rules request
          (record { policy_id = policy.policy_id; policy_version = policy.version; now = now }),
      after,
    )

-- What happens to the cache of a process, one thing after the other.
pub data CacheStep : Type 0 where
  reset : CacheStep
  evaluated : LoadMoments → ℕ → AuthorizationRequest → CacheStep

unfoldable pub cache_step : ℕ → CacheStep → Option CachedPolicy → Option CachedPolicy
cache_step ttl_seconds CacheStep.reset cache = reset_policy_cache cache
cache_step ttl_seconds (CacheStep.evaluated m now request) cache =
    (evaluate ttl_seconds m now request cache).1

-- The cache after the steps, the first of which is the earliest.
unfoldable pub run_cache : ℕ → List CacheStep → Option CachedPolicy → Option CachedPolicy
run_cache ttl_seconds [] cache = cache
run_cache ttl_seconds (s ∷ steps) cache =
    run_cache ttl_seconds steps (cache_step ttl_seconds s cache)
