-- ===== src/Hardening/Dependencies/Laws.antt =====
-- Without which dependencies an authorization may still be granted (`canAuthorizeWithout` of
-- backend/src/hardening/dependency-policy.ts).
use xander.Prelude.{
  ◌≡◌, ◌≢◌, refl, String, Bool, false, ◌&&◌, Option, none, some, List, [], ◌∷◌, any, all, str_eq,
  eq_iff, All, All-In, any-In, Option-cases, Bool-cases, inl, inr, ◌>>=◌, arith,
}
use xander.Prelude.Memory.{find-some}
use xander.Hardening.Dependencies.{
  DependencyPolicy, dependency_policies, policy_for, policies_for, Availability, availability_of,
  can_authorize_without,
}

-- The dependencies that cannot influence a decision: what is lost without them is speed, durability
-- or advice.
abbrev pub harmless : List String
harmless = "REDIS" ∷ "SUBGRAPH_MCP" ∷ "TEMPORAL" ∷ "ERC8004_RPC" ∷ "ANTHROPIC" ∷ []

-- Authorized, and not by an error.
abbrev pub may_authorize : Option Availability → Bool
may_authorize none = false
may_authorize (some a) = a.can_authorize

abbrev is_harmless : String → Bool
is_harmless d = any (str_eq d) harmless

table_harmless :
    All
      (λ (p : DependencyPolicy). is_harmless p.dependency ≡ p.can_still_authorize)
      dependency_policies
table_harmless = ground arith

harmless_listed : All (λ d. policy_for d ≢ none) harmless
unfolding policy_for
harmless_listed = ground arith

known-harmless :
    (d : String) (p : DependencyPolicy)
    → policy_for d ≡ some p
    → is_harmless d ≡ p.can_still_authorize
unfolding policy_for
known-harmless d p h =
    let (m, named) = find-some (λ q. str_eq q.dependency d) dependency_policies p h in
    rw (← (eq_iff p.dependency d).0 named) (
      All-In (λ (q : DependencyPolicy). is_harmless q.dependency ≡ q.can_still_authorize)
        dependency_policies p table_harmless m)

unknown-harmless : (d : String) → policy_for d ≡ none → is_harmless d ≡ false
unknown-harmless d h = elim (Bool-cases (is_harmless d)) [
  | inr no_match ↦ no_match
  | inl listed ↦
      absurd
        (All-In (λ k. policy_for k ≢ none) harmless d harmless_listed (any-In d harmless listed) h)
]

step :
    (p : DependencyPolicy) (rest : Option (List DependencyPolicy)) (b : Bool)
    → may_authorize (rest >>= λ ps. some (availability_of ps)) ≡ b
    → may_authorize ((rest >>= λ ps. some (p ∷ ps)) >>= λ ps. some (availability_of ps))
      ≡ (p.can_still_authorize && b)
unfolding availability_of
step p none b h = ground arith
step p (some ps) b h = ground arith

-- An authorization may be granted with a list of dependencies down exactly if every one of them is
-- the cache, the workflow engine, or one of the three that only advise; a name that is no
-- dependency is an error, and may_authorize nothing.
pub can_authorize_without-all :
    (unavailable : List String)
    → may_authorize (can_authorize_without unavailable)
      ≡ all (λ d. any (str_eq d) harmless) unavailable
unfolding can_authorize_without policies_for availability_of
can_authorize_without-all [] = refl
can_authorize_without-all (d ∷ ds) = elim (Option-cases (policy_for d)) [
  | inl unknown ↦ rw (unknown, unknown-harmless d unknown) refl
  | inr (p, found) ↦
      rw (found, known-harmless d p found)
        (step p (policies_for ds) (all is_harmless ds) (can_authorize_without-all ds))
]
