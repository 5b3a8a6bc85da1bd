-- ===== src/Trust/Execution.antt =====
-- A fall of trust stops the next execution: `applyTrustMutation` of
-- backend/src/trust/trust-mutation.ts before `executeAuthorizedAction` of
-- backend/src/authorization/enforcement/execution-service.ts.
use xander.Prelude.{
  ◌≡◌, sym, subst, ◌∙◌, ap, ℕ, String, true, false, ◌||◌, Option, none, some, List, any, Bool-cases,
  inl, inr,
}
use xander.Capabilities.Types.{CapabilityDenial}
use xander.Capabilities.Store.{
  Capability, CapabilityCheck, Database, State, CheckArgs, check_capability, denied,
}
use xander.Capabilities.Check.{Permits, check_capability_complete}
use xander.Authorization.Enforcement.EnsEac.{Attempt, Chain}
use xander.Authorization.Enforcement.Execution.{
  Intent, ExecutionOutcome, ExecutionEffect, is_executed, action_of, Moments,
  execute_authorized_action,
}
use xander.Authorization.Enforcement.Execution.Laws.{acts, execute_authorized_action_sound}
use xander.Trust.Mutation.{is_degradation, apply_trust_mutation}
use xander.Trust.Mutation.Laws.{Withdraws, apply_trust_mutation-check}

-- A check that finds nothing permits nothing.
denied-Permits :
    (D : Database) (s : State D) (args : CheckArgs) (now : ℕ) (c : Capability)
    → check_capability D s args now ≡ denied none CapabilityDenial.not_found
    → Permits D s args now c
    → ⊥
denied-Permits D s args now c e p =
    let (k, found, _) = check_capability_complete D s args now c p in
    cc (ap (λ (r : CapabilityCheck). r.allowed) (sym found ∙ e))

-- If trust got worse and is now critical, high risk or no longer measurable, and the actor's intent
-- is then checked for execution, neither the executor is called nor a use recorded, and the outcome
-- does not say that the action was executed, whatever was decided before the fall.
pub execute_authorized_action-apply_trust_mutation :
    (D : Database) (C : Chain) (label_of : String → Option String)
    (executor : Option (Attempt (Option String))) (m : Moments D C) (intent : Intent)
    (previous current : String) (divisor : ℕ) (s : State D) (outcome : ExecutionOutcome)
    (effects : List ExecutionEffect)
    → is_degradation previous current ≡ true
    → Withdraws current
    → m.intent ≡ some intent
    → m.checked ≡ (apply_trust_mutation D intent.actor_id (some previous) current divisor s).1
    → execute_authorized_action D C label_of executor m ≡ some (outcome, effects)
    → (any acts effects || is_executed outcome.status) ≡ false
execute_authorized_action-apply_trust_mutation D C label_of executor m intent previous current
      divisor s outcome effects worse w there checked run =
    elim (Bool-cases (any acts effects || is_executed outcome.status)) [
      | inr idle ↦ idle
      | inl acted ↦
          let (i, c, found, a) =
            execute_authorized_action_sound D C label_of executor m outcome effects run acted in
          let same : i ≡ intent = cc in
          let nothing : check_capability D m.checked (action_of i) m.check_time
              ≡ denied none CapabilityDenial.not_found =
            subst
              (λ t.
                check_capability D t (action_of i) m.check_time
                ≡ denied none CapabilityDenial.not_found)
              (sym checked)
              (apply_trust_mutation-check D intent.actor_id previous current divisor s (action_of i)
                m.check_time worse w (ap (λ (x : Intent). x.actor_id) same)) in
          absurd (denied-Permits D m.checked (action_of i) m.check_time c nothing a.permitted)
    ]
