-- ===== src/Authorization/Enforcement/Execution/Laws.antt =====
-- The gate before an action and the record after it
-- (backend/src/authorization/enforcement/execution-service.ts).
use xander.Prelude.{
  ℕ, suc, ◌≡◌, ◌<◌, refl, sym, ◌∙◌, ap, String, Bool, true, false, ◌||◌, ◌⊎◌, inl, inr, Option,
  none, some, List, arith, eq_iff, str_eq, leb, any, count_if, if◌then◌else◌, Bool-cases,
  Option-cases,
}
use xander.Capabilities.Store.{Capability, CapabilityCheck, Database, check_capability}
use xander.Capabilities.Check.{Permits, check_capability_sound}
use xander.Authorization.Enforcement.Adapter.{AdapterName}
use xander.Authorization.Enforcement.EnsEac.{Attempt, Chain, threw, returned}
use xander.Authorization.Enforcement.Service.{verify_enforcement}
use xander.Authorization.Enforcement.Service.Laws.{IsProven, verify_enforcement_iff}
use xander.Authorization.Enforcement.Execution.{
  ExecutionStatus, Intent, ExecutionOutcome, ExecutionEffect, call_executor, record_use,
  update_receipt, is_executed, receipt_effects, finish_receipt, refuse, authorizes, action_of,
  succeed, perform, Moments, verify_and_perform, check_and_perform, execute_intent,
  execute_authorized_action,
}

-- Everything that has to hold, each at its own moment, for an intent to be carried out.
pub record IsAuthorized (D : Database) (C : Chain) (label_of : String → Option String)
    (m : Moments D C) (intent : Intent) (c : Capability) : Type 0 where
  pub decided : (m.decision ≡ some "ALLOW") ⊎ (m.decision ≡ some "LIMIT")
  pub in_time : m.gate_time < intent.expires_at
  pub permitted : Permits D m.checked (action_of intent) m.check_time c
  pub proven : IsProven D C (label_of intent.actor_id) m.verified (action_of intent) m.verify_time

-- An effect on the world outside the receipt.
abbrev pub acts : ExecutionEffect → Bool
acts call_executor = true
acts (record_use _ _ _) = true
acts (update_receipt _ _) = false

abbrev pub is_use : ExecutionEffect → Bool
is_use (record_use _ _ _) = true
is_use _ = false

authorizes_iff : (d : Option String) → authorizes d ≡ true → (d ≡ some "ALLOW") ⊎ (d ≡ some "LIMIT")
authorizes_iff none h = absurd (cc)
authorizes_iff (some r) h = elim (Bool-cases (str_eq r "ALLOW")) [
  | inl e ↦ inl (ap some ((eq_iff r "ALLOW").0 e))
  | inr ne ↦ inr (ap some ((eq_iff r "LIMIT").0 (rw ne at h)))
]

pub authorizes_of :
    (d : Option String) → (d ≡ some "ALLOW") ⊎ (d ≡ some "LIMIT") → authorizes d ≡ true
authorizes_of d (inl e) = rw e refl
authorizes_of d (inr e) = rw e refl

module _ (D : Database) (C : Chain) (label_of : String → Option String)
    (executor : Option (Attempt (Option String))) (m : Moments D C) (intent : Intent) where
  -- The two ways in which the function ends.
  data Ending (r : ExecutionOutcome × List ExecutionEffect) : Type 0 where
    performed :
        (c : Capability)
        → IsAuthorized D C label_of m intent c
        → (adapters : List AdapterName)
        → r ≡ perform executor intent m.receipt_id c.id adapters m.end_time
        → Ending r
    refused :
        (adapters : List AdapterName) (capability_id : Option String)
        → r ≡ refuse intent.id m.receipt_id adapters capability_id m.end_time
        → Ending r

  abbrev check : CapabilityCheck
  check = check_capability D m.checked (action_of intent) m.check_time

  abbrev found : Capability → CapabilityCheck
  found c = record { allowed = true; capability = some c; denial = none }

  verify-Ending :
      (c : Capability)
      → authorizes m.decision ≡ true
      → leb intent.expires_at m.gate_time ≡ false
      → Permits D m.checked (action_of intent) m.check_time c
      → Ending (verify_and_perform D C label_of executor m intent c)
  unfolding verify_and_perform
  verify-Ending c d t p =
      elim (Bool-cases
        (verify_enforcement D C label_of m.verified (action_of intent) m.verify_time).enforced) [
          | inl proven ↦ rw proven (
              performed c
                (record {
                  decided = authorizes_iff m.decision d;
                  in_time = ground arith;
                  permitted = p;
                  proven =
                      (verify_enforcement_iff D C label_of m.verified (action_of intent)
                          m.verify_time).0
                        proven;
                })
                _ refl)
          | inr unproven ↦ rw unproven (refused _ _ refl)
        ]

  check-Ending :
      authorizes m.decision ≡ true
      → leb intent.expires_at m.gate_time ≡ false
      → Ending (check_and_perform D C label_of executor m intent)
  unfolding check_and_perform
  check-Ending d t = elim (Bool-cases check.allowed) [
    | inl allowed ↦
        let (c, same, p) =
          check_capability_sound D m.checked (action_of intent) m.check_time allowed in
        rw same (verify-Ending c d t p)
    | inr denied ↦ rw denied (refused _ _ refl)
  ]

  execute-Ending : Ending (execute_intent D C label_of executor m intent)
  unfolding execute_intent
  execute-Ending = elim (Bool-cases (authorizes m.decision)) [
    | inl d ↦ elim (Bool-cases (leb intent.expires_at m.gate_time)) [
      | inl late ↦ rw (d, late) (refused _ _ refl)
      | inr t ↦ rw (d, t) (check-Ending d t)
    ]
    | inr undecided ↦ rw undecided (refused _ _ refl)
  ]

-- What the receipt says of an end, and nothing else.
receipt-quiet :
    (id : Option String) (status : ExecutionStatus) (adapters : List AdapterName)
    (tx : Option String) (now : ℕ)
    → (any acts (receipt_effects id status adapters tx now) ≡ false)
      × (count_if is_use (receipt_effects id status adapters tx now) ≡ 0)
unfolding receipt_effects
receipt-quiet none status adapters tx now = (refl, refl)
receipt-quiet (some id) status adapters tx now = elim (Bool-cases (str_eq id "")) [
  | inl e ↦ rw e (refl, refl)
  | inr ne ↦ rw ne (refl, refl)
]

-- The uses that an end of a status records.
abbrev pub uses_of : ExecutionStatus → ℕ
uses_of status = if is_executed status then 1 else 0

perform-uses :
    (executor : Option (Attempt (Option String))) (intent : Intent) (receipt_id : Option String)
    (c : String) (adapters : List AdapterName) (now : ℕ)
    → count_if is_use (perform executor intent receipt_id c adapters now).1
      ≡ uses_of (perform executor intent receipt_id c adapters now).0.status
unfolding perform succeed finish_receipt
perform-uses none intent receipt_id c adapters now =
    ap suc (receipt-quiet receipt_id ExecutionStatus.executed_as_authorized adapters none now).1
perform-uses (some threw) intent receipt_id c adapters now =
    (receipt-quiet receipt_id ExecutionStatus.failed adapters none now).1
perform-uses (some (returned tx)) intent receipt_id c adapters now =
    ap suc (receipt-quiet receipt_id ExecutionStatus.executed_as_authorized adapters tx now).1

-- Whether an end did anything, or says that it did.
abbrev did : ExecutionOutcome × List ExecutionEffect → Bool
did (outcome, effects) = any acts effects || is_executed outcome.status

module _ (intent_id : String) (receipt_id : Option String) (adapters : List AdapterName)
    (c : Option String) (now : ℕ) where
  refuse-idle : did (refuse intent_id receipt_id adapters c now) ≡ false
  unfolding refuse finish_receipt
  refuse-idle =
      rw (receipt-quiet receipt_id ExecutionStatus.blocked_unenforceable adapters none now).0 refl

  refuse-uses :
      count_if is_use (refuse intent_id receipt_id adapters c now).1
      ≡ uses_of (refuse intent_id receipt_id adapters c now).0.status
  unfolding refuse finish_receipt
  refuse-uses = (receipt-quiet receipt_id ExecutionStatus.blocked_unenforceable adapters none now).1

module _ (D : Database) (C : Chain) (label_of : String → Option String)
    (executor : Option (Attempt (Option String))) (m : Moments D C) where
  Ending-IsAuthorized :
      (intent : Intent) (r : ExecutionOutcome × List ExecutionEffect)
      → Ending D C label_of executor m intent r
      → did r ≡ true
      → (c : Capability) × IsAuthorized D C label_of m intent c
  Ending-IsAuthorized intent r (performed c a adapters e) h = (c, a)
  Ending-IsAuthorized intent r (refused adapters k e) h =
      absurd (cc (sym h ∙ (ap did e ∙ refuse-idle intent.id m.receipt_id adapters k m.end_time)))

  Ending-uses :
      (intent : Intent) (r : ExecutionOutcome × List ExecutionEffect)
      → Ending D C label_of executor m intent r
      → count_if is_use r.1 ≡ uses_of r.0.status
  Ending-uses intent r (performed c a adapters e) =
      rw e (perform-uses executor intent m.receipt_id c.id adapters m.end_time)
  Ending-uses intent r (refused adapters k e) =
      rw e (refuse-uses intent.id m.receipt_id adapters k m.end_time)

  executed-Ending :
      (r : ExecutionOutcome × List ExecutionEffect)
      → execute_authorized_action D C label_of executor m ≡ some r
      → (intent : Intent) × (m.intent ≡ some intent) × Ending D C label_of executor m intent r
  unfolding execute_authorized_action
  executed-Ending r h = elim (Option-cases m.intent) [
    | inl missing ↦ absurd (cc (rw missing at h))
    | inr (intent, there) ↦
        let same : execute_intent D C label_of executor m intent ≡ r = cc in
        (intent, there, rw (← same) (execute-Ending D C label_of executor m intent))
  ]

-- If an execution calls the executor, records a use, or says that the action was executed as
-- authorized, then the intent is on file, its newest decision was to allow or to limit, it had not
-- expired at the gate, some capability on file permitted the concrete action at the check, and
-- every boundary of the actor confirmed it at the verification. What other requests did between
-- these steps makes no difference.
pub execute_authorized_action_sound :
    (D : Database) (C : Chain) (label_of : String → Option String)
    (executor : Option (Attempt (Option String))) (m : Moments D C) (outcome : ExecutionOutcome)
    (effects : List ExecutionEffect)
    → execute_authorized_action D C label_of executor m ≡ some (outcome, effects)
    → (any acts effects || is_executed outcome.status) ≡ true
    → (intent : Intent) × (c : Capability) × (m.intent ≡ some intent)
      × IsAuthorized D C label_of m intent c
execute_authorized_action_sound D C label_of executor m outcome effects h acted =
    let (intent, there, ending) = executed-Ending D C label_of executor m (outcome, effects) h in
    let (c, a) =
      Ending-IsAuthorized D C label_of executor m intent (outcome, effects) ending acted in
    (intent, c, there, a)

-- An execution records one use if it ends as executed as authorized, and none if it ends in any
-- other way: a refused or failed action takes nothing of the actor's rate.
pub execute_authorized_action-uses :
    (D : Database) (C : Chain) (label_of : String → Option String)
    (executor : Option (Attempt (Option String))) (m : Moments D C) (outcome : ExecutionOutcome)
    (effects : List ExecutionEffect)
    → execute_authorized_action D C label_of executor m ≡ some (outcome, effects)
    → count_if is_use effects ≡ (if is_executed outcome.status then 1 else 0)
execute_authorized_action-uses D C label_of executor m outcome effects h =
    let (intent, there, ending) = executed-Ending D C label_of executor m (outcome, effects) h in
    Ending-uses D C label_of executor m intent (outcome, effects) ending
