-- ===== src/Authorization/Enforcement/Execution/Completion.antt =====
-- An authorized action does go through: the other direction of the gate
-- (`executeAuthorizedAction` of backend/src/authorization/enforcement/execution-service.ts).
use xander.Prelude.{
  ℕ, ◌≡◌, ◌≢◌, ◌≤◌, refl, ap, ◌∙◌, String, true, false, Option, none, some, List, [], ◌∷◌, ◌++◌,
  arith, leb,
}
use xander.Capabilities.Store.{Capability, Database, check_capability}
use xander.Capabilities.Check.{Permits, check_capability_complete, check_capability-Permits}
use xander.Authorization.Enforcement.Adapter.{AdapterName}
use xander.Authorization.Enforcement.EnsEac.{Attempt, Chain, threw, returned}
use xander.Authorization.Enforcement.Service.{verify_enforcement}
use xander.Authorization.Enforcement.Service.Laws.{verify_enforcement_iff}
use xander.Authorization.Enforcement.Execution.{
  ExecutionStatus, Intent, ExecutionOutcome, ExecutionEffect, call_executor, record_use,
  receipt_effects, finish_receipt, action_of, succeed, perform, Moments, verify_and_perform,
  check_and_perform, execute_intent, execute_authorized_action,
}
use xander.Authorization.Enforcement.Execution.Laws.{IsAuthorized, authorizes_of}

-- The call of the executor, if there is one.
abbrev pub calls : Option (Attempt (Option String)) → List ExecutionEffect
calls none = []
calls (some _) = call_executor ∷ []

-- A carried out action: called, then recorded, then on the receipt.
pub record IsCarriedOut (executor : Option (Attempt (Option String))) (intent : Intent)
    (receipt_id : Option String) (c : Capability) (now : ℕ)
    (r : ExecutionOutcome × List ExecutionEffect) : Type 0 where
  pub status : r.0.status ≡ ExecutionStatus.executed_as_authorized
  pub capability : r.0.capability_id ≡ some c.id
  pub effects :
      r.1
      ≡ calls executor
        ++ record_use c.id intent.id intent.amount
          ∷ receipt_effects receipt_id ExecutionStatus.executed_as_authorized r.0.adapters
              r.0.tx_hash now

module _ (D : Database) (C : Chain) (label_of : String → Option String)
    (executor : Option (Attempt (Option String))) (m : Moments D C) (intent : Intent) where
  gate-open :
      (k : Capability)
      → IsAuthorized D C label_of m intent k
      → execute_intent D C label_of executor m intent
        ≡ check_and_perform D C label_of executor m intent
  unfolding execute_intent
  gate-open k a =
      let t : leb intent.expires_at m.gate_time ≡ false = let u = a.in_time in ground arith in
      rw (authorizes_of m.decision a.decided, t) refl

  verified-perform :
      (k c : Capability)
      → IsAuthorized D C label_of m intent k
      → verify_and_perform D C label_of executor m intent c
        ≡ perform executor intent m.receipt_id c.id
            (verify_enforcement D C label_of m.verified (action_of intent) m.verify_time).adapters
            m.end_time
  unfolding verify_and_perform
  verified-perform k c a =
      rw
        ((verify_enforcement_iff D C label_of m.verified (action_of intent) m.verify_time).1
          a.proven)
        refl

  checked-perform :
      (c : Capability)
      → check_capability D m.checked (action_of intent) m.check_time
        ≡ record { allowed = true; capability = some c; denial = none }
      → check_and_perform D C label_of executor m intent
        ≡ verify_and_perform D C label_of executor m intent c
  unfolding check_and_perform
  checked-perform c e = rw e refl

perform-IsCarriedOut :
    (executor : Option (Attempt (Option String))) (intent : Intent) (receipt_id : Option String)
    (c : Capability) (adapters : List AdapterName) (now : ℕ)
    → executor ≢ some threw
    → IsCarriedOut executor intent receipt_id c now
        (perform executor intent receipt_id c.id adapters now)
unfolding perform succeed finish_receipt
perform-IsCarriedOut none intent receipt_id c adapters now ok = record {
  status = refl;
  capability = refl;
  effects = refl;
}
perform-IsCarriedOut (some threw) intent receipt_id c adapters now ok = absurd (ok refl)
perform-IsCarriedOut (some (returned tx)) intent receipt_id c adapters now ok = record {
  status = refl;
  capability = refl;
  effects = refl;
}

-- If the intent is on file and everything holds that an execution asks for, with some capability
-- that permits the action, and the executor, if there is one, does not throw, then the action is
-- carried out: the executor is called, then one use is recorded, then the receipt is written, and
-- nothing else. The use is of a capability that permits the action and is no older than that one.
pub execute_authorized_action_complete :
    (D : Database) (C : Chain) (label_of : String → Option String)
    (executor : Option (Attempt (Option String))) (m : Moments D C) (intent : Intent)
    (k : Capability)
    → m.intent ≡ some intent
    → IsAuthorized D C label_of m intent k
    → executor ≢ some threw
    → (c : Capability) × (r : ExecutionOutcome × List ExecutionEffect) × (execute_authorized_action
          D C label_of executor m
        ≡ some r)
      × Permits D m.checked (action_of intent) m.check_time c
      × (k.created_at ≤ c.created_at)
      × IsCarriedOut executor intent m.receipt_id c m.end_time r
unfolding execute_authorized_action execute_intent check_and_perform verify_and_perform
execute_authorized_action_complete D C label_of executor m intent k there a ok =
    let (c, e, newer) =
      check_capability_complete D m.checked (action_of intent) m.check_time k a.permitted in
    let adapters =
      (verify_enforcement D C label_of m.verified (action_of intent) m.verify_time).adapters in
    (
      c,
      perform executor intent m.receipt_id c.id adapters m.end_time,
      rw there (
          ap some (
            gate-open D C label_of executor m intent k a
            ∙ (checked-perform D C label_of executor m intent c e
                ∙ verified-perform D C label_of executor m intent k c a))),
      check_capability-Permits D m.checked (action_of intent) m.check_time c e,
      newer,
      perform-IsCarriedOut executor intent m.receipt_id c adapters m.end_time ok,
    )
