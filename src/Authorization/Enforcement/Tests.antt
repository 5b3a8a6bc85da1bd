-- ===== src/Authorization/Enforcement/Tests.antt =====
-- An actor with a label on a chain that holds one bit per action, and the theorems at it.
use xander.Prelude.{
  ◌≡◌, ◌≢◌, ◌↔◌, ◌≤◌, refl, inl, inr, String, Bool, true, false, Option, none, some, List, [], ◌∷◌,
  arith, str_eq, if◌then◌else◌, count_if, In,
}
use xander.Prelude.Memory.{sort}
use xander.Prelude.Text.{to_lower_case}
use xander.Capabilities.Types.{
  CapabilityStatus, parse_amount, within_amount_limit, target_allowed, is_capability_live,
  is_lease_live,
}
use xander.Capabilities.Store.{
  Capability, lease_of, assurance_holds, used_in_window, frequency_holds, refusal, check_from,
  candidates, check_capability,
}
use xander.Capabilities.Check.{Permits}
use xander.Capabilities.Tests.{database, transfer, state, args, permitted, allowed}
use xander.Ens.Roles.{agent_role_for_action, role_bit}
use xander.Authorization.Enforcement.Adapter.{AdapterName, is_enforced}
use xander.Authorization.Enforcement.Local.{
  local_inspect, local_revoke, revoked_state, find_capability,
}
use xander.Authorization.Enforcement.EnsEac.{
  Attempt, Chain, returned, threw, has_on_chain_role, eac_inspect, inspect_verdict, eac_revoke,
  revoke_role, eac_verdict,
}
use xander.Authorization.Enforcement.Service.{
  EnforcementVerdict, Boundaries, verify_enforcement, revoke_everywhere, adapters_for_actor,
  inspect_all, names, all_confirm, local_adapter, ens_eac_adapter, revoke_all, revoked_state_of,
}
use xander.Authorization.Enforcement.Service.Laws.{
  IsProven, verify_enforcement_iff, revoke_everywhere-chain,
}
use xander.Authorization.Enforcement.Execution.{
  ExecutionStatus, Intent, ExecutionOutcome, ExecutionEffect, call_executor, record_use,
  update_receipt, receipt_effects, finish_receipt, refuse, action_of, succeed, perform, Moments,
  verify_and_perform, check_and_perform, execute_intent, execute_authorized_action,
}
use xander.Authorization.Enforcement.Execution.Laws.{
  IsAuthorized, is_use, execute_authorized_action_sound, execute_authorized_action-uses,
}
use xander.Authorization.Enforcement.Execution.Completion.{
  IsCarriedOut, execute_authorized_action_complete,
}

-- The world is whether the one label holds its roles.
abbrev pub chain : Chain
chain = record {
  World = Bool;
  has_roles = λ role_held label role. returned role_held;
  grant_roles = λ role_held label role. (returned "0x1", true);
  revoke_roles = λ role_held label role. (returned "0x2", false);
}

abbrev pub label_of : String → Option String
label_of actor = if str_eq actor "alice" then some "alice-agent" else none

abbrev boundaries : Boundaries database chain
boundaries = record { store = state; chain = true }

role_held : has_on_chain_role chain true "alice-agent" "TRANSFER" ≡ returned true
unfolding has_on_chain_role agent_role_for_action role_bit
role_held = refl

proven : IsProven database chain (label_of "alice") boundaries args 100000
proven = record {
  permitted = rw allowed refl;
  on_chain = λ l e. let same : l ≡ "alice-agent" = cc in rw same role_held;
}

abbrev pub intent : Intent
intent = record {
  id = "intent-1";
  actor_id = "alice";
  action_type = "TRANSFER";
  amount = some "500";
  target_address = some "0xAB";
  expires_at = 95000;
}

abbrev pub moments : Moments database chain
moments = record {
  intent = some intent;
  receipt_id = some "receipt-1";
  decision = some "LIMIT";
  gate_time = 90000;
  checked = state;
  check_time = 100000;
  verified = boundaries;
  verify_time = 100000;
  end_time = 100001;
}

abbrev pub executor : Option (Attempt (Option String))
executor = some (returned (some "0x9"))

authorized : IsAuthorized database chain label_of moments intent transfer
authorized = record {
  decided = inr refl;
  in_time = omega arith;
  permitted = permitted;
  proven = proven;
}

executor-returns : executor ≢ some threw
executor-returns e = cc

abbrev carried_out : ExecutionOutcome
carried_out = record {
  intent_id = "intent-1";
  status = ExecutionStatus.executed_as_authorized;
  executed = true;
  adapters = AdapterName.local ∷ AdapterName.ens_eac ∷ [];
  capability_id = some "cap-1";
  tx_hash = some "0x9";
  receipt_id = some "receipt-1";
}

abbrev effects : List ExecutionEffect
effects =
    call_executor
    ∷ record_use "cap-1" "intent-1" (some "500")
    ∷ update_receipt "receipt-1" (record {
      status = ExecutionStatus.executed_as_authorized;
      tx_hash = some "0x9";
      adapters = AdapterName.local ∷ AdapterName.ens_eac ∷ [];
      executed_at = some 100001;
    })
    ∷ []

-- An execution with all that it calls open.
unfoldable pub run_execute :
    Option (Attempt (Option String))
    → Moments database chain
    → Option (ExecutionOutcome × List ExecutionEffect)
unfolding execute_authorized_action execute_intent check_and_perform verify_and_perform perform
    succeed refuse finish_receipt receipt_effects verify_enforcement adapters_for_actor inspect_all
    names all_confirm local_adapter ens_eac_adapter local_inspect eac_inspect inspect_verdict
    has_on_chain_role agent_role_for_action role_bit check_capability check_from candidates refusal
    assurance_holds frequency_holds used_in_window lease_of is_capability_live is_lease_live
    within_amount_limit target_allowed sort to_lower_case parse_amount
run_execute = execute_authorized_action database chain label_of

executed :
    execute_authorized_action database chain label_of executor moments ≡ some (carried_out, effects)
unfolding run_execute
executed = refl

verify_enforcement_iff_example :
    ((verify_enforcement database chain label_of boundaries args 100000).enforced ≡ true)
    ↔ IsProven database chain (some "alice-agent") boundaries args 100000
verify_enforcement_iff_example =
    verify_enforcement_iff database chain label_of boundaries args 100000

execute_authorized_action_sound_example :
    (i : Intent) × (c : Capability) × (some intent ≡ some i)
    × IsAuthorized database chain label_of moments i c
execute_authorized_action_sound_example =
    execute_authorized_action_sound database chain label_of executor moments carried_out effects
      executed refl

execute_authorized_action-uses_example : count_if is_use effects ≡ 1
execute_authorized_action-uses_example =
    execute_authorized_action-uses database chain label_of executor moments carried_out effects
      executed

execute_authorized_action_complete_example :
    (c : Capability) × (r : ExecutionOutcome × List ExecutionEffect) × (execute_authorized_action
        database chain label_of executor moments
      ≡ some r)
    × Permits database state (action_of intent) 100000 c
    × (1000 ≤ c.created_at)
    × IsCarriedOut executor intent (some "receipt-1") c 100001 r
execute_authorized_action_complete_example =
    execute_authorized_action_complete database chain label_of executor moments intent transfer refl
      authorized executor-returns

-- The states after a revocation.
run_revoke : Boundaries database chain → EnforcementVerdict × Boundaries database chain
unfolding revoke_everywhere adapters_for_actor revoke_all local_adapter ens_eac_adapter names
    revoked_state_of is_enforced local_revoke revoked_state find_capability eac_revoke revoke_role
    eac_verdict has_on_chain_role agent_role_for_action role_bit
run_revoke = revoke_everywhere database chain label_of "cap-1" "alice" "TRANSFER"

withdrawn :
    (revoke_everywhere database chain label_of "cap-1" "alice" "TRANSFER" boundaries).0.enforced
    ≡ true
unfolding run_revoke
withdrawn = refl

revoked : Capability
revoked = record transfer { status = CapabilityStatus.revoked }

left_revoked :
    In revoked
      (revoke_everywhere database chain label_of "cap-1" "alice" "TRANSFER"
        boundaries).1.store.capabilities
unfolding run_revoke revoked
left_revoked = inr (inl refl)

revoke_everywhere-chain_example :
    has_on_chain_role chain
      (revoke_everywhere database chain label_of "cap-1" "alice" "TRANSFER" boundaries).1.chain
      "alice-agent"
      "TRANSFER"
    ≡ returned false
revoke_everywhere-chain_example =
    revoke_everywhere-chain database chain label_of "cap-1" "alice" "TRANSFER" boundaries
      "alice-agent" refl withdrawn
