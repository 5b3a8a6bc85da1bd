-- ===== src/Capabilities/Tests.antt =====
-- One actor with two grants and a lease, and the theorems at that state.
use xander.Prelude.{ℕ, ◌≤◌, ◌≡◌, refl, ◌↔◌, true, none, some, [], ◌∷◌, inr}
use xander.Prelude.Memory.{memory, sort}
use xander.Prelude.Text.{to_lower_case}
use xander.Capabilities.Types.{
  CapabilityStatus, CapabilityType, CapabilityDenial, AssuranceLease, parse_amount,
  within_amount_limit, target_allowed, is_capability_live, is_lease_live,
}
use xander.Capabilities.Amounts.{Clears, within_amount_limit_iff}
use xander.Capabilities.Store.{
  Capability, CapabilityUsage, Database, State, CheckArgs, CapabilityCheck, denied, lease_of,
  assurance_holds, used_in_window, frequency_holds, refusal, check_from, candidates,
  check_capability, record_usage, revoke_capabilities,
}
use xander.Capabilities.Check.{
  Permits, check_capability_sound, check_capability_complete, check_capability-Permits,
}
use xander.Capabilities.Withdraw.{revoke_capabilities-check}
use xander.Capabilities.Exercise.{exercise_within_rate}

abbrev pub database : Database
database = record { capability = memory; usage = memory; lease = memory }

abbrev pub transfer : Capability
transfer = record {
  id = "cap-1";
  actor_id = "alice";
  capability_type = CapabilityType.grant;
  action_type = "TRANSFER";
  resource_scope = "wallet:1";
  chain_scope = none;
  amount_limit = some "500";
  frequency_limit = some 2;
  frequency_window_seconds = some 60;
  allowed_targets = "0xab" ∷ [];
  expires_at = some 900000;
  status = CapabilityStatus.active;
  source_decision_id = none;
  assurance_lease_id = some "lease-1";
  created_at = 1000;
}

abbrev older : Capability
older = record transfer {
  id = "cap-0";
  amount_limit = none;
  created_at = 500;
  status = CapabilityStatus.revoked;
}

abbrev lease : AssuranceLease
lease = record {
  id = "lease-1";
  actor_id = "alice";
  level = "WORLD_ONLY";
  status = CapabilityStatus.active;
  expires_at = 800000;
}

abbrev used_once : CapabilityUsage
used_once = record {
  capability_id = "cap-1";
  intent_id = none;
  amount = some "20";
  created_at = 90000;
}

abbrev pub state : State database
state = record {
  capabilities = older ∷ transfer ∷ [];
  usages = used_once ∷ [];
  leases = lease ∷ [];
}

abbrev pub args : CheckArgs
args = record {
  actor_id = "alice";
  action_type = "TRANSFER";
  amount = some "500";
  target_address = some "0xAB";
}

-- The check with all that it calls open.
run_check : State database → CheckArgs → ℕ → CapabilityCheck
unfolding check_capability check_from candidates refusal assurance_holds frequency_holds
    used_in_window lease_of is_capability_live is_lease_live within_amount_limit target_allowed sort
    to_lower_case parse_amount
run_check = check_capability database

pub allowed :
    check_capability database state args 100000
    ≡ record { allowed = true; capability = some transfer; denial = none }
unfolding run_check
allowed = refl

too_much :
    check_capability database state (record args { amount = some "501" }) 100000
    ≡ denied (some transfer) CapabilityDenial.amount_exceeded
unfolding run_check
too_much = refl

within_amount_limit_iff_example :
    (within_amount_limit (some "501") (some "500") ≡ true) ↔ Clears (some "501") (some "500")
within_amount_limit_iff_example = within_amount_limit_iff (some "501") (some "500")

check_capability_sound_example :
    (c : Capability) × (check_capability database state args 100000
      ≡ record { allowed = true; capability = some c; denial = none })
    × Permits database state args 100000 c
check_capability_sound_example = check_capability_sound database state args 100000 (rw allowed)

pub permitted : Permits database state args 100000 transfer
permitted = check_capability-Permits database state args 100000 transfer allowed

check_capability_complete_example :
    (c : Capability) × (check_capability database state args 100000
      ≡ record { allowed = true; capability = some c; denial = none })
    × (1000 ≤ c.created_at)
check_capability_complete_example =
    check_capability_complete database state args 100000 transfer permitted

revoke_capabilities-check_example :
    check_capability database
      (revoke_capabilities database "alice" (some "TRANSFER") state).1
      args
      200
    ≡ denied none CapabilityDenial.not_found
revoke_capabilities-check_example =
    revoke_capabilities-check database "alice" (some "TRANSFER") state args 200 refl (inr refl)

exercise_within_rate_example :
    used_in_window database
      (record_usage database "cap-1" none (some "500") 100000 state)
      100000
      "cap-1"
      60
    ≤ 2
exercise_within_rate_example =
    exercise_within_rate database state args 100000 transfer none (some "500") 2 60 allowed refl
      refl
