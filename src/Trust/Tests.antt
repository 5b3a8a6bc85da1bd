-- ===== src/Trust/Tests.antt =====
-- Trust at concrete vectors, and a fall to high risk.
use xander.Prelude.{List, ◌∷◌, [], any, ◌||◌, ◌≡◌, refl, true, false, none, some, inr, inl}
use xander.Prelude.Dictionary.{read, rank_or}
use xander.Capabilities.Tests.{database, state}
use xander.Authorization.Enforcement.Adapter.{AdapterName}
use xander.Authorization.Enforcement.Execution.{
  ExecutionStatus, ExecutionOutcome, ExecutionEffect, update_receipt, is_executed, Moments,
  execute_authorized_action,
}
use xander.Authorization.Enforcement.Execution.Laws.{acts}
use xander.Authorization.Enforcement.Tests.{chain, label_of, intent, moments, executor, run_execute}
use xander.Trust.Execution.{execute_authorized_action-apply_trust_mutation}
use xander.Trust.Vector.{
  TrustVector, TrustBand, TrustBandOptions, DimensionState, unknown_dimension, derive_band,
  band_of_risk, known_dimension_count,
}
use xander.Trust.Mutation.{
  apply_consequence, update_status, decide_consequence, consequence_of, is_degradation,
  band_severity, apply_trust_mutation,
}

abbrev options : TrustBandOptions
options = record {
  critical_coordination_risk = 850000;
  high_coordination_risk = 600000;
  low_coordination_risk = 300000;
  established_history_strength = 600000;
  verified_human_assurance = 500000;
  min_known_dimensions = 2;
}

abbrev vector : TrustVector
vector = record {
  behavior_integrity = unknown_dimension;
  coordination_risk = record { value = some 120000; state = DimensionState.known };
  history_strength = unknown_dimension;
  human_assurance = record { value = some 900000; state = DimensionState.known };
  agent_reputation = unknown_dimension;
  evidence_freshness = unknown_dimension;
  investigation_confidence = unknown_dimension;
}

verified : derive_band vector options ≡ TrustBand.verified_low
unfolding derive_band band_of_risk known_dimension_count
verified = refl

fell : is_degradation "VERIFIED_LOW" "HIGH_RISK" ≡ true
unfolding is_degradation band_severity read rank_or
fell = refl

-- The execution of the tests of the boundary, after trust fell.
abbrev after_fall : Moments database chain
after_fall = record moments {
  checked = (apply_trust_mutation database "alice" (some "VERIFIED_LOW") "HIGH_RISK" 2 state).1;
}

abbrev blocked : ExecutionOutcome
blocked = record {
  intent_id = "intent-1";
  status = ExecutionStatus.blocked_unenforceable;
  executed = false;
  adapters = AdapterName.local ∷ [];
  capability_id = none;
  tx_hash = none;
  receipt_id = some "receipt-1";
}

abbrev only_the_receipt : List ExecutionEffect
only_the_receipt =
    update_receipt "receipt-1" (record {
      status = ExecutionStatus.blocked_unenforceable;
      tx_hash = none;
      adapters = AdapterName.local ∷ [];
      executed_at = none;
    })
    ∷ []

refused :
    execute_authorized_action database chain label_of executor after_fall
    ≡ some (blocked, only_the_receipt)
unfolding run_execute apply_trust_mutation apply_consequence update_status decide_consequence
    consequence_of is_degradation band_severity read rank_or
refused = refl

execute_authorized_action-apply_trust_mutation_example :
    (any acts only_the_receipt || is_executed blocked.status) ≡ false
execute_authorized_action-apply_trust_mutation_example =
    execute_authorized_action-apply_trust_mutation database chain label_of executor after_fall
      intent "VERIFIED_LOW" "HIGH_RISK" 2 state blocked only_the_receipt fell (inr (inl refl)) refl
      refl refused
