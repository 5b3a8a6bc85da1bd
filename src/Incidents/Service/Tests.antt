-- ===== src/Incidents/Service/Tests.antt =====
-- An incident of one actor, and the theorems at it.
use xander.Prelude.{◌≡◌, refl, String, true, false, none, some, [], ◌∷◌, arith, eq_iff}
use xander.Prelude.Memory.{memory, sort}
use xander.Prelude.Effects.{throws}
use xander.Capabilities.Types.{CapabilityDenial, CapabilityStatus}
use xander.Capabilities.Store.{denied, check_capability, with_status}
use xander.Capabilities.Tests.{database, transfer, state, args}
use xander.Authorization.Enforcement.Service.{Boundaries}
use xander.Authorization.Enforcement.Tests.{chain, label_of}
use xander.Incidents.Status.{is_closed}
use xander.Incidents.Service.{
  IncidentWorld, open_duplicate, open_incident, decide_incident, resolve_incident,
}
use xander.Incidents.Rows.{
  IncidentRow, OpenIncidentInput, IncidentSetting, IncidentError, IncidentTables,
}
use xander.Incidents.Service.Laws.{open_incident-check, decide_incident-check, closed_refused}

abbrev tables : IncidentTables
tables = record { incident = memory; investigation = memory; pending = memory; signal = memory }

abbrev incident_in : String → IncidentRow
incident_in status = record {
  id = "incident-1";
  actor_id = some "alice";
  cluster_id = none;
  campaign_id = none;
  incident_type = "SYBIL";
  severity = "MEDIUM";
  status = status;
  source = "system";
  detail = none;
  opened_at = 50;
  closed_at = none;
  root_cause = none;
  investigation_id = none;
  mitigation = none;
}

abbrev world : String → IncidentWorld database chain tables label_of
world status = record {
  boundaries = record { store = state; chain = true };
  incidents = incident_in status ∷ [];
  investigations = [];
  pendings = [];
  signals = [];
}

abbrev report : OpenIncidentInput
report = record {
  actor_id = some "alice";
  cluster_id = none;
  campaign_id = none;
  incident_type = "REPLAY";
  severity = "HIGH";
  source = "system";
  detail = none;
  contain = true;
}

abbrev setting : IncidentSetting
setting = record {
  now = 100;
  incident_id = "incident-2";
  action_id = "action-1";
  summary = "what happened";
  agent_of = λ actor. none;
  control = record { sha256 = λ text. text; step_up_enabled = true; pending_ttl_seconds = 3600 };
}

abbrev loose : Boundaries database chain
loose = record {
  store = record state { capabilities = with_status CapabilityStatus.suspended transfer ∷ [] };
  chain = true;
}

nothing_open : open_duplicate database chain tables label_of report (world "OPEN") ≡ none
unfolding open_duplicate sort
nothing_open = refl

still_open : is_closed "OPEN" ≡ false
unfolding is_closed
still_open = refl

shut : is_closed "RESOLVED" ≡ true
unfolding is_closed
shut = refl

open_incident-check_example :
    check_capability database
      (open_incident database chain tables label_of setting report
        (world "OPEN")).1.boundaries.store
      args
      200
    ≡ denied none CapabilityDenial.not_found
open_incident-check_example =
    open_incident-check database chain tables label_of setting report (world "OPEN") "alice" args
      200 (ground (arith, eq_iff "incident-1" "incident-2"), tt) nothing_open refl
      (ground (arith, eq_iff "HIGH" "LOW")) (ground (arith, eq_iff "HIGH" "MEDIUM")) refl
      (ground (arith, eq_iff "alice" "")) refl

decide_incident-check_example :
    check_capability database
      (decide_incident database chain tables label_of "incident-1"
        (some "ALLOW")
        (world "OPEN")).1.boundaries.store
      args
      200
    ≡ denied none CapabilityDenial.not_found
decide_incident-check_example =
    decide_incident-check database chain tables label_of "incident-1" (some "ALLOW") (world "OPEN")
      (incident_in "OPEN") "alice" args 200 refl still_open (ground (arith, eq_iff "MEDIUM" "LOW"))
      refl (ground (arith, eq_iff "alice" "")) refl

closed_refused_example :
    (decide_incident database chain tables label_of "incident-1" (some "ALLOW") (world "RESOLVED")
      ≡ (throws IncidentError.closed, world "RESOLVED"))
    × (resolve_incident database chain tables label_of "incident-1" "FALSE_POSITIVE" "a mistake"
          true 200
          (world "RESOLVED")
        ≡ (throws IncidentError.illegal_transition, world "RESOLVED"))
closed_refused_example =
    closed_refused database chain tables label_of "incident-1" (some "ALLOW") "FALSE_POSITIVE"
      "a mistake" true 200 (world "RESOLVED") (incident_in "RESOLVED") refl shut
