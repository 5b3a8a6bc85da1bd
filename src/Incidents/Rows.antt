-- ===== src/Incidents/Rows.antt =====
-- The rows and arguments of backend/src/incidents/incident-service.ts, and what its steps write.
use xander.Prelude.{
  ℕ, String, Bool, true, false, ◌&&◌, ◌||◌, not, Option, none, some, str_eq, is_none, if◌then◌else◌,
}
use xander.Prelude.Table.{Table}
use xander.Capabilities.Types.{CapabilityStatus, CapabilityType}
use xander.Capabilities.Store.{Capability, with_status}
use xander.Trust.Mutation.{attenuated_limit, same_text}
use xander.Trust.Signals.{TrustSignal}
use xander.Control.Pending.{PendingAction, ControlSetting}
use xander.Incidents.Severity.{RecommendedAction, Mitigation}

pub record IncidentRow : Type 0 where
  pub id : String
  pub actor_id : Option String
  pub cluster_id : Option String
  pub campaign_id : Option String
  pub incident_type : String
  pub severity : String
  pub status : String
  pub source : String
  pub detail : Option String
  pub opened_at : ℕ
  pub closed_at : Option ℕ
  pub root_cause : Option String
  pub investigation_id : Option String
  pub mitigation : Option Mitigation

-- The columns of `Investigation` that the functions here write.
pub record Investigation : Type 0 where
  pub id : String
  pub recommended_action : Option String

pub record OpenIncidentInput : Type 0 where
  pub actor_id : Option String
  pub cluster_id : Option String
  pub campaign_id : Option String
  pub incident_type : String
  pub severity : String
  pub source : String
  pub detail : Option String
  pub contain : Bool

-- What the environment gives to a request: the clock, the ids of new rows, the texts for people,
-- the newest agent of an actor and the configuration of the control plane.
pub record IncidentSetting : Type 0 where
  pub now : ℕ
  pub incident_id : String
  pub action_id : String
  pub summary : String
  pub agent_of : String → Option String
  pub control : ControlSetting

-- The messages of `IncidentError`, and what the runtime throws.
pub data IncidentError : Type 0 where
  no_incident closed illegal_transition no_root_cause restore_not_allowed row_gone type_error :
      IncidentError

pub record IncidentTables : Type 1 where
  pub incident : Table IncidentRow
  pub investigation : Table Investigation
  pub pending : Table PendingAction
  pub signal : Table TrustSignal

-- The `where` clause of the deduplication.
abbrev pub is_duplicate : String → String → IncidentRow → Bool
is_duplicate actor incident_type i =
    (elim i.actor_id [ none ↦ false | some a ↦ str_eq a actor ])
    && (str_eq i.incident_type incident_type
        && (str_eq i.status "OPEN" || str_eq i.status "INVESTIGATING"))

abbrev pub escalated : String → Option String → IncidentRow → IncidentRow
escalated severity detail i = record i {
  severity = severity;
  detail = elim detail [ none ↦ i.detail | some d ↦ some d ];
}

-- The row that `openIncident` writes.
unfoldable pub opened_row : IncidentSetting → OpenIncidentInput → IncidentRow
opened_row setting input = record {
  id = setting.incident_id;
  actor_id = input.actor_id;
  cluster_id = input.cluster_id;
  campaign_id = input.campaign_id;
  incident_type = input.incident_type;
  severity = input.severity;
  status = "OPEN";
  source = input.source;
  detail = input.detail;
  opened_at = setting.now;
  closed_at = none;
  root_cause = none;
  investigation_id = none;
  mitigation = none;
}

abbrev pub with_mitigation : Mitigation → IncidentRow → IncidentRow
with_mitigation mitigation i = record i { mitigation = some mitigation }

-- The reduced ceiling is written only if it is one and it differs.
abbrev pub restricted : Capability → Capability → Capability
restricted read_row c =
    let reduced = attenuated_limit read_row.amount_limit 2 in
    if is_none reduced || same_text reduced read_row.amount_limit
    then with_status CapabilityStatus.suspended c
    else record c {
      status = CapabilityStatus.suspended;
      amount_limit = reduced;
      capability_type = CapabilityType.attenuated_grant;
    }

-- The mitigation that a reconciled action comes to.
unfoldable pub mitigation_for : RecommendedAction → Mitigation
mitigation_for RecommendedAction.block = Mitigation.revoke
mitigation_for RecommendedAction.review = Mitigation.restrict
mitigation_for RecommendedAction.limit = Mitigation.restrict
mitigation_for RecommendedAction.allow = Mitigation.none_taken

abbrev pub is_none_taken : Mitigation → Bool
is_none_taken Mitigation.none_taken = true
is_none_taken _ = false

abbrev pub is_revoke : Mitigation → Bool
is_revoke Mitigation.revoke = true
is_revoke _ = false

-- The name of an action, as the reconciliation reads it.
abbrev pub action_name : RecommendedAction → String
action_name RecommendedAction.allow = "ALLOW"
action_name RecommendedAction.limit = "LIMIT"
action_name RecommendedAction.review = "REVIEW"
action_name RecommendedAction.block = "BLOCK"

abbrev pub decided_row : Mitigation → Bool → IncidentRow → IncidentRow
decided_row mitigation moves i = record i {
  mitigation = some mitigation;
  status = if moves && not (is_none_taken mitigation) then "MITIGATED" else i.status;
}

abbrev pub closed_row : String → String → Bool → ℕ → IncidentRow → IncidentRow
closed_row status root_cause restore now i = record i {
  status = status;
  root_cause = some root_cause;
  closed_at = some now;
  mitigation = if restore then some Mitigation.restore else i.mitigation;
}
