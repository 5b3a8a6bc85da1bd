-- ===== src/Incidents/Service.antt =====
-- The life of an incident: backend/src/incidents/incident-service.ts. The investigation itself and
-- the workflow engine are left out; the texts for people are arguments where they are stored. An
-- operation runs with no other request between its steps.
pub mod Mitigating
pub mod Still
pub mod Laws
mod Tests
use mathlib.Core.List.{head?}
use xander.Prelude.{
  ℕ, suc, String, Bool, true, false, ◌&&◌, ◌||◌, not, Option, none, some, List, [], ◌∷◌, length,
  str_eq, is_none, if◌then◌else◌,
}
use xander.Prelude.Text.{is_blank}
use xander.Prelude.Table.{Table}
use xander.Prelude.Dictionary.{is_above, read}
use xander.Prelude.Effects.{
  Outcome, returns, Program, pure, throw, reads, writes, expect, require, ◌>>=◌, ◌>>◌,
}
use xander.Capabilities.Types.{CapabilityStatus, CapabilityType}
use xander.Capabilities.Store.{Capability, Database, State, with_status}
use xander.Authorization.Enforcement.EnsEac.{Chain}
use xander.Authorization.Enforcement.Service.{Boundaries}
use xander.Authorization.Enforcement.Sweep.{revoke_each, held_by}
use xander.Trust.Mutation.{attenuated_limit, is_exercisable, same_text, update_status}
use xander.Trust.Signals.{TrustSignal, TrustSignalKind, record_trust_signal}
use xander.Agents.Rows.{is_suspended_of}
use xander.Control.Auth.{OperatorCommand}
use xander.Control.Pending.{
  PendingAction, CreatePendingActionInput, ControlSetting, is_pending, create_pending_action,
}
use xander.Incidents.Severity.{
  RecommendedAction, Mitigation, severity_rank, initial_mitigation, deterministic_action,
}
use xander.Incidents.Recommendation.{Reconciliation, reconcile_recommendation}
use xander.Incidents.Status.{can_transition, is_closed}
use xander.Incidents.Rows.{
  IncidentError, IncidentRow, IncidentSetting, IncidentTables, Investigation, OpenIncidentInput,
  action_name, closed_row, decided_row, escalated, is_duplicate, is_none_taken, is_revoke,
  mitigation_for, opened_row, restricted, with_mitigation,
}

module _ (D : Database) (C : Chain) (T : IncidentTables) (label_of : String → Option String) where
  pub record IncidentWorld : Type 0 where
    pub boundaries : Boundaries D C
    pub incidents : T.incident.Db
    pub investigations : T.investigation.Db
    pub pendings : T.pending.Db
    pub signals : T.signal.Db

  abbrev pub IncidentProgram : Type 0 → Type 0
  IncidentProgram A = Program IncidentWorld IncidentError A

  abbrev pub set_capabilities : D.capability.Db → Boundaries D C → Boundaries D C
  set_capabilities db w = record w { store = record (w.store) { capabilities = db } }

  -- The loop of a restriction.
  unfoldable pub restrict_each : List Capability → Boundaries D C → Boundaries D C
  restrict_each [] w = w
  restrict_each (c ∷ cs) w = restrict_each cs (
      set_capabilities
        (D.capability.update_many (λ r. str_eq r.id c.id) (restricted c) w.store.capabilities).1 w)

  -- `applyMitigation`, with the number of capabilities that it reports
  unfoldable pub apply_mitigation : String → Mitigation → Boundaries D C → ℕ × Boundaries D C
  apply_mitigation actor Mitigation.revoke w =
      let capabilities = held_by D C label_of actor w in
      (length capabilities, revoke_each D C label_of actor capabilities w)
  apply_mitigation actor Mitigation.restrict w =
      let capabilities =
        D.capability.find_many (is_exercisable actor) (λ c. c.created_at) w.store.capabilities in
      (length capabilities, restrict_each capabilities w)
  apply_mitigation actor Mitigation.restore w =
      let (count, store) =
        update_status D (is_suspended_of actor) CapabilityStatus.active w.store in
      (count, record w { store = store })
  apply_mitigation actor Mitigation.none_taken w = (0, w)

  -- `findUnique` of the incident, or the error
  unfoldable pub find_incident : String → IncidentError → IncidentProgram IncidentRow
  find_incident id e w = expect (T.incident.find_unique (λ i. str_eq i.id id) w.incidents) e w

  abbrev pub update_incident : String → (IncidentRow → IncidentRow) → IncidentWorld → IncidentWorld
  update_incident id f w = record w {
    incidents = (T.incident.update_many (λ i. str_eq i.id id) f w.incidents).1;
  }

  abbrev pub mitigate : String → Mitigation → IncidentWorld → IncidentWorld
  mitigate actor mitigation w = record w {
    boundaries = (apply_mitigation actor mitigation w.boundaries).1;
  }

  -- Nothing to do without an actor, or where the severity justifies nothing.
  unfoldable pub contain_actor : String → Mitigation → Option String → IncidentWorld → IncidentWorld
  contain_actor id mitigation none w = w
  contain_actor id mitigation (some actor) w =
      if str_eq actor "" || is_none_taken mitigation
      then w
      else update_incident id (with_mitigation mitigation) (mitigate actor mitigation w)

  -- `contain`
  unfoldable pub contain : String → IncidentProgram (Unit {0})
  contain id = do
    incident ← find_incident id IncidentError.row_gone
    writes (contain_actor id (initial_mitigation incident.severity) incident.actor_id)

  -- What an operator is asked about an incident.
  unfoldable pub operator_question :
      IncidentSetting → String → IncidentRow → CreatePendingActionInput
  operator_question setting actor i = record {
    subject_type = "INCIDENT";
    subject_id = i.id;
    summary = setting.summary;
    allowed = OperatorCommand.approve ∷ OperatorCommand.limit ∷ OperatorCommand.freeze ∷ [];
    actor_id = some actor;
    agent_id = setting.agent_of actor;
    incident_id = some i.id;
    intent_id = none;
    amount = none;
    severity = some i.severity;
    ttl_seconds = none;
  }

  abbrev pub is_question_of : String → PendingAction → Bool
  is_question_of id a =
      (elim a.incident_id [ none ↦ false | some i ↦ str_eq i id ]) && is_pending a.status

  unfoldable pub ask_operator :
      IncidentSetting → IncidentRow → Option String → IncidentWorld → IncidentWorld
  ask_operator setting i none w = w
  ask_operator setting i (some actor) w =
      if str_eq actor ""
      then w
      else (elim (head?
          (T.pending.find_many (is_question_of i.id) (λ a. a.created_at) w.pendings)) [
            | some _ ↦ w
            | none ↦ record w {
              pendings =
                  create_pending_action T.pending setting.control
                    (operator_question setting actor i) setting.action_id setting.now w.pendings;
            }
          ])

  -- `raiseOperatorAction`
  unfoldable pub raise_operator_action : IncidentSetting → String → IncidentProgram (Unit {0})
  raise_operator_action setting id = do
    incident ← find_incident id IncidentError.row_gone
    writes (λ w.
        if is_above (severity_rank "HIGH") (severity_rank incident.severity)
        then w
        else ask_operator setting incident incident.actor_id w)

  -- An operator is asked, and the incident is read back.
  unfoldable pub announce : IncidentSetting → String → IncidentProgram IncidentRow
  announce setting id = do raise_operator_action setting id; find_incident id IncidentError.row_gone

  -- A report of what is open already: it escalates the incident if it is more severe.
  unfoldable pub escalate :
      IncidentSetting → OpenIncidentInput → IncidentRow → IncidentProgram IncidentRow
  escalate setting input existing =
      if is_above (severity_rank input.severity) (severity_rank existing.severity)
      then (do
        writes (update_incident existing.id (escalated input.severity input.detail))
        contain existing.id
        announce setting existing.id)
      else pure existing

  unfoldable pub create_incident : IncidentSetting → OpenIncidentInput → IncidentProgram IncidentRow
  create_incident setting input = do
    writes (λ w. record w { incidents = T.incident.create (opened_row setting input) w.incidents })
    (if input.contain then contain setting.incident_id else pure tt)
    announce setting setting.incident_id

  -- The incident that the report is about already, if there is one.
  unfoldable pub open_duplicate : OpenIncidentInput → IncidentWorld → Option IncidentRow
  open_duplicate input w = elim input.actor_id [
    | none ↦ none
    | some actor ↦
        if str_eq actor ""
        then none
        else head? (
            T.incident.find_many (is_duplicate actor input.incident_type) (λ i. i.opened_at)
              w.incidents)
  ]

  -- `openIncident`
  unfoldable pub open_incident : IncidentSetting → OpenIncidentInput → IncidentProgram IncidentRow
  open_incident setting input = do
    existing ← reads (open_duplicate input)
    elim existing [ none ↦ create_incident setting input | some i ↦ escalate setting input i ]

  -- What a decision does to the actor's authority, with the number of capabilities affected.
  unfoldable pub enforce_decision : Mitigation → Option String → IncidentProgram ℕ
  enforce_decision mitigation none = pure 0
  enforce_decision mitigation (some actor) =
      if str_eq actor "" || is_none_taken mitigation then pure 0 else (do
        affected ← reads (λ w. (apply_mitigation actor mitigation w.boundaries).0)
        writes (mitigate actor mitigation)
        pure affected)

  -- The recommendation is kept on the investigation, whatever came of it.
  unfoldable pub note_recommendation : Option String → Option String → IncidentProgram (Unit {0})
  note_recommendation none _ = pure tt
  note_recommendation (some investigation) none = pure tt
  note_recommendation (some investigation) (some recommendation) =
      if str_eq investigation "" || str_eq recommendation "" then pure tt else (do
        row ← λ w.
            expect (T.investigation.find_unique (λ i. str_eq i.id investigation) w.investigations)
              IncidentError.row_gone w
        writes (λ w. record w {
          investigations =
              (T.investigation.update_many (λ i. str_eq i.id investigation)
                (λ i. record i { recommended_action = some recommendation }) w.investigations).1;
        }))

  unfoldable pub note_drift : Mitigation → Option String → IncidentWorld → IncidentWorld
  note_drift mitigation none w = w
  note_drift mitigation (some actor) w =
      if str_eq actor "" || is_none_taken mitigation then w else record w {
        signals =
            record_trust_signal T.signal actor TrustSignalKind.behavior_drift
              (if is_revoke mitigation then 1000000 else 600000) "incident-response" w.signals;
      }

  -- The rest of `decideIncident`: what was decided goes on file.
  unfoldable pub record_decision :
      IncidentRow
      → Option String
      → Reconciliation
      → Mitigation
      → ℕ
      → IncidentProgram (Reconciliation × ℕ)
  record_decision incident recommendation reconciled mitigation affected = do
    note_recommendation incident.investigation_id recommendation
    moves ← λ w. expect (can_transition incident.status "MITIGATED") IncidentError.type_error w
    writes (update_incident incident.id (decided_row mitigation moves))
    writes (note_drift mitigation incident.actor_id)
    pure (reconciled, affected)

  -- `decideIncident`, with the reconciliation and the number of capabilities affected
  unfoldable pub decide_incident : String → Option String → IncidentProgram (Reconciliation × ℕ)
  decide_incident id recommendation = do
    incident ← find_incident id IncidentError.no_incident
    require (not (is_closed incident.status)) IncidentError.closed
    let reconciled =
        reconcile_recommendation (action_name (deterministic_action incident.severity))
          recommendation
    let mitigation = mitigation_for reconciled.action
    affected ← enforce_decision mitigation incident.actor_id
    record_decision incident recommendation reconciled mitigation affected

  -- Giving authority back, where it was asked for: only as a false positive.
  unfoldable pub restore_authority : Bool → String → Option String → IncidentProgram ℕ
  restore_authority restore status none = pure 0
  restore_authority restore status (some actor) =
      if not restore || str_eq actor "" then pure 0 else (do
        require (str_eq status "FALSE_POSITIVE") IncidentError.restore_not_allowed
        count ← reads (λ w. (apply_mitigation actor Mitigation.restore w.boundaries).0)
        writes (mitigate actor Mitigation.restore)
        pure count)

  -- `resolveIncident`, with the number of capabilities restored
  unfoldable pub resolve_incident : String → String → String → Bool → ℕ → IncidentProgram ℕ
  resolve_incident id status root_cause restore now = do
    incident ← find_incident id IncidentError.no_incident
    legal ← λ w. expect (can_transition incident.status status) IncidentError.type_error w
    require legal IncidentError.illegal_transition
    require (not (is_blank root_cause)) IncidentError.no_root_cause
    restored ← restore_authority restore status incident.actor_id
    writes (update_incident id (closed_row status root_cause restore now))
    pure restored
