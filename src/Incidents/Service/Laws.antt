-- ===== src/Incidents/Service/Laws.antt =====
-- What opening, deciding and closing an incident guarantee
-- (backend/src/incidents/incident-service.ts).
use xander.Prelude.{
  ℕ, ◌≡◌, ◌≢◌, ◌≤◌, ◌⊎◌, refl, sym, ◌∙◌, ap, String, Bool, true, false, Option, none, some, ◌∷◌,
  eq_iff, str_eq, All, All-In, Bool-cases, Option-cases, inl, inr, arith,
}
use xander.Prelude.Effects.{throws, ◌>>=◌, ◌>>◌}
use xander.Prelude.Dictionary.{read, rank_or}
use xander.Capabilities.Types.{CapabilityDenial}
use xander.Capabilities.Store.{Database, CheckArgs, denied, check_capability}
use xander.Authorization.Enforcement.EnsEac.{Chain}
use xander.Incidents.Severity.{
  RecommendedAction, Mitigation, initial_mitigation, deterministic_action,
}
use xander.Incidents.Recommendation.{
  Reconciliation, rank_of, action_rank, action_at, reconcile_recommendation,
}
use xander.Incidents.Recommendation.Laws.{reconcile_recommendation-IsTightening}
use xander.Incidents.Status.{can_transition, is_closed, includes}
use xander.Incidents.Service.{
  IncidentWorld, IncidentProgram, find_incident, contain_actor, contain, create_incident,
  open_duplicate, open_incident, enforce_decision, record_decision, decide_incident,
  resolve_incident, mitigate,
}
use xander.Incidents.Rows.{
  IncidentRow, OpenIncidentInput, IncidentSetting, IncidentError, IncidentTables, opened_row,
  is_none_taken, mitigation_for, action_name,
}
use xander.Incidents.Service.Mitigating.{TakesAway, restricting, revoking, apply_mitigation-check}
use xander.Incidents.Service.Still.{IsStill, announce-IsStill, record_decision-IsStill}

TakesAway-taken : (m : Mitigation) → TakesAway m → is_none_taken m ≡ false
TakesAway-taken _ restricting = refl
TakesAway-taken _ revoking = refl

initial_mitigation-TakesAway :
    (s : String) → s ≢ "LOW" → s ≢ "MEDIUM" → TakesAway (initial_mitigation s)
unfolding initial_mitigation
initial_mitigation-TakesAway s low medium =
    let l : str_eq s "LOW" ≡ false = ground (arith, eq_iff s "LOW") in
    let m : str_eq s "MEDIUM" ≡ false = ground (arith, eq_iff s "MEDIUM") in
    elim (Bool-cases (str_eq s "HIGH")) [
      | inl high ↦ rw (l, m, high) restricting
      | inr critical ↦ rw (l, m, critical) revoking
    ]

rank_of-action_name :
    (a : RecommendedAction) → (reconcile_recommendation (action_name a) none).action ≡ a
unfolding reconcile_recommendation action_rank action_at rank_or read
rank_of-action_name RecommendedAction.allow = refl
rank_of-action_name RecommendedAction.limit = refl
rank_of-action_name RecommendedAction.review = refl
rank_of-action_name RecommendedAction.block = refl

-- The decision for a severity is never loosened, whatever is recommended.
decided-le :
    (a : RecommendedAction) (recommendation : Option String)
    → rank_of a ≤ rank_of (reconcile_recommendation (action_name a) recommendation).action
decided-le a recommendation =
    rw (rank_of-action_name a) at
      (reconcile_recommendation-IsTightening (action_name a) recommendation).never_looser

mitigation_for-TakesAway : (a : RecommendedAction) → 1 ≤ rank_of a → TakesAway (mitigation_for a)
unfolding mitigation_for
mitigation_for-TakesAway RecommendedAction.allow h = absurd (omega arith)
mitigation_for-TakesAway RecommendedAction.limit h = restricting
mitigation_for-TakesAway RecommendedAction.review h = restricting
mitigation_for-TakesAway RecommendedAction.block h = revoking

deterministic_action-le : (s : String) → s ≢ "LOW" → 1 ≤ rank_of (deterministic_action s)
unfolding deterministic_action
deterministic_action-le s low =
    let l : str_eq s "LOW" ≡ false = ground (arith, eq_iff s "LOW") in
    elim (Bool-cases (str_eq s "MEDIUM")) [
      | inl medium ↦ rw (l, medium) (omega arith)
      | inr other ↦ elim (Bool-cases (str_eq s "HIGH")) [
        | inl high ↦ rw (l, other, high) (omega arith)
        | inr critical ↦ rw (l, other, critical) (omega arith)
      ]
    ]

module _ (D : Database) (C : Chain) (T : IncidentTables) (label_of : String → Option String) where
  abbrev World : Type 0
  World = IncidentWorld D C T label_of

  abbrev wanted : String → World → Option IncidentRow
  wanted id w = T.incident.find_unique (λ i. str_eq i.id id) w.incidents

  -- The actor has no capability that any check would find.
  abbrev pub HasNothing : String → World → Type 0
  HasNothing actor w =
      (args : CheckArgs) (now : ℕ)
      → args.actor_id ≡ actor
      → check_capability D w.boundaries.store args now ≡ denied none CapabilityDenial.not_found

  mitigate-HasNothing :
      (actor : String) (m : Mitigation) (w : World)
      → TakesAway m
      → HasNothing actor (mitigate D C T label_of actor m w)
  mitigate-HasNothing actor m w t args now e =
      apply_mitigation-check D C T label_of actor m w.boundaries args now t e

  -- A mitigation, and steps after it that leave every authority as it is.
  enforced-check :
      (m : Mitigation) (owner : Option String) (actor : String) (w : World) (args : CheckArgs)
      → {A : Type 0} (rest : ℕ → IncidentProgram D C T label_of A) (now : ℕ)
      → ((n : ℕ) → IsStill D C T label_of (rest n))
      → owner ≡ some actor
      → actor ≢ ""
      → TakesAway m
      → args.actor_id ≡ actor
      → check_capability D
          ((enforce_decision D C T label_of m owner >>= rest) w).1.boundaries.store
          args
          now
        ≡ denied none CapabilityDenial.not_found
  unfolding enforce_decision
  enforced-check m owner actor w args rest now still held named t same =
      let a : str_eq actor "" ≡ false = ground (arith, eq_iff actor "") in
      rw (held, a, TakesAway-taken m t, ((still _).run (mitigate D C T label_of actor m w) tt).1)
        (mitigate-HasNothing actor m w t args now same)

  -- A decision about an incident that is not closed, of any severity but LOW, leaves its actor with
  -- no capability that a check would find, whatever an investigator recommends and however the
  -- request ends.
  pub decide_incident-check :
      (id : String) (recommendation : Option String) (w : World) (i : IncidentRow)
      → (actor : String) (args : CheckArgs) (now : ℕ)
      → T.incident.find_unique (λ r. str_eq r.id id) w.incidents ≡ some i
      → is_closed i.status ≡ false
      → i.severity ≢ "LOW"
      → i.actor_id ≡ some actor
      → actor ≢ ""
      → args.actor_id ≡ actor
      → check_capability D
          (decide_incident D C T label_of id recommendation w).1.boundaries.store
          args
          now
        ≡ denied none CapabilityDenial.not_found
  unfolding decide_incident find_incident
  decide_incident-check id recommendation w i actor args now found opened low held named same =
      let r : Reconciliation =
        reconcile_recommendation (action_name (deterministic_action i.severity)) recommendation in
      rw (found, opened)
        (enforced-check (mitigation_for r.action) i.actor_id actor w args
          (record_decision D C T label_of i recommendation r (mitigation_for r.action)) now
          (record_decision-IsStill D C T label_of i recommendation r (mitigation_for r.action)) held
          named
          (mitigation_for-TakesAway r.action (
            let severe = deterministic_action-le i.severity low in
            let kept = decided-le (deterministic_action i.severity) recommendation in omega arith))
          same)

  -- The row that was just written is the one that is found by its id.
  created-found :
      (setting : IncidentSetting) (input : OpenIncidentInput) (w v : World)
      → v.incidents ≡ T.incident.create (opened_row setting input) w.incidents
      → All (λ r. r.id ≢ setting.incident_id) (T.incident.rows w.incidents)
      → T.incident.find_unique (λ r. str_eq r.id setting.incident_id) v.incidents
        ≡ some (opened_row setting input)
  unfolding opened_row
  created-found setting input w v e fresh =
      let rows : T.incident.rows v.incidents
          ≡ opened_row setting input ∷ T.incident.rows w.incidents =
        ap T.incident.rows e ∙ T.incident.create-rows (opened_row setting input) w.incidents in
      elim (Option-cases (wanted setting.incident_id v)) [
        | inl missing ↦
            let none_is = T.incident.find_unique-none _ v.incidents missing in
            let first : str_eq setting.incident_id setting.incident_id ≡ false =
              (rw rows at none_is).0 in
            absurd (cc (sym first ∙ (eq_iff setting.incident_id setting.incident_id).1 refl))
        | inr (r, found) ↦
            let (there, named) = T.incident.find_unique-some _ v.incidents r found in
            elim (rw rows at there) [
              | inl new ↦ found ∙ ap some new
              | inr old ↦ absurd (
                  All-In (λ x. x.id ≢ setting.incident_id) (T.incident.rows w.incidents) r fresh old
                    ((eq_iff r.id setting.incident_id).0 named))
            ]
      ]

  contain_actor-HasNothing :
      (id : String) (m : Mitigation) (owner : Option String) (actor : String) (w : World)
      → owner ≡ some actor
      → actor ≢ ""
      → TakesAway m
      → HasNothing actor (contain_actor D C T label_of id m owner w)
  unfolding contain_actor
  contain_actor-HasNothing id m owner actor w held named t args now same =
      let a : str_eq actor "" ≡ false = ground (arith, eq_iff actor "") in
      rw (held, a, TakesAway-taken m t) (mitigate-HasNothing actor m w t args now same)

  contained-check :
      (setting : IncidentSetting) (i : IncidentRow) (actor : String) (w : World)
      → (args : CheckArgs) (now : ℕ) {A : Type 0} (rest : IncidentProgram D C T label_of A)
      → IsStill D C T label_of rest
      → T.incident.find_unique (λ r. str_eq r.id i.id) w.incidents ≡ some i
      → TakesAway (initial_mitigation i.severity)
      → i.actor_id ≡ some actor
      → actor ≢ ""
      → args.actor_id ≡ actor
      → check_capability D ((contain D C T label_of i.id >> rest) w).1.boundaries.store args now
        ≡ denied none CapabilityDenial.not_found
  unfolding contain find_incident
  contained-check setting i actor w args now rest still found t held named same =
      let m : Mitigation = initial_mitigation i.severity in
      rw (found, (still.run (contain_actor D C T label_of i.id m i.actor_id w) tt).1)
        (contain_actor-HasNothing i.id m i.actor_id actor w held named t args now same)

  -- A report of a severity above MEDIUM that is about nothing open already, opened with containment
  -- for a named actor, leaves the actor with no capability that a check would find, however the
  -- request ends. The id of the new row is in no row before.
  pub open_incident-check :
      (setting : IncidentSetting) (input : OpenIncidentInput) (w : World)
      → (actor : String) (args : CheckArgs) (now : ℕ)
      → All (λ r. r.id ≢ setting.incident_id) (T.incident.rows w.incidents)
      → open_duplicate D C T label_of input w ≡ none
      → input.contain ≡ true
      → input.severity ≢ "LOW"
      → input.severity ≢ "MEDIUM"
      → input.actor_id ≡ some actor
      → actor ≢ ""
      → args.actor_id ≡ actor
      → check_capability D
          (open_incident D C T label_of setting input w).1.boundaries.store
          args
          now
        ≡ denied none CapabilityDenial.not_found
  unfolding open_incident create_incident opened_row
  open_incident-check setting input w actor args now fresh new contained low medium held named
        same =
      let v : World = record w {
        incidents = T.incident.create (opened_row setting input) w.incidents;
      } in
      rw (new, contained)
        (contained-check setting (opened_row setting input) actor v args now _
          (announce-IsStill D C T label_of setting setting.incident_id)
          (created-found setting input w v refl fresh)
          (initial_mitigation-TakesAway input.severity low medium) held named same)

  closed-cases : (s : String) → is_closed s ≡ true → (s ≡ "RESOLVED") ⊎ (s ≡ "FALSE_POSITIVE")
  unfolding is_closed
  closed-cases s h = elim (Bool-cases (str_eq s "RESOLVED")) [
    | inl resolved ↦ inl ((eq_iff s "RESOLVED").0 resolved)
    | inr other ↦ inr ((eq_iff s "FALSE_POSITIVE").0 (rw other at h))
  ]

  closed-ends : (s to : String) → is_closed s ≡ true → can_transition s to ≡ some false
  unfolding can_transition read includes
  closed-ends s to h = elim (closed-cases s h) [
    | inl resolved ↦ rw resolved refl
    | inr false_positive ↦ rw false_positive refl
  ]

  -- A closed incident is never decided or closed again: both requests are refused and nothing at all
  -- is written.
  pub closed_refused :
      (id : String) (recommendation : Option String) (status root_cause : String)
      → (restore : Bool) (now : ℕ) (w : World) (i : IncidentRow)
      → T.incident.find_unique (λ r. str_eq r.id id) w.incidents ≡ some i
      → is_closed i.status ≡ true
      → (decide_incident D C T label_of id recommendation w ≡ (throws IncidentError.closed, w))
        × (resolve_incident D C T label_of id status root_cause restore now w
            ≡ (throws IncidentError.illegal_transition, w))
  unfolding decide_incident resolve_incident find_incident
  closed_refused id recommendation status root_cause restore now w i found shut =
      rw (found, shut, closed-ends i.status status shut) (refl, refl)
