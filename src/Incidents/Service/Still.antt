-- ===== src/Incidents/Service/Still.antt =====
-- The steps of an incident that leave every authority as it was
-- (backend/src/incidents/incident-service.ts).
use xander.Prelude.{
  ℕ, ◌≡◌, ◌≢◌, not, arith, eq_iff, refl, ◌∙◌, String, Bool, false, ◌||◌, ◌⊎◌, Option, none, some,
  Bool-cases, Option-cases, inl, inr, str_eq,
}
use mathlib.Core.List.{head?}
use xander.Prelude.Text.{is_blank}
use xander.Prelude.Dictionary.{is_above}
use xander.Prelude.Effects.{
  pure, writes, expect, require, ◌>>=◌, ◌>>◌, Keeps, Keeps-pure, Keeps-expect, Keeps-require,
  Keeps-bind, Keeps-then,
}
use xander.Capabilities.Store.{Database}
use xander.Authorization.Enforcement.EnsEac.{Chain}
use xander.Incidents.Severity.{Mitigation, severity_rank}
use xander.Incidents.Recommendation.{Reconciliation}
use xander.Incidents.Status.{can_transition}
use xander.Incidents.Service.{
  IncidentWorld, IncidentProgram, find_incident, update_incident, is_question_of, ask_operator,
  raise_operator_action, announce, note_recommendation, note_drift, record_decision,
  restore_authority, resolve_incident,
}
use xander.Incidents.Rows.{
  IncidentRow, IncidentSetting, IncidentError, IncidentTables, decided_row, is_none_taken,
  closed_row,
}

module _ (D : Database) (C : Chain) (T : IncidentTables) (label_of : String → Option String) where
  abbrev World : Type 0
  World = IncidentWorld D C T label_of

  -- A program that leaves every authority as it was, whatever comes of it.
  abbrev pub IsStill : {A : Type 0} → IncidentProgram D C T label_of A → Type 0
  IsStill m = Keeps (λ _. Unit {0}) (λ (w v : World). v.boundaries ≡ w.boundaries) m

  bind :
      {A B : Type 0} {m : IncidentProgram D C T label_of A}
      {f : A → IncidentProgram D C T label_of B}
      → IsStill m
      → ((a : A) → IsStill (f a))
      → IsStill (m >>= f)
  bind = Keeps-bind IncidentError _ _ (λ w. refl) (λ u v w p q. q ∙ p)

  next :
      {B : Type 0} {m : IncidentProgram D C T label_of (Unit {0})}
      {k : IncidentProgram D C T label_of B}
      → IsStill m
      → IsStill k
      → IsStill (m >> k)
  next = Keeps-then IncidentError _ _ (λ w. refl) (λ u v w p q. q ∙ p)

  return : {A : Type 0} (a : A) → IsStill (pure a)
  return = Keeps-pure IncidentError _ _ (λ w. refl) (λ u v w p q. q ∙ p)

  need : (b : Bool) (e : IncidentError) → IsStill (require b e)
  need = Keeps-require IncidentError _ _ (λ w. refl) (λ u v w p q. q ∙ p)

  found : {A : Type 0} (f : World → Option A) (e : IncidentError) → IsStill (λ w. expect (f w) e w)
  found = Keeps-expect IncidentError _ _ (λ w. refl) (λ u v w p q. q ∙ p)

  -- A write that leaves the boundaries alone.
  aside : (g : World → World) → ((w : World) → (g w).boundaries ≡ w.boundaries) → IsStill (writes g)
  aside g h = record { run = λ w _. (tt, h w) }

  find_incident-IsStill :
      (id : String) (e : IncidentError) → IsStill (find_incident D C T label_of id e)
  unfolding find_incident
  find_incident-IsStill id e = found _ e

  ask_operator-still :
      (setting : IncidentSetting) (i : IncidentRow) (actor : Option String) (w : World)
      → (ask_operator D C T label_of setting i actor w).boundaries ≡ w.boundaries
  unfolding ask_operator
  ask_operator-still setting i none w = refl
  ask_operator-still setting i (some actor) w = elim (Bool-cases (str_eq actor "")) [
    | inl empty ↦ rw empty refl
    | inr named ↦
        elim (Option-cases (
          head? (
            T.pending.find_many (is_question_of D C T label_of i.id) (λ a. a.created_at)
              w.pendings))) [
                | inl unasked ↦ rw (named, unasked) refl
                | inr (a, asked) ↦ rw (named, asked) refl
              ]
  ]

  pub announce-IsStill :
      (setting : IncidentSetting) (id : String) → IsStill (announce D C T label_of setting id)
  unfolding announce raise_operator_action
  announce-IsStill setting id =
      next
        (bind (find_incident-IsStill id IncidentError.row_gone) (λ i. aside _ (λ w.
          elim (Bool-cases (is_above (severity_rank "HIGH") (severity_rank i.severity))) [
            | inl minor ↦ rw minor refl
            | inr serious ↦ rw serious (ask_operator-still setting i i.actor_id w)
          ])))
        (find_incident-IsStill id IncidentError.row_gone)

  note_recommendation-IsStill :
      (investigation recommendation : Option String)
      → IsStill (note_recommendation D C T label_of investigation recommendation)
  unfolding note_recommendation
  note_recommendation-IsStill none _ = return tt
  note_recommendation-IsStill (some i) none = return tt
  note_recommendation-IsStill (some i) (some r) = elim (Bool-cases (str_eq i "" || str_eq r "")) [
    | inl empty ↦ rw empty (return tt)
    | inr named ↦ rw named (
        bind
          (found (λ w. T.investigation.find_unique (λ x. str_eq x.id i) w.investigations)
            IncidentError.row_gone)
          (λ row. record { run = λ w _. (tt, refl) }))
  ]

  note_drift-still :
      (mitigation : Mitigation) (actor : Option String) (w : World)
      → (note_drift D C T label_of mitigation actor w).boundaries ≡ w.boundaries
  unfolding note_drift
  note_drift-still mitigation none w = refl
  note_drift-still mitigation (some actor) w =
      elim (Bool-cases (str_eq actor "" || is_none_taken mitigation)) [
        | inl none_due ↦ rw none_due refl
        | inr due ↦ rw due refl
      ]

  pub record_decision-IsStill :
      (i : IncidentRow) (recommendation : Option String) (r : Reconciliation)
      → (mitigation : Mitigation) (affected : ℕ)
      → IsStill (record_decision D C T label_of i recommendation r mitigation affected)
  unfolding record_decision
  record_decision-IsStill i recommendation r mitigation affected =
      next (note_recommendation-IsStill i.investigation_id recommendation) (
        bind (found (λ _. can_transition i.status "MITIGATED") IncidentError.type_error) (λ moves.
          next
            (aside (update_incident D C T label_of i.id (decided_row mitigation moves)) (λ w. refl))
            (next
              (aside (note_drift D C T label_of mitigation i.actor_id)
                (note_drift-still mitigation i.actor_id))
              (return (r, affected)))))

  restore_authority-IsStill :
      (restore : Bool) (status : String) (actor : Option String)
      → (restore ≡ false) ⊎ (status ≢ "FALSE_POSITIVE")
      → IsStill (restore_authority D C T label_of restore status actor)
  unfolding restore_authority
  restore_authority-IsStill restore status none h = return 0
  restore_authority-IsStill restore status (some actor) h =
      elim (Bool-cases (not restore || str_eq actor "")) [
        | inl idle ↦ rw idle (return 0)
        | inr asked ↦
            let refused : str_eq status "FALSE_POSITIVE" ≡ false =
              ground (arith, eq_iff status "FALSE_POSITIVE") in
            rw (asked, refused) (record { run = λ w _. (tt, refl) })
      ]

  -- Resolving an incident leaves every authority as it was, unless it was asked for and the
  -- incident is closed as a false positive: on every path, a refusal included.
  pub resolve_incident-still :
      (id status root_cause : String) (restore : Bool) (now : ℕ) (w : World)
      → (restore ≡ false) ⊎ (status ≢ "FALSE_POSITIVE")
      → (resolve_incident D C T label_of id status root_cause restore now w).1.boundaries
        ≡ w.boundaries
  unfolding resolve_incident
  resolve_incident-still id status root_cause restore now w h =
      ((bind (find_incident-IsStill id IncidentError.no_incident) (λ i.
          bind (found (λ _. can_transition i.status status) IncidentError.type_error) (λ legal.
            next (need legal IncidentError.illegal_transition) (
              next (need (not (is_blank root_cause)) IncidentError.no_root_cause) (
                bind (restore_authority-IsStill restore status i.actor_id h) (λ restored.
                  next
                    (aside
                      (update_incident D C T label_of id (closed_row status root_cause restore now))
                      (λ v. refl))
                    (return restored))))))).run
        w tt).1
