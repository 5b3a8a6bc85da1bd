-- ===== src/Incidents/Service/Mitigating.antt =====
-- What a mitigation does to the authority of an actor (`applyMitigation` of
-- backend/src/incidents/incident-service.ts).
use xander.Prelude.{
  ℕ, ◌≡◌, refl, sym, ◌∙◌, subst, String, true, ◌||◌, Option, none, List, [], ◌∷◌, eq_iff, str_eq,
  In, In-map, Bool-cases, inl, inr, map, arith, is_none,
}
use xander.Prelude.Table.{patch}
use xander.Capabilities.Types.{CapabilityStatus, CapabilityDenial}
use xander.Capabilities.Store.{
  Capability, Database, CheckArgs, with_status, denied, check_capability,
}
use xander.Authorization.Enforcement.EnsEac.{Chain}
use xander.Authorization.Enforcement.Service.{Boundaries}
use xander.Authorization.Enforcement.Sweep.Laws.{
  IsIdle, IsLeft, IsLeft-nil, round-IsLeft, revoke_each-IsIdle,
}
use xander.Trust.Mutation.{attenuated_limit, is_exercisable, same_text, update_status}
use xander.Trust.Mutation.Laws.{inactive-check}
use xander.Agents.Rows.{is_suspended_of}
use xander.Incidents.Severity.{Mitigation}
use xander.Incidents.Service.{restrict_each, apply_mitigation}
use xander.Incidents.Rows.{IncidentTables, restricted}

restricted-facts :
    (k c : Capability)
    → ((restricted k c).status ≡ CapabilityStatus.suspended)
      × ((restricted k c).id ≡ c.id)
      × ((restricted k c).actor_id ≡ c.actor_id)
restricted-facts k c =
    elim (Bool-cases (
      is_none (attenuated_limit k.amount_limit 2)
      || same_text (attenuated_limit k.amount_limit 2) k.amount_limit)) [
        | inl kept ↦ rw kept (refl, refl, refl)
        | inr reduced ↦ rw reduced (refl, refl, refl)
      ]

-- The mitigations that take authority away.
pub data TakesAway : Mitigation → Type 0 where
  restricting : TakesAway Mitigation.restrict
  revoking : TakesAway Mitigation.revoke

module _ (D : Database) (C : Chain) (T : IncidentTables) (label_of : String → Option String)
    (actor : String) where
  restrict_each-left :
      (cs : List Capability) (w : Boundaries D C)
      → IsLeft actor cs (D.capability.rows w.store.capabilities)
      → IsIdle actor (D.capability.rows (restrict_each D C T label_of cs w).store.capabilities)
  unfolding restrict_each
  restrict_each-left [] w h = IsLeft-nil actor _ h
  restrict_each-left (k ∷ cs) w h = restrict_each-left cs _ (
      rw (D.capability.update_many-rows (λ r. str_eq r.id k.id) (restricted k) w.store.capabilities)
        (round-IsLeft actor k (λ r. str_eq r.id k.id) (restricted k)
          (λ c e live. (eq_iff c.id k.id).1 e) (λ c live. cc (sym (restricted-facts k c).0 ∙ live))
          (λ c. (restricted-facts k c).1) (λ c. (restricted-facts k c).2) cs _ h))

  apply_mitigation-IsIdle :
      (mitigation : Mitigation) (w : Boundaries D C)
      → TakesAway mitigation
      → IsIdle actor (
          D.capability.rows
            (apply_mitigation D C T label_of actor mitigation w).1.store.capabilities)
  unfolding apply_mitigation
  apply_mitigation-IsIdle _ w revoking = revoke_each-IsIdle D C label_of actor w
  apply_mitigation-IsIdle _ w restricting = restrict_each-left _ w (λ c m e live. (
    c,
    (D.capability.find_many-In (is_exercisable actor) (λ k. k.created_at) w.store.capabilities c).1
        (m, ground (arith, eq_iff c.actor_id actor)),
    refl,
  ))

  pub apply_mitigation-check :
      (mitigation : Mitigation) (w : Boundaries D C) (args : CheckArgs) (now : ℕ)
      → TakesAway mitigation
      → args.actor_id ≡ actor
      → check_capability D (apply_mitigation D C T label_of actor mitigation w).1.store args now
        ≡ denied none CapabilityDenial.not_found
  apply_mitigation-check mitigation w args now t e =
      inactive-check D (apply_mitigation D C T label_of actor mitigation w).1.store actor
        (apply_mitigation-IsIdle mitigation w t) args now e

  -- A restoration makes every suspended capability of the actor active again, whoever suspended it
  -- and for whatever reason; the ceilings stay as they are.
  pub apply_mitigation_restore :
      (w : Boundaries D C) (c : Capability)
      → In c (D.capability.rows w.store.capabilities)
      → c.actor_id ≡ actor
      → c.status ≡ CapabilityStatus.suspended
      → In (with_status CapabilityStatus.active c) (
          D.capability.rows
            (apply_mitigation D C T label_of actor Mitigation.restore w).1.store.capabilities)
  unfolding apply_mitigation update_status
  apply_mitigation_restore w c m e s =
      let hit : is_suspended_of actor c ≡ true = ground (arith, eq_iff c.actor_id actor) in
      rw
        (D.capability.update_many-rows (is_suspended_of actor) (with_status CapabilityStatus.active)
          w.store.capabilities)
        (subst
          (λ x. In x (
            map (patch (is_suspended_of actor) (with_status CapabilityStatus.active))
              (D.capability.rows w.store.capabilities)))
          (rw hit refl)
          (In-map (patch (is_suspended_of actor) (with_status CapabilityStatus.active)) _ c m))
