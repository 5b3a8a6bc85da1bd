-- ===== src/Authorization/Enforcement/Sweep/Laws.antt =====
-- A loop that stops each capability it read leaves none of them active (the loops over an actor's
-- capabilities in backend/src/incidents/incident-service.ts and
-- backend/src/control/control-service.ts).
use xander.Prelude.{
  ◌≡◌, ◌≢◌, refl, sym, ◌∙◌, ap, String, Bool, true, Option, List, [], ◌∷◌, eq_iff, In, In-map_inv,
  Bool-cases, inl, inr, map, arith,
}
use xander.Prelude.Table.{patch}
use xander.Capabilities.Types.{CapabilityStatus}
use xander.Capabilities.Store.{Capability, Database, with_status}
use xander.Trust.Mutation.{is_held}
use xander.Authorization.Enforcement.Local.{is_withdrawable, revoked_state, local_revoke}
use xander.Authorization.Enforcement.EnsEac.{Chain}
use xander.Authorization.Enforcement.Service.{Boundaries, revoke_everywhere}
use xander.Authorization.Enforcement.Service.Laws.{revoke-store}
use xander.Authorization.Enforcement.Sweep.{revoke_each, held_by}

-- No row of the actor is active.
abbrev pub IsIdle : String → List Capability → Type 0
IsIdle actor rows =
    (c : Capability) → In c rows → c.actor_id ≡ actor → c.status ≢ CapabilityStatus.active

-- A row of the actor that is still active has the id of a capability the loop has yet to reach.
abbrev pub IsLeft : String → List Capability → List Capability → Type 0
IsLeft actor cs rows =
    (c : Capability)
    → In c rows
    → c.actor_id ≡ actor
    → c.status ≡ CapabilityStatus.active
    → (k : Capability) × In k cs × (k.id ≡ c.id)

pub IsLeft-nil :
    (actor : String) (rows : List Capability) → IsLeft actor [] rows → IsIdle actor rows
IsLeft-nil actor rows h c m e live = (h c m e live).1

-- One round: what it writes stops the rows with the id, and touches neither id nor actor.
module _ (actor : String) (k : Capability) (p : Capability → Bool) (f : Capability → Capability)
    (covers : (c : Capability) → c.id ≡ k.id → c.status ≡ CapabilityStatus.active → p c ≡ true)
    (stops : (c : Capability) → (f c).status ≢ CapabilityStatus.active)
    (same_id : (c : Capability) → (f c).id ≡ c.id)
    (same_actor : (c : Capability) → (f c).actor_id ≡ c.actor_id) where
  patched-left :
      (c : Capability) (cs : List Capability)
      → (c.actor_id ≡ actor
          → c.status ≡ CapabilityStatus.active
          → (j : Capability) × In j (k ∷ cs) × (j.id ≡ c.id))
      → (patch p f c).actor_id ≡ actor
      → (patch p f c).status ≡ CapabilityStatus.active
      → (j : Capability) × In j cs × (j.id ≡ (patch p f c).id)
  patched-left c cs left e live = elim (Bool-cases (p c)) [
    | inl hit ↦ absurd (stops c (rw hit at live))
    | inr miss ↦
        let (j, there, same) = left (rw miss at e) (rw miss at live) in
        elim there [
          | inl head ↦ absurd (
              cc (
                sym miss
                ∙ covers c (sym same ∙ ap (λ (x : Capability). x.id) head) (rw miss at live)))
          | inr tail ↦ (j, tail, rw miss same)
        ]
  ]

  pub round-IsLeft :
      (cs rows : List Capability)
      → IsLeft actor (k ∷ cs) rows
      → IsLeft actor cs (map (patch p f) rows)
  round-IsLeft cs rows h c m e live =
      let (b, there, same) = In-map_inv (patch p f) rows c m in
      let (j, mj, ej) = patched-left b cs (h b there) (rw same at e) (rw same at live) in
      (j, mj, ej ∙ ap (λ (x : Capability). x.id) (sym same))

withdrawable-covers :
    (id : String) (c : Capability)
    → c.id ≡ id
    → c.status ≡ CapabilityStatus.active
    → is_withdrawable id c ≡ true
withdrawable-covers id c e live = ground (arith, eq_iff c.id id)

module _ (D : Database) (C : Chain) (label_of : String → Option String) (actor : String) where
  revoke_each-left :
      (cs : List Capability) (w : Boundaries D C)
      → IsLeft actor cs (D.capability.rows w.store.capabilities)
      → IsIdle actor (D.capability.rows (revoke_each D C label_of actor cs w).store.capabilities)
  unfolding revoke_each
  revoke_each-left [] w h = IsLeft-nil actor _ h
  revoke_each-left (k ∷ cs) w h =
      revoke_each-left cs (revoke_everywhere D C label_of k.id actor k.action_type w).1 (
        rw (revoke-store D C label_of k.id actor k.action_type w) (
          unfold local_revoke revoked_state in
          rw
            (D.capability.update_many-rows (is_withdrawable k.id)
              (with_status CapabilityStatus.revoked) w.store.capabilities)
            (round-IsLeft actor k (is_withdrawable k.id) (with_status CapabilityStatus.revoked)
              (withdrawable-covers k.id) (λ c. λ x. cc) (λ c. refl) (λ c. refl) cs _ h)))

  -- At the start every active row of the actor is one of those that were read.
  held_by-IsLeft :
      (w : Boundaries D C)
      → IsLeft actor (held_by D C label_of actor w) (D.capability.rows w.store.capabilities)
  held_by-IsLeft w c m e live = (
    c,
    (D.capability.find_many-In (is_held actor) (λ k. k.created_at) w.store.capabilities c).1
        (m, ground (arith, eq_iff c.actor_id actor)),
    refl,
  )

  pub revoke_each-IsIdle :
      (w : Boundaries D C)
      → IsIdle actor (
          D.capability.rows
            (revoke_each D C label_of actor (held_by D C label_of actor w) w).store.capabilities)
  revoke_each-IsIdle w = revoke_each-left (held_by D C label_of actor w) w (held_by-IsLeft w)
