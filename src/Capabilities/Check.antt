-- ===== src/Capabilities/Check.antt =====
-- What it takes to exercise a capability, independently of the loop that looks for one
-- (`checkCapability` of backend/src/capabilities/capability-service.ts).
pub mod Guards
use xander.Prelude.{
  ap, sym, subst, ◌∙◌, ℕ, ◌≤◌, ◌≡◌, refl, inl, inr, true, false, ◌&&◌, none, some, List, [], ◌∷◌,
  arith, eq_iff, In, All, All-In, Option-cases, ◌⊎◌, ◌↔◌,
}
use xander.Prelude.Table.{IsDescending}
use xander.Capabilities.Types.{CapabilityDenial, is_active, CapabilityStatus}
use xander.Capabilities.Store.{
  Capability, CapabilityCheck, Database, State, CheckArgs, is_candidate, denied, refusal,
  check_from, candidates, check_capability,
}
use xander.Capabilities.Check.Guards.{Bounds, IsLive, refusal-Bounds, Bounds-refusal}

pub candidate-facts :
    (args : CheckArgs) (c : Capability)
    → is_candidate args.actor_id args.action_type c ≡ true
    → (c.actor_id ≡ args.actor_id)
      × (c.action_type ≡ args.action_type)
      × (c.status ≡ CapabilityStatus.active)
candidate-facts args c h =
    ground (arith, eq_iff c.actor_id args.actor_id, eq_iff c.action_type args.action_type)

module _ (D : Database) (s : State D) (args : CheckArgs) (now : ℕ) where
  -- A capability on file that lets this actor do this, now.
  pub record Permits (c : Capability) : Type 0 where
    pub stored : In c (D.capability.rows s.capabilities)
    pub actor : c.actor_id ≡ args.actor_id
    pub action : c.action_type ≡ args.action_type
    pub bounds : Bounds D s now args c

  candidate-Permits :
      (c : Capability) → In c (candidates D s args) → refusal D s args now c ≡ none → Permits c
  unfolding candidates
  candidate-Permits c m h =
      let (stored, wanted) = (D.capability.find_many-In _ _ s.capabilities c).0 m in
      let (actor, action, _) = candidate-facts args c wanted in
      record {
        stored = stored;
        actor = actor;
        action = action;
        bounds = refusal-Bounds D s now args c h;
      }

  Permits-candidate : (c : Capability) → Permits c → In c (candidates D s args)
  unfolding candidates
  Permits-candidate c p = (D.capability.find_many-In _ _ s.capabilities c).1 (
    p.stored,
    ground (
      arith,
      p.bounds.live.active,
      eq_iff c.actor_id args.actor_id,
      eq_iff c.action_type args.action_type,
    ),
  )

  -- The first usable capability of the list, if the loop lets one through.
  abbrev IsChosen : CapabilityCheck → List Capability → Type 0
  IsChosen r cs =
      (c : Capability) × In c cs
      × (r ≡ record { allowed = true; capability = some c; denial = none })
      × (refusal D s args now c ≡ none)

  check_from-IsChosen :
      (last : CapabilityCheck) (cs : List Capability)
      → last.allowed ≡ false
      → (check_from D s args now last cs).allowed ≡ true
      → IsChosen (check_from D s args now last cs) cs
  unfolding check_from
  check_from-IsChosen last [] start h = cc
  check_from-IsChosen last (c ∷ cs) start h = elim (Option-cases (refusal D s args now c)) [
    | inl usable ↦ (c, inl refl, rw (usable, check_from), usable)
    | inr (d, refused) ↦
        let (k, there, same, usable) =
          check_from-IsChosen (denied (some c) d) cs refl (rw (refused, check_from) at h) in
        (k, inr there, rw (refused, check_from) same, usable)
  ]

  check_from-allowed :
      (last : CapabilityCheck) (cs : List Capability) (c : Capability)
      → In c cs
      → refusal D s args now c ≡ none
      → (check_from D s args now last cs).allowed ≡ true
  unfolding check_from
  check_from-allowed last [] c m h = absurd m
  check_from-allowed last (k ∷ cs) c (inl e) h = rw (← e) (rw (h, check_from))
  check_from-allowed last (k ∷ cs) c (inr m) h = elim (Option-cases (refusal D s args now k)) [
    | inl usable ↦ rw (usable, check_from)
    | inr (d, refused) ↦ rw (refused, check_from) (check_from-allowed (denied (some k) d) cs c m h)
  ]

  check_from-newest :
      (last : CapabilityCheck) (cs : List Capability) (c k : Capability)
      → last.allowed ≡ false
      → IsDescending (λ r. r.created_at) cs
      → check_from D s args now last cs
        ≡ record { allowed = true; capability = some c; denial = none }
      → In k cs
      → refusal D s args now k ≡ none
      → k.created_at ≤ c.created_at
  unfolding check_from
  check_from-newest last [] c k start desc h m usable_k = absurd m
  check_from-newest last (x ∷ cs) c k start desc h m usable_k =
      elim (Option-cases (refusal D s args now x)) [
        | inl usable ↦
            let same : x ≡ c = cc (rw (usable, check_from) at h) in
            elim m [
              | inl e ↦ rw (e, same) (omega arith)
              | inr there ↦
                  rw (← same) (All-In (λ r. r.created_at ≤ x.created_at) cs k desc.0 there)
            ]
        | inr (d, refused) ↦ elim m [
          | inl e ↦ absurd (cc (rw e at usable_k))
          | inr there ↦
              check_from-newest (denied (some x) d) cs c k refl desc.1
                (rw (refused, check_from) at h) there usable_k
        ]
      ]

-- A check that allows an action names one capability on file: it is the actor's, for this action,
-- active and unexpired, any lease it names is live, and the amount, the target and the uses in its
-- window are within its bounds. No denial is reported.
pub check_capability_sound :
    (D : Database) (s : State D) (args : CheckArgs) (now : ℕ)
    → (check_capability D s args now).allowed ≡ true
    → (c : Capability) × (check_capability D s args now
        ≡ record { allowed = true; capability = some c; denial = none })
      × Permits D s args now c
unfolding check_capability
check_capability_sound D s args now h =
    let (c, m, same, usable) =
      check_from-IsChosen D s args now (denied none CapabilityDenial.not_found)
        (candidates D s args) refl h in
    (c, same, candidate-Permits D s args now c m usable)

-- If some capability on file permits the action, the check allows it, and the capability that it
-- names is no older than that one.
pub check_capability_complete :
    (D : Database) (s : State D) (args : CheckArgs) (now : ℕ) (k : Capability)
    → Permits D s args now k
    → (c : Capability) × (check_capability D s args now
        ≡ record { allowed = true; capability = some c; denial = none })
      × (k.created_at ≤ c.created_at)
unfolding check_capability
check_capability_complete D s args now k p =
    let m = Permits-candidate D s args now k p in
    let usable = Bounds-refusal D s now args k p.bounds in
    let start = denied none CapabilityDenial.not_found in
    let allowed = check_from-allowed D s args now start (candidates D s args) k m usable in
    let (c, there, same, _) =
      check_from-IsChosen D s args now start (candidates D s args) refl allowed in
    (
      c,
      same,
      check_from-newest D s args now start (candidates D s args) c k refl
          (unfold candidates in D.capability.find_many-IsDescending _ _ s.capabilities) same m
          usable,
    )

-- The capability that an allowing check names permits the action.
pub check_capability-Permits :
    (D : Database) (s : State D) (args : CheckArgs) (now : ℕ) (c : Capability)
    → check_capability D s args now ≡ record { allowed = true; capability = some c; denial = none }
    → Permits D s args now c
check_capability-Permits D s args now c h =
    let (k, same, p) = check_capability_sound D s args now (rw h) in
    let e : some k ≡ some c = ap (λ (r : CapabilityCheck). r.capability) (sym same ∙ h) in
    let named : k ≡ c = cc in subst (Permits D s args now) named p
