-- ===== src/Capabilities/Withdraw.antt =====
-- Withdrawing capabilities: revocation and suspension, and what they leave alone
-- (`revokeCapabilities`, `suspendCapabilities`, `grantCapability`, `recordUsage` of
-- backend/src/capabilities/capability-service.ts).
use xander.Prelude.{
  ℕ, ◌≡◌, sym, ◌∙◌, ◌↔◌, subst, ap, ◌≢◌, true, false, none, some, String, Option, arith, eq_iff, In,
  In-map, In-map_inv, nil_of_not_In, [], map, ◌⊎◌, inl, inr, Bool-cases,
}
use xander.Prelude.Table.{patch}
use xander.Capabilities.Types.{CapabilityStatus, CapabilityDenial}
use xander.Capabilities.Store.{
  Capability, Database, State, CheckArgs, denied, is_revocable, with_status, revoke_capabilities,
  check_capability, lease_of, candidates, check_from,
}
use xander.Capabilities.Check.{candidate-facts, Permits}

-- Which action a withdrawal is for: one, or with none given (or an empty name) all of them.
abbrev pub Covers : Option String → String → Type 0
Covers none action = Unit
Covers (some a) action = (a ≡ "") ⊎ (action ≡ a)

revocable_complete :
    (actor : String) (action : Option String) (c : Capability)
    → c.actor_id ≡ actor
    → c.status ≡ CapabilityStatus.active
    → Covers action c.action_type
    → is_revocable actor action c ≡ true
revocable_complete actor none c e live h = ground (arith, eq_iff c.actor_id actor)
revocable_complete actor (some a) c e live h =
    ground (arith, eq_iff c.actor_id actor, eq_iff a "", eq_iff c.action_type a)

module _ (actor : String) (action : Option String) (status : CapabilityStatus)
    (inactive : status ≢ CapabilityStatus.active) where
  patched-inactive :
      (c : Capability)
      → (patch (is_revocable actor action) (with_status status) c).actor_id ≡ actor
      → Covers action (patch (is_revocable actor action) (with_status status) c).action_type
      → (patch (is_revocable actor action) (with_status status) c).status ≢ CapabilityStatus.active
  patched-inactive c e h live = elim (Bool-cases (is_revocable actor action c)) [
    | inl hit ↦ inactive (rw hit at live)
    | inr miss ↦ absurd (
        cc (
          sym miss
          ∙ revocable_complete actor action c (rw miss at e) (rw miss at live) (rw miss at h)))
  ]

-- No row that the withdrawal was for is active after it.
withdrawn :
    (D : Database) (actor : String) (action : Option String) (status : CapabilityStatus)
    (s : State D)
    → status ≢ CapabilityStatus.active
    → (c : Capability)
    → In c (
        D.capability.rows
          (D.capability.update_many
            (is_revocable actor action)
            (with_status status)
            s.capabilities).1)
    → c.actor_id ≡ actor
    → Covers action c.action_type
    → c.status ≢ CapabilityStatus.active
withdrawn D actor action status s inactive c m e h =
    let (k, there, same) =
      In-map_inv _ _ c (rw (D.capability.update_many-rows _ _ s.capabilities) at m) in
    rw same (patched-inactive actor action status inactive k (rw same at e) (rw same at h))

module _ (D : Database) (actor : String) (action : Option String) (status : CapabilityStatus)
    (inactive : status ≢ CapabilityStatus.active) where
  -- The state after the matching rows were given the status.
  abbrev after : State D → State D
  after s = record s {
    capabilities =
        (D.capability.update_many (is_revocable actor action) (with_status status)
          s.capabilities).1;
  }

  no_candidate :
      (s : State D) (args : CheckArgs)
      → args.actor_id ≡ actor
      → Covers action args.action_type
      → candidates D (after s) args ≡ []
  unfolding candidates
  no_candidate s args e h = nil_of_not_In _ (λ c m.
      let (there, wanted) = (D.capability.find_many-In _ _ (after s).capabilities c).0 m in
      let (same_actor, same_action, live) = candidate-facts args c wanted in
      withdrawn D actor action status s inactive c there (same_actor ∙ e) (rw (← same_action) at h)
        live)

  withdrawn-check :
      (s : State D) (args : CheckArgs) (now : ℕ)
      → args.actor_id ≡ actor
      → Covers action args.action_type
      → check_capability D (after s) args now ≡ denied none CapabilityDenial.not_found
  unfolding check_capability check_from
  withdrawn-check s args now e h = rw (no_candidate s args e h)

revoked-ne-active : CapabilityStatus.revoked ≢ CapabilityStatus.active
revoked-ne-active e = cc

-- After the capabilities of an actor were revoked, of one action or of all, a check of that actor
-- for a covered action finds no capability at all, at whatever time it is made.
pub revoke_capabilities-check :
    (D : Database) (actor : String) (action : Option String) (s : State D) (args : CheckArgs)
    (now : ℕ)
    → args.actor_id ≡ actor
    → Covers action args.action_type
    → check_capability D (revoke_capabilities D actor action s).1 args now
      ≡ denied none CapabilityDenial.not_found
unfolding revoke_capabilities
revoke_capabilities-check D actor action s args now =
    withdrawn-check D actor action CapabilityStatus.revoked revoked-ne-active s args now

not_revocable :
    (actor : String) (action : Option String) (c : Capability)
    → c.actor_id ≢ actor
    → is_revocable actor action c ≡ false
not_revocable actor none c ne = ground (arith, eq_iff c.actor_id actor)
not_revocable actor (some a) c ne = ground (arith, eq_iff c.actor_id actor)

module _ (D : Database) (actor : String) (action : Option String) (status : CapabilityStatus)
    (s : State D) (args : CheckArgs) (now : ℕ) (other : args.actor_id ≢ actor) where
  rest : State D
  rest = record s {
    capabilities =
        (D.capability.update_many (is_revocable actor action) (with_status status)
          s.capabilities).1;
  }

  kept_row :
      (k : Capability)
      → k.actor_id ≢ actor
      → patch (is_revocable actor action) (with_status status) k ≡ k
  kept_row k ne = rw (not_revocable actor action k ne)

  others_kept : (k : Capability) → Permits D s args now k → Permits D rest args now k
  unfolding rest lease_of
  others_kept k p = record {
    stored =
        rw
          (D.capability.update_many-rows (is_revocable actor action) (with_status status)
            s.capabilities)
          (subst
            (λ r. In r (
              map (patch (is_revocable actor action) (with_status status))
                (D.capability.rows s.capabilities)))
            (kept_row k (λ e. other (sym p.actor ∙ e)))
            (In-map (patch (is_revocable actor action) (with_status status)) _ k p.stored));
    actor = p.actor;
    action = p.action;
    bounds = record {
      live = p.bounds.live;
      assured = p.bounds.assured;
      amount = p.bounds.amount;
      target = p.bounds.target;
      rate = p.bounds.rate;
    };
  }

  patch-actor :
      (k : Capability)
      → (patch (is_revocable actor action) (with_status status) k).actor_id ≡ k.actor_id
  patch-actor k = elim (Bool-cases (is_revocable actor action k)) [
    | inl hit ↦ rw hit
    | inr miss ↦ rw miss
  ]

  others_back : (k : Capability) → Permits D rest args now k → Permits D s args now k
  unfolding rest lease_of
  others_back k p =
      let (old, there, same) = In-map_inv _ _ k (
        rw
          (D.capability.update_many-rows (is_revocable actor action) (with_status status)
            s.capabilities)
          at p.stored) in
      let ne : old.actor_id ≢ actor =
        λ e. other (sym p.actor ∙ (ap (λ c. c.actor_id) same ∙ (patch-actor old ∙ e))) in
      record {
        stored =
            subst (λ r. In r (D.capability.rows s.capabilities)) (sym (same ∙ kept_row old ne))
              there;
        actor = p.actor;
        action = p.action;
        bounds = record {
          live = p.bounds.live;
          assured = p.bounds.assured;
          amount = p.bounds.amount;
          target = p.bounds.target;
          rate = p.bounds.rate;
        };
      }

-- Revoking the capabilities of one actor leaves every other actor with exactly the capabilities
-- that permitted it an action before.
pub revoke_capabilities-others :
    (D : Database) (actor : String) (action : Option String) (s : State D) (args : CheckArgs)
    (now : ℕ) (k : Capability)
    → args.actor_id ≢ actor
    → Permits D (revoke_capabilities D actor action s).1 args now k ↔ Permits D s args now k
unfolding revoke_capabilities rest
revoke_capabilities-others D actor action s args now k other = (
  others_back D actor action CapabilityStatus.revoked s args now other k,
  others_kept D actor action CapabilityStatus.revoked s args now other k,
)
