-- ===== src/Authorization/Enforcement/Service/Laws.antt =====
-- What the combined verdict over the boundaries establishes (`verifyEnforcement`,
-- `revokeEverywhere` of backend/src/authorization/enforcement/enforcement-service.ts).
use xander.Prelude.{
  subst, ℕ, ◌≡◌, refl, sym, ◌∙◌, ap, ◌↔◌, String, true, false, Option, none, some, [], ◌∷◌, arith,
  In, Option-cases, inl, inr, all,
}
use xander.Capabilities.Store.{Capability, Database, CheckArgs, check_capability}
use xander.Authorization.Enforcement.Adapter.{
  CapabilityState, EnforcementResult, is_enforced, AdapterName,
}
use xander.Authorization.Enforcement.Local.{local_revoke, local_inspect}
use xander.Authorization.Enforcement.Local.Laws.{IsWithdrawn, local_revoke-IsWithdrawn}
use xander.Authorization.Enforcement.EnsEac.{
  Chain, returned, has_on_chain_role, eac_revoke, eac_inspect, inspect_verdict,
}
use xander.Authorization.Enforcement.EnsEac.Laws.{inspect_verdict-true, eac_revoke-not_held}
use xander.Authorization.Enforcement.Service.{
  Boundaries, is_refused, all_confirm, revoked_state_of, inspect_all, revoke_all, local_adapter,
  ens_eac_adapter, adapters_for_actor, verify_enforcement, revoke_everywhere,
}

-- A boundary that said yes.
abbrev pub Confirms : CapabilityState → Type 0
Confirms state = state.enforceable ≡ some true

all_confirm-one : (a : CapabilityState) → (all_confirm (a ∷ []) ≡ true) ↔ Confirms a
unfolding all_confirm
all_confirm-one a = ground arith

all_confirm-two :
    (a b : CapabilityState) → (all_confirm (a ∷ b ∷ []) ≡ true) ↔ (Confirms a × Confirms b)
unfolding all_confirm
all_confirm-two a b = ground arith

-- What proves that the action may go ahead: the store permits it, and the chain, where the actor
-- has a label, says that the label holds the role.
pub record IsProven (D : Database) (C : Chain) (label : Option String) (w : Boundaries D C)
    (args : CheckArgs) (now : ℕ) : Type 0 where
  pub permitted : (check_capability D w.store args now).allowed ≡ true
  pub on_chain :
      (l : String) → label ≡ some l → has_on_chain_role C w.chain l args.action_type ≡ returned true

module _ (D : Database) (C : Chain) (label_of : String → Option String) (w : Boundaries D C)
    (args : CheckArgs) (now : ℕ) where
  verify-bare :
      label_of args.actor_id ≡ none
      → (verify_enforcement D C label_of w args now).enforced
        ≡ all_confirm (local_inspect D w.store args now ∷ [])
  unfolding verify_enforcement adapters_for_actor inspect_all local_adapter
  verify-bare e = rw (e, adapters_for_actor) refl

  verify-named :
      (l : String)
      → label_of args.actor_id ≡ some l
      → (verify_enforcement D C label_of w args now).enforced
        ≡ all_confirm (
            local_inspect D w.store args now ∷ eac_inspect C (some l) args.action_type w.chain ∷ [])
  unfolding verify_enforcement adapters_for_actor inspect_all local_adapter ens_eac_adapter
  verify-named l e =
      rw (e, adapters_for_actor)
        (ap
          (λ t.
            all_confirm
              (local_inspect D w.store args now ∷ eac_inspect C t args.action_type w.chain ∷ []))
          e)

  local-permitted :
      Confirms (local_inspect D w.store args now)
      → (check_capability D w.store args now).allowed ≡ true
  unfolding local_inspect
  local-permitted h = cc

  permitted-local :
      (check_capability D w.store args now).allowed ≡ true
      → Confirms (local_inspect D w.store args now)
  unfolding local_inspect
  permitted-local h = rw h refl

  eac-on_chain :
      (l : String)
      → Confirms (eac_inspect C (some l) args.action_type w.chain)
      → has_on_chain_role C w.chain l args.action_type ≡ returned true
  unfolding eac_inspect
  eac-on_chain l h = inspect_verdict-true _ h

  on_chain-eac :
      (l : String)
      → has_on_chain_role C w.chain l args.action_type ≡ returned true
      → Confirms (eac_inspect C (some l) args.action_type w.chain)
  unfolding eac_inspect inspect_verdict
  on_chain-eac l h = rw h refl

  enforced-IsProven :
      (verify_enforcement D C label_of w args now).enforced ≡ true
      → IsProven D C (label_of args.actor_id) w args now
  enforced-IsProven h = elim (Option-cases (label_of args.actor_id)) [
    | inl bare ↦ record {
      permitted = local-permitted ((all_confirm-one _).0 (sym (verify-bare bare) ∙ h));
      on_chain = λ l e. absurd (cc);
    }
    | inr (l, named) ↦
        let (mine, chains) = (all_confirm-two _ _).0 (sym (verify-named l named) ∙ h) in
        record {
          permitted = local-permitted mine;
          on_chain = λ k e. let same : k ≡ l = cc in rw same (eac-on_chain l chains);
        }
  ]

  IsProven-enforced :
      IsProven D C (label_of args.actor_id) w args now
      → (verify_enforcement D C label_of w args now).enforced ≡ true
  IsProven-enforced p = elim (Option-cases (label_of args.actor_id)) [
    | inl bare ↦ verify-bare bare ∙ (all_confirm-one _).1 (permitted-local p.permitted)
    | inr (l, named) ↦
        verify-named l named
        ∙ (all_confirm-two _ _).1 (permitted-local p.permitted, on_chain-eac l (p.on_chain l named))
  ]

-- The boundaries enforce an action exactly if the store permits it and, where the actor has a label
-- on the chain, the chain answers that the label holds the role of the action. A boundary that
-- could not answer, or whose call threw, does not count as one that agrees.
pub verify_enforcement_iff :
    (D : Database) (C : Chain) (label_of : String → Option String) (w : Boundaries D C)
    (args : CheckArgs) (now : ℕ)
    → ((verify_enforcement D C label_of w args now).enforced ≡ true)
      ↔ IsProven D C (label_of args.actor_id) w args now
verify_enforcement_iff D C label_of w args now =
    (enforced-IsProven D C label_of w args now, IsProven-enforced D C label_of w args now)

all_refused-last :
    (m n : AdapterName) (a b : EnforcementResult)
    → all is_refused (revoked_state_of m a ∷ revoked_state_of n b ∷ []) ≡ true
    → is_enforced b ≡ true
unfolding revoked_state_of
all_refused-last m n a b h = ground arith

module _ (D : Database) (C : Chain) (label_of : String → Option String) (id actor action : String)
    (w : Boundaries D C) where
  pub revoke-store :
      (revoke_everywhere D C label_of id actor action w).1.store ≡ (local_revoke D id w.store).1
  unfolding revoke_everywhere revoke_all local_adapter ens_eac_adapter adapters_for_actor
      local_revoke
  revoke-store = elim (Option-cases (label_of actor)) [
    | inl bare ↦ rw (bare, adapters_for_actor) refl
    | inr (l, named) ↦ rw (named, adapters_for_actor) refl
  ]

  revoke-chain :
      (l : String)
      → label_of actor ≡ some l
      → (revoke_everywhere D C label_of id actor action w).1.chain
        ≡ (eac_revoke C (some l) action w.chain).1
  unfolding revoke_everywhere revoke_all local_adapter ens_eac_adapter adapters_for_actor eac_revoke
  revoke-chain l named =
      rw (named, adapters_for_actor) (ap (λ t. (eac_revoke C t action w.chain).1) named)

  revoke-enforced :
      (l : String)
      → label_of actor ≡ some l
      → (revoke_everywhere D C label_of id actor action w).0.enforced ≡ true
      → is_enforced (eac_revoke C (some l) action w.chain).0 ≡ true
  unfolding revoke_everywhere revoke_all local_adapter ens_eac_adapter adapters_for_actor
  revoke-enforced l named h =
      subst (λ t. is_enforced (eac_revoke C t action w.chain).0 ≡ true) named
        (all_refused-last AdapterName.local AdapterName.ens_eac (local_revoke D id w.store).0
          (eac_revoke C (label_of actor) action w.chain).0 (rw (named, adapters_for_actor) at h))

-- Revoking everywhere leaves no capability with that id active or suspended in the store, whatever
-- the chain made of it.
pub revoke_everywhere-store :
    (D : Database) (C : Chain) (label_of : String → Option String) (id actor action : String)
    (w : Boundaries D C) (c : Capability)
    → In c
        (D.capability.rows (revoke_everywhere D C label_of id actor action w).1.store.capabilities)
    → c.id ≡ id
    → IsWithdrawn c.status
revoke_everywhere-store D C label_of id actor action w c m e =
    local_revoke-IsWithdrawn D id w.store c
      (subst (λ s. In c (D.capability.rows s.capabilities))
        (revoke-store D C label_of id actor action w) m)
      e

-- A revocation that reports every boundary withdrawn leaves an actor with a label on the chain
-- without the role: read back from the chain it left, the label does not hold the role of the
-- action.
pub revoke_everywhere-chain :
    (D : Database) (C : Chain) (label_of : String → Option String) (id actor action : String)
    (w : Boundaries D C) (l : String)
    → label_of actor ≡ some l
    → (revoke_everywhere D C label_of id actor action w).0.enforced ≡ true
    → has_on_chain_role C (revoke_everywhere D C label_of id actor action w).1.chain l action
      ≡ returned false
revoke_everywhere-chain D C label_of id actor action w l named h =
    rw (revoke-chain D C label_of id actor action w l named) (
      eac_revoke-not_held C l action w.chain
        (revoke-enforced D C label_of id actor action w l named h))
