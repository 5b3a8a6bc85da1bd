-- ===== src/Authorization/Enforcement/EnsEac/Laws.antt =====
-- What the answers of the ENS boundary mean on the chain
-- (backend/src/authorization/enforcement/ens-eac-adapter.ts).
use xander.Prelude.{ℕ, ◌≡◌, refl, String, Bool, true, false, not, some, Option-cases, inl, inr, ◌⊎◌}
use xander.Ens.Roles.{agent_role_for_action}
use xander.Authorization.Enforcement.Adapter.{is_enforced}
use xander.Authorization.Enforcement.EnsEac.{
  Attempt, Chain, threw, returned, eac_verdict, inspect_verdict, has_on_chain_role, revoke_role,
  eac_revoke,
}

pub Attempt-cases : {A : Type 0} (a : Attempt A) → (a ≡ threw) ⊎ ((x : A) × (a ≡ returned x))
Attempt-cases threw = inl refl
Attempt-cases (returned x) = inr (x, refl)

eac_verdict-not :
    (answer : Attempt Bool) (tx : String)
    → is_enforced (eac_verdict answer not tx) ≡ true
    → answer ≡ returned false
unfolding eac_verdict is_enforced
eac_verdict-not threw tx h = absurd (cc)
eac_verdict-not (returned true) tx h = absurd (cc)
eac_verdict-not (returned false) tx h = refl

pub inspect_verdict-true :
    (answer : Attempt Bool)
    → (inspect_verdict answer).enforceable ≡ some true
    → answer ≡ returned true
unfolding inspect_verdict
inspect_verdict-true threw h = absurd (cc)
inspect_verdict-true (returned true) h = refl
inspect_verdict-true (returned false) h = absurd (cc)

module _ (C : Chain) (label action : String) (w : C.World) where
  revoke_role-not_held :
      (role : ℕ)
      → is_enforced (revoke_role C w label action role).0 ≡ true
      → has_on_chain_role C (revoke_role C w label action role).1 label action ≡ returned false
  unfolding revoke_role is_enforced eac_verdict
  revoke_role-not_held role h = elim (Attempt-cases (C.revoke_roles w label role).0) [
    | inl e ↦ absurd (cc (rw (e, revoke_role) at h))
    | inr (tx, e) ↦ rw (e, revoke_role) (eac_verdict-not _ tx (rw (e, revoke_role) at h))
  ]

  pub eac_revoke-not_held :
      is_enforced (eac_revoke C (some label) action w).0 ≡ true
      → has_on_chain_role C (eac_revoke C (some label) action w).1 label action ≡ returned false
  unfolding eac_revoke has_on_chain_role
  eac_revoke-not_held h = elim (Option-cases (agent_role_for_action action)) [
    | inl e ↦ rw (e, eac_revoke) (rw (e, has_on_chain_role) refl)
    | inr (role, e) ↦ rw (e, eac_revoke) (revoke_role-not_held role (rw (e, eac_revoke) at h))
  ]
