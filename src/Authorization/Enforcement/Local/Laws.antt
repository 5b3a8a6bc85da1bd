-- ===== src/Authorization/Enforcement/Local/Laws.antt =====
-- What a local revocation by id leaves behind (`revoke` of
-- backend/src/authorization/enforcement/local-adapter.ts).
use xander.Prelude.{
  ◌≡◌, refl, String, false, ◌||◌, arith, eq_iff, In, In-map_inv, Bool-cases, inl, inr,
}
use xander.Prelude.Table.{patch}
use xander.Capabilities.Types.{CapabilityStatus, is_active}
use xander.Capabilities.Store.{Capability, Database, State, with_status}
use xander.Authorization.Enforcement.Local.{
  is_withdrawable, is_suspended, revoked_state, local_revoke,
}

-- Neither active nor suspended: nothing that a later step could exercise or bring back.
abbrev pub IsWithdrawn : CapabilityStatus → Type 0
IsWithdrawn status = (is_active status || is_suspended status) ≡ false

patch-IsWithdrawn :
    (id : String) (c : Capability)
    → (patch (is_withdrawable id) (with_status CapabilityStatus.revoked) c).id ≡ id
    → IsWithdrawn (patch (is_withdrawable id) (with_status CapabilityStatus.revoked) c).status
patch-IsWithdrawn id c e = elim (Bool-cases (is_withdrawable id c)) [
  | inl hit ↦ rw hit refl
  | inr miss ↦ rw miss (ground (arith, eq_iff c.id id))
]

pub local_revoke-IsWithdrawn :
    (D : Database) (id : String) (s : State D) (c : Capability)
    → In c (D.capability.rows (local_revoke D id s).1.capabilities)
    → c.id ≡ id
    → IsWithdrawn c.status
unfolding local_revoke revoked_state
local_revoke-IsWithdrawn D id s c m e =
    let (k, there, same) =
      In-map_inv _ _ c (rw (D.capability.update_many-rows _ _ s.capabilities) at m) in
    rw same (patch-IsWithdrawn id k (rw same at e))
