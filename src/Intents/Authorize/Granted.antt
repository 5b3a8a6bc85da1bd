-- ===== src/Intents/Authorize/Granted.antt =====
-- What the capability is that `authorize` of backend/src/intent/intent-service.ts grants.
use xander.Prelude.{ℕ, ◌+◌, ◌*◌, refl, String, Bool, [], ◌≡◌, Option, none, some}
use xander.Capabilities.Types.{CapabilityStatus, AssuranceLease}
use xander.Capabilities.Store.{Capability, granted_row}
use xander.Authorization.Rules.{expiry_of, Rule, limits_for}
use xander.Intents.Rows.{lease_id_of, Request, grant_input}

-- When a capability ends, by the lifetime of its rule.
abbrev pub EndsAfter : Option ℕ → ℕ → Option ℕ → Type 0
EndsAfter none now ends = ends ≡ none
EndsAfter (some ttl) now ends = ends ≡ some (now + ttl * 1000)

-- The lease that backs a capability.
abbrev pub IsBackedBy : Option AssuranceLease → Option String → Type 0
IsBackedBy none named = named ≡ none
IsBackedBy (some lease) named = named ≡ some lease.id

-- A capability for the actor and the action of a request, within the bounds of a rule.
pub record IsGrantOf (request : Request) (rule : Rule) (now : ℕ) (lease : Option AssuranceLease)
    (decision : String) (c : Capability) : Type 0 where
  pub actor : c.actor_id ≡ request.actor.id
  pub action : c.action_type ≡ request.action_type
  pub chain : c.chain_scope ≡ request.chain_id
  pub live : c.status ≡ CapabilityStatus.active
  pub ceiling : c.amount_limit ≡ rule.limit_amount
  pub rate : c.frequency_limit ≡ rule.limit_frequency
  pub window : c.frequency_window_seconds ≡ rule.limit_window_seconds
  pub targets : c.allowed_targets ≡ []
  pub ends : EndsAfter rule.capability_ttl_seconds now c.expires_at
  pub backed : IsBackedBy lease c.assurance_lease_id
  pub decided : c.source_decision_id ≡ some decision

limits_for-EndsAfter :
    (rule : Rule) (ttl : Option ℕ) (now : ℕ)
    → ttl ≡ rule.capability_ttl_seconds
    → EndsAfter ttl now (limits_for rule now).expires_at
unfolding limits_for expiry_of
limits_for-EndsAfter rule none now e = rw (← e) refl
limits_for-EndsAfter rule (some ttl) now e = rw (← e) refl

lease_id_of-IsBackedBy : (lease : Option AssuranceLease) → IsBackedBy lease (lease_id_of lease)
lease_id_of-IsBackedBy none = refl
lease_id_of-IsBackedBy (some lease) = refl

pub granted_row-IsGrantOf :
    (request : Request) (rule : Rule) (now time : ℕ) (lease : Option AssuranceLease)
    (decision id : String) (attenuated : Bool)
    → IsGrantOf request rule now lease decision
        (granted_row (grant_input request (limits_for rule now) decision lease attenuated) id time)
unfolding granted_row grant_input limits_for
granted_row-IsGrantOf request rule now time lease decision id attenuated = record {
  actor = refl;
  action = refl;
  chain = refl;
  live = refl;
  ceiling = refl;
  rate = refl;
  window = refl;
  targets = refl;
  ends = limits_for-EndsAfter rule rule.capability_ttl_seconds now refl;
  backed = lease_id_of-IsBackedBy lease;
  decided = refl;
}
