-- ===== src/Capabilities/Store.antt =====
-- Grant, exercise and withdrawal: backend/src/capabilities/capability-service.ts.
-- The database is a parameter; the texts for people (`detail`) and the logging are left out.
use xander.Prelude.{
  ℕ, ◌-◌, ◌*◌, String, Bool, true, false, Option, none, some, List, [], ◌∷◌, ◌&&◌, map, leb,
  if◌then◌else◌, str_eq, ◌||◌, not,
}
use mathlib.Core.List.{head?}
use xander.Prelude.Table.{Table}
use xander.Capabilities.Types.{
  CapabilityStatus, CapabilityType, CapabilityLimits, CapabilityDenial, AssuranceLease,
  within_amount_limit, target_allowed, is_active, is_capability_live, is_lease_live,
}

pub record Capability : Type 0 where
  pub id : String
  pub actor_id : String
  pub capability_type : CapabilityType
  pub action_type : String
  pub resource_scope : String
  pub chain_scope : Option ℕ
  pub amount_limit : Option String
  pub frequency_limit : Option ℕ
  pub frequency_window_seconds : Option ℕ
  pub allowed_targets : List String
  pub expires_at : Option ℕ
  pub status : CapabilityStatus
  pub source_decision_id : Option String
  pub assurance_lease_id : Option String
  pub created_at : ℕ

pub record CapabilityUsage : Type 0 where
  pub capability_id : String
  pub intent_id : Option String
  pub amount : Option String
  pub created_at : ℕ

-- The tables that the service reads and writes.
pub record Database : Type 1 where
  pub capability : Table Capability
  pub usage : Table CapabilityUsage
  pub lease : Table AssuranceLease

pub record GrantInput : Type 0 where
  pub actor_id : String
  pub action_type : String
  pub resource_scope : String
  pub chain_scope : Option ℕ
  pub limits : CapabilityLimits
  pub source_decision_id : Option String
  pub assurance_lease_id : Option String
  pub attenuated : Bool

pub record CheckArgs : Type 0 where
  pub actor_id : String
  pub action_type : String
  pub amount : Option String
  pub target_address : Option String

pub record CapabilityCheck : Type 0 where
  pub allowed : Bool
  pub capability : Option Capability
  pub denial : Option CapabilityDenial

-- The row that `grantCapability` writes; `id` and `now` are the defaults of the database.
unfoldable pub granted_row : GrantInput → String → ℕ → Capability
granted_row input id now = record {
  id = id;
  actor_id = input.actor_id;
  capability_type =
      if input.attenuated then CapabilityType.attenuated_grant else CapabilityType.grant;
  action_type = input.action_type;
  resource_scope = input.resource_scope;
  chain_scope = input.chain_scope;
  amount_limit = input.limits.amount_limit;
  frequency_limit = input.limits.frequency_limit;
  frequency_window_seconds = input.limits.frequency_window_seconds;
  allowed_targets = input.limits.allowed_targets;
  expires_at = input.limits.expires_at;
  status = CapabilityStatus.active;
  source_decision_id = input.source_decision_id;
  assurance_lease_id = input.assurance_lease_id;
  created_at = now;
}

-- The `where` clause of the candidates.
abbrev pub is_candidate : String → String → Capability → Bool
is_candidate actor action c =
    str_eq c.actor_id actor && (str_eq c.action_type action && is_active c.status)

abbrev pub denied : Option Capability → CapabilityDenial → CapabilityCheck
denied c d = record { allowed = false; capability = c; denial = some d }

-- The `where` clause of a revocation: of one action, or of all.
abbrev pub is_revocable : String → Option String → Capability → Bool
is_revocable actor none c = str_eq c.actor_id actor && is_active c.status
is_revocable actor (some action) c =
    str_eq c.actor_id actor
    && (is_active c.status && (str_eq action "" || str_eq c.action_type action))

abbrev pub with_status : CapabilityStatus → Capability → Capability
with_status status c = record c { status = status }

module _ (D : Database) where
  pub record State : Type 0 where
    pub capabilities : D.capability.Db
    pub usages : D.usage.Db
    pub leases : D.lease.Db

  -- `grantCapability`
  unfoldable pub grant_capability : GrantInput → String → ℕ → State → Capability × State
  unfolding granted_row
  grant_capability input id now s =
      let row = granted_row input id now in
      (row, record s { capabilities = D.capability.create row s.capabilities })

  -- The lease that a capability names, if it names one and the row exists.
  unfoldable pub lease_of : State → String → Option AssuranceLease
  lease_of s lease_id = D.lease.find_unique (λ l. str_eq l.id lease_id) s.leases

  -- `if (capability.assuranceLeaseId) { … isLeaseLive … }`
  unfoldable pub assurance_holds : State → ℕ → Option String → Bool
  assurance_holds s now none = true
  assurance_holds s now (some lease_id) =
      if str_eq lease_id "" then true else is_lease_live (lease_of s lease_id) now

  -- How often the capability was used in the window that ends now.
  unfoldable pub used_in_window : State → ℕ → String → ℕ → ℕ
  used_in_window s now id window =
      let since = now - window * 1000 in
      D.usage.count (λ u. str_eq u.capability_id id && leb since u.created_at) s.usages

  -- Only a capability with both a limit and a window is counted.
  unfoldable pub frequency_holds : State → ℕ → String → Option ℕ → Option ℕ → Bool
  frequency_holds s now id (some limit) (some window) =
      not (leb limit (used_in_window s now id window))
  frequency_holds s now id _ _ = true

  -- One round of the loop of `checkCapability`: why the candidate cannot be used, if it cannot.
  unfoldable pub refusal : State → CheckArgs → ℕ → Capability → Option CapabilityDenial
  refusal s args now c =
      if not (is_capability_live c.status c.expires_at now)
      then some CapabilityDenial.capability_expired
      else if not (assurance_holds s now c.assurance_lease_id)
      then some CapabilityDenial.assurance_expired
      else if not (within_amount_limit args.amount c.amount_limit)
      then some CapabilityDenial.amount_exceeded
      else if not (target_allowed args.target_address c.allowed_targets)
      then some CapabilityDenial.target_not_allowed
      else if not (frequency_holds s now c.id c.frequency_limit c.frequency_window_seconds)
      then some CapabilityDenial.frequency_exceeded
      else none

  -- The loop of `checkCapability`, with the last denial so far.
  unfoldable pub check_from :
      State → CheckArgs → ℕ → CapabilityCheck → List Capability → CapabilityCheck
  check_from s args now last [] = last
  check_from s args now last (c ∷ candidates) = elim (refusal s args now c) [
    | none ↦ record { allowed = true; capability = some c; denial = none }
    | some d ↦ check_from s args now (denied (some c) d) candidates
  ]

  unfoldable pub candidates : State → CheckArgs → List Capability
  candidates s args =
      D.capability.find_many (is_candidate args.actor_id args.action_type) (λ c. c.created_at)
        s.capabilities

  -- `checkCapability`
  unfoldable pub check_capability : State → CheckArgs → ℕ → CapabilityCheck
  check_capability s args now =
      check_from s args now (denied none CapabilityDenial.not_found) (candidates s args)

  -- `recordUsage`
  unfoldable pub record_usage : String → Option String → Option String → ℕ → State → State
  record_usage capability_id intent_id amount now s = record s {
    usages =
        D.usage.create
          (record {
            capability_id = capability_id;
            intent_id = intent_id;
            amount = amount;
            created_at = now;
          })
          s.usages;
  }

  -- `listCapabilities`: every row of the actor, newest first, with whether it is live.
  unfoldable pub list_capabilities : State → String → ℕ → List (Capability × Bool)
  list_capabilities s actor now =
      map (λ c. (c, is_capability_live c.status c.expires_at now))
        (D.capability.find_many (λ c. str_eq c.actor_id actor) (λ c. c.created_at) s.capabilities)

  -- `revokeCapabilities`
  unfoldable pub revoke_capabilities : String → Option String → State → ℕ × State
  revoke_capabilities actor action s =
      let (count, db) =
        D.capability.update_many (is_revocable actor action) (with_status CapabilityStatus.revoked)
          s.capabilities in
      (count, record s { capabilities = db })

  -- `suspendCapabilities`
  unfoldable pub suspend_capabilities : String → State → ℕ × State
  suspend_capabilities actor s =
      let (count, db) =
        D.capability.update_many (is_revocable actor none) (with_status CapabilityStatus.suspended)
          s.capabilities in
      (count, record s { capabilities = db })

  -- `getLiveLease`
  unfoldable pub get_live_lease : State → String → ℕ → Option AssuranceLease
  get_live_lease s actor now =
      let lease = head? (
        D.lease.find_many (λ l. str_eq l.actor_id actor && is_active l.status) (λ l. l.expires_at)
          s.leases) in
      if is_lease_live lease now then lease else none
