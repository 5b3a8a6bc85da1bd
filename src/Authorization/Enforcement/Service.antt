-- ===== src/Authorization/Enforcement/Service.antt =====
-- Every boundary that governs an actor, asked together:
-- backend/src/authorization/enforcement/enforcement-service.ts. The resolution of an actor to its
-- ENS label (`resolveEnsTarget`) reads the configuration and the agents, and is a parameter.
pub mod Laws
use xander.Prelude.{
  ℕ, String, Bool, true, false, not, ◌&&◌, Option, none, some, List, [], ◌∷◌, ◌++◌, map, filter,
  any, all, is_none, str_eq, if◌then◌else◌,
}
use xander.Capabilities.Types.{is_active}
use xander.Capabilities.Store.{Capability, Database, State, CheckArgs}
use xander.Authorization.Enforcement.Adapter.{
  AdapterName, EnforcementResult, CapabilityState, is_enforced,
}
use xander.Authorization.Enforcement.Local.{local_revoke, local_inspect}
use xander.Authorization.Enforcement.EnsEac.{Chain, eac_revoke, eac_inspect}

-- The interface `EnforcementAdapter`, over the state that the boundaries share; the two calls that
-- the service makes of it.
pub record EnforcementAdapter (W : Type 0) : Type 0 where
  pub name : AdapterName
  pub inspect : W → CheckArgs → ℕ → CapabilityState
  -- of a capability's id, its actor and its action
  pub revoke : String → String → String → W → EnforcementResult × W

pub record EnforcementVerdict : Type 0 where
  pub enforced : Bool
  pub states : List CapabilityState
  pub adapters : List AdapterName

abbrev pub is_refused : CapabilityState → Bool
is_refused state = elim state.enforceable [ none ↦ false | some answer ↦ not answer ]

abbrev pub is_silent : CapabilityState → Bool
is_silent state = is_none state.enforceable

abbrev pub is_empty : {A : Type 0} → List A → Bool
is_empty [] = true
is_empty (_ ∷ _) = false

-- `refused.length === 0 && silent.length === 0 && states.length > 0`
unfoldable pub all_confirm : List CapabilityState → Bool
all_confirm states =
    is_empty (filter is_refused states)
    && (is_empty (filter is_silent states) && not (is_empty states))

-- What a revocation leaves: `result.outcome === 'CONFIRMED' ? false : null`.
unfoldable pub revoked_state_of : AdapterName → EnforcementResult → CapabilityState
revoked_state_of name result = record {
  enforceable = if is_enforced result then some false else none;
  adapter = name;
}

module _ {W : Type 0} where
  unfoldable pub names : List (EnforcementAdapter W) → List AdapterName
  names adapters = map (λ a. a.name) adapters

  -- The loop of `verifyEnforcement`
  unfoldable pub inspect_all :
      List (EnforcementAdapter W) → W → CheckArgs → ℕ → List CapabilityState
  inspect_all adapters w args now = map (λ a. a.inspect w args now) adapters

  -- The loop of `revokeEverywhere`: each boundary acts on what the one before it left.
  unfoldable pub revoke_all :
      List (EnforcementAdapter W) → String → String → String → W → List CapabilityState × W
  revoke_all [] id actor action w = ([], w)
  revoke_all (a ∷ adapters) id actor action w =
      let (result, w1) = a.revoke id actor action w in
      let (states, w2) = revoke_all adapters id actor action w1 in
      (revoked_state_of a.name result ∷ states, w2)

module _ (D : Database) (C : Chain) where
  pub record Boundaries : Type 0 where
    pub store : State D
    pub chain : C.World

  unfoldable pub local_adapter : EnforcementAdapter Boundaries
  local_adapter = record {
    name = AdapterName.local;
    inspect = λ w args now. local_inspect D w.store args now;
    revoke = λ id actor action w. (
      (local_revoke D id w.store).0,
      record { store = (local_revoke D id w.store).1; chain = w.chain },
    );
  }

  -- The label of an actor, if it has one, is looked up at each call.
  unfoldable pub ens_eac_adapter : (String → Option String) → EnforcementAdapter Boundaries
  ens_eac_adapter label_of = record {
    name = AdapterName.ens_eac;
    inspect = λ w args now. eac_inspect C (label_of args.actor_id) args.action_type w.chain;
    revoke = λ id actor action w. (
      (eac_revoke C (label_of actor) action w.chain).0,
      record { store = w.store; chain = (eac_revoke C (label_of actor) action w.chain).1 },
    );
  }

  -- `adaptersForActor`
  unfoldable pub adapters_for_actor :
      (String → Option String) → String → List (EnforcementAdapter Boundaries)
  adapters_for_actor label_of actor = elim (label_of actor) [
    | none ↦ local_adapter ∷ []
    | some label ↦ local_adapter ∷ ens_eac_adapter label_of ∷ []
  ]

  -- `verifyEnforcement`
  unfoldable pub verify_enforcement :
      (String → Option String) → Boundaries → CheckArgs → ℕ → EnforcementVerdict
  verify_enforcement label_of w args now =
      let adapters = adapters_for_actor label_of args.actor_id in
      let states = inspect_all adapters w args now in
      record { enforced = all_confirm states; states = states; adapters = names adapters }

  -- `revokeEverywhere`
  unfoldable pub revoke_everywhere :
      (String → Option String)
      → String
      → String
      → String
      → Boundaries
      → EnforcementVerdict × Boundaries
  revoke_everywhere label_of id actor action w =
      let adapters = adapters_for_actor label_of actor in
      let (states, after) = revoke_all adapters id actor action w in
      (
        record { enforced = all is_refused states; states = states; adapters = names adapters },
        after,
      )
