-- ===== src/Authorization/Enforcement/Sweep.antt =====
-- Withdrawing or narrowing one capability after the other: the loops over an actor's capabilities in
-- backend/src/incidents/incident-service.ts and backend/src/control/control-service.ts.
pub mod Laws
use xander.Prelude.{ℕ, String, Option, List, [], ◌∷◌}
use xander.Prelude.Table.{Table}
use xander.Capabilities.Store.{Capability, Database, State}
use xander.Trust.Mutation.{is_held}
use xander.Authorization.Enforcement.EnsEac.{Chain}
use xander.Authorization.Enforcement.Service.{Boundaries, revoke_everywhere}

module _ (D : Database) (C : Chain) (label_of : String → Option String) where
  -- `for (const capability of capabilities) await revokeEverywhere(…)`
  unfoldable pub revoke_each : String → List Capability → Boundaries D C → Boundaries D C
  revoke_each actor [] w = w
  revoke_each actor (c ∷ cs) w =
      revoke_each actor cs (revoke_everywhere D C label_of c.id actor c.action_type w).1

  -- The capabilities of an actor that are active or suspended, as they are read before the loop.
  abbrev pub held_by : String → Boundaries D C → List Capability
  held_by actor w = D.capability.find_many (is_held actor) (λ c. c.created_at) w.store.capabilities
