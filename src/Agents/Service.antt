-- ===== src/Agents/Service.antt =====
-- The operations on agents: backend/src/agents/agent-service.ts. The calls of the chain at the end
-- of an operation (agent-ens.ts) are left out, and so is minting an identity; ids and clocks that
-- the environment gives are arguments. An operation runs with no other request between its steps.
pub mod Moves
pub mod Steps
pub mod Assurance
pub mod Backing
pub mod Laws
mod Tests
use xander.Prelude.{
  ℕ, ◌+◌, ◌*◌, String, Bool, true, false, ◌&&◌, Option, none, some, [], ltb, str_eq, if◌then◌else◌,
}
use xander.Prelude.Text.{append}
use xander.Prelude.Table.{Table}
use xander.Prelude.Effects.{Program, pure, reads, writes, expect, require, ◌>>=◌, ◌>>◌}
use xander.Capabilities.Types.{CapabilityStatus, AssuranceLease, is_active}
use xander.Capabilities.Store.{Capability, Database, State, GrantInput, grant_capability}
use xander.Authorization.Enforcement.Local.{is_suspended}
use xander.Trust.Mutation.{is_exercisable, is_held, update_status}
use xander.Trust.Signals.{TrustSignal, TrustSignalKind, record_trust_signal}
use xander.World.Replay.{Challenge, ChallengeStatus}
use xander.Policy.Challenges.{is_passed}
use xander.Agents.Lifecycle.{AgentStatus, same_status, can_transition}
use xander.Agents.Rows.{
  Agent, AgentError, AgentTables, AssuranceSetting, LivenessChallenge, draft_agent, is_suspended_of,
  lease_of_actor, lease_seconds, level_name, new_lease, seed, still_holds, with_agent_status,
  with_assurance, with_lease_status,
}

module _ (D : Database) (T : AgentTables) where
  pub record AgentWorld : Type 0 where
    pub agents : T.agent.Db
    pub signals : T.signal.Db
    pub challenges : T.challenge.Db
    pub livenesses : T.liveness.Db
    pub store : State D

  abbrev pub AgentProgram : Type 0 → Type 0
  AgentProgram A = Program AgentWorld AgentError A

  -- `findUnique` of the agent, or the error that it is not there
  unfoldable pub find_agent : String → AgentProgram Agent
  find_agent id w =
      expect (T.agent.find_unique (λ a. str_eq a.id id) w.agents) AgentError.no_agent w

  abbrev pub update_agent : String → (Agent → Agent) → AgentWorld → AgentWorld
  update_agent id f w = record w {
    agents = (T.agent.update_many (λ a. str_eq a.id id) f w.agents).1;
  }

  abbrev pub set_statuses : (Capability → Bool) → CapabilityStatus → AgentWorld → AgentWorld
  set_statuses p status w = record w { store = (update_status D p status w.store).1 }

  abbrev pub signal : String → TrustSignalKind → ℕ → AgentWorld → AgentWorld
  signal actor kind weight w = record w {
    signals = record_trust_signal T.signal actor kind weight "agent-service" w.signals;
  }

  -- From the agent on
  unfoldable pub move_agent : AgentStatus → Agent → AgentProgram Agent
  move_agent to agent = if same_status agent.status to then pure agent else (do
    require (can_transition agent.status to) AgentError.illegal_transition
    writes (update_agent agent.id (with_agent_status to))
    pure (with_agent_status to agent))

  -- `transition`
  unfoldable pub transition : String → AgentStatus → AgentProgram Agent
  transition id to = do agent ← find_agent id; move_agent to agent

  -- `createAgent`, once the actor was found
  unfoldable pub create_agent : Bool → String → String → String → ℕ → AgentProgram Agent
  create_agent actor_exists actor_id name id now = do
    let agent = draft_agent actor_id name id now
    require actor_exists AgentError.no_actor
    writes (λ w. record w { agents = T.agent.create agent w.agents })
    pure agent

  -- `beginVerification`
  unfoldable pub begin_verification : String → AgentProgram Agent
  begin_verification id = transition id AgentStatus.verifying

  -- `freezeAgent`
  unfoldable pub freeze_agent : String → AgentProgram Agent
  freeze_agent id = do
    agent ← transition id AgentStatus.frozen
    writes (set_statuses (is_exercisable agent.actor_id) CapabilityStatus.suspended)
    writes (signal agent.actor_id TrustSignalKind.policy_violation 800000)
    pure agent

  -- Whether the named World verification passed; its claimant is not looked at.
  unfoldable pub prove_world : Option String → AgentProgram Bool
  prove_world none = pure false
  prove_world (some id) = if str_eq id "" then pure false else (do
    challenge ← λ w.
        expect (T.challenge.find_unique (λ c. str_eq c.id id) w.challenges)
          AgentError.world_not_passed w
    require (is_passed challenge.status) AgentError.world_not_passed
    pure true)

  -- Whether the named liveness challenge passed; it has to be one of the agent's actor.
  unfoldable pub prove_liveness : Agent → Option String → AgentProgram Bool
  prove_liveness agent none = pure false
  prove_liveness agent (some id) = if str_eq id "" then pure false else (do
    challenge ← λ w.
        expect (T.liveness.find_unique (λ c. str_eq c.id id) w.livenesses)
          AgentError.liveness_not_passed w
    require (is_passed challenge.status) AgentError.liveness_not_passed
    require (str_eq challenge.actor_id agent.actor_id) AgentError.liveness_of_other_actor
    pure true)

  -- `if (agent.status === 'DRAFT') await transition(…)`
  unfoldable pub submit_draft : Agent → AgentProgram Agent
  submit_draft agent =
      if same_status agent.status AgentStatus.draft
      then transition agent.id AgentStatus.verifying
      else pure agent

  abbrev pub create_lease : AssuranceLease → AgentWorld → AgentWorld
  create_lease lease w = record w {
    store = record (w.store) { leases = D.lease.create lease w.store.leases };
  }

  -- The two seeds, each under the lease.
  unfoldable pub seed_capabilities : AssuranceSetting → Agent → String → AgentWorld → AgentWorld
  seed_capabilities setting agent lease_id w =
      let claims =
        grant_capability D (seed agent lease_id "CLAIM" 10) setting.claim_capability_id setting.now
          w.store in
      let requests =
        grant_capability D (seed agent lease_id "API_REQUEST" 100) setting.api_capability_id
          setting.now claims.1 in
      record w { store = requests.1 }

  -- `bootstrapCapabilities`; the snapshot that the trust context leaves is not a row of this state
  unfoldable pub bootstrap_capabilities :
      AssuranceSetting → Agent → String → AgentProgram (Unit {0})
  bootstrap_capabilities setting agent lease_id = do
    require setting.trust_built AgentError.trust_unavailable
    writes (seed_capabilities setting agent lease_id)

  -- `establishAssurance`, once both proofs were read
  unfoldable pub back_agent :
      AssuranceSetting → Agent → Option String → Bool → AgentProgram (Agent × AssuranceLease)
  back_agent setting agent world_challenge_id liveness_verified = do
    let lease = new_lease setting agent.actor_id liveness_verified
    submitted ← submit_draft agent
    writes (create_lease lease)
    writes (update_agent agent.id (with_assurance world_challenge_id setting.lease_id))
    backed ← transition agent.id AgentStatus.human_backed
    writes (
        signal agent.actor_id TrustSignalKind.successful_challenge
          (if liveness_verified then 1000000 else 600000))
    bootstrap_capabilities setting agent setting.lease_id
    active ← transition agent.id AgentStatus.active
    pure (active, lease)

  -- `establishAssurance`
  unfoldable pub establish_assurance :
      AssuranceSetting
      → String
      → Option String
      → Option String
      → AgentProgram (Agent × AssuranceLease)
  establish_assurance setting id world_challenge_id liveness_challenge_id = do
    agent ← find_agent id
    world_verified ← prove_world world_challenge_id
    liveness_verified ← prove_liveness agent liveness_challenge_id
    require world_verified AgentError.world_required
    back_agent setting agent world_challenge_id liveness_verified

  -- `if (agent.assuranceLeaseId) { … }`
  unfoldable pub lease_allows : ℕ → Option String → AgentWorld → Bool
  lease_allows now none w = true
  lease_allows now (some lease_id) w =
      if str_eq lease_id ""
      then true
      else (elim (D.lease.find_unique (λ l. str_eq l.id lease_id) w.store.leases) [
        | none ↦ false
        | some lease ↦ still_holds now lease
      ])

  -- `unfreezeAgent`
  unfoldable pub unfreeze_agent : ℕ → String → AgentProgram Agent
  unfreeze_agent now id = do
    agent ← find_agent id
    allowed ← reads (lease_allows now agent.assurance_lease_id)
    require allowed AgentError.lease_expired
    updated ← transition id AgentStatus.active
    writes (set_statuses (is_suspended_of agent.actor_id) CapabilityStatus.active)
    pure updated

  abbrev pub revoke_leases : String → AgentWorld → AgentWorld
  revoke_leases actor w = record w {
    store = record (w.store) {
      leases =
          (D.lease.update_many (lease_of_actor actor) (with_lease_status CapabilityStatus.revoked)
            w.store.leases).1;
    };
  }

  -- `revokeAgent`
  unfoldable pub revoke_agent : String → AgentProgram Agent
  revoke_agent id = do
    agent ← transition id AgentStatus.revoked
    writes (set_statuses (is_held agent.actor_id) CapabilityStatus.revoked)
    writes (revoke_leases agent.actor_id)
    pure agent
