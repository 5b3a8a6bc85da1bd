-- ===== src/Agents/Service/Backing.antt =====
-- Establishing assurance, from its proofs to the lease (`establishAssurance` of
-- backend/src/agents/agent-service.ts).
use xander.Prelude.{
  inl, ◌≡◌, ◌≢◌, sym, ◌∙◌, ap, String, Bool, true, false, Option, some, eq_iff, str_eq, In, arith,
  if◌then◌else◌,
}
use xander.Prelude.Effects.{Outcome, returns, throws, require, proceed-returns, returns-inj}
use xander.Capabilities.Types.{AssuranceLease}
use xander.Capabilities.Store.{State, Database}
use xander.World.Replay.{Challenge}
use xander.Policy.Challenges.{is_passed}
use xander.Agents.Service.{
  AgentWorld, find_agent, transition, prove_world, prove_liveness, submit_draft, back_agent,
  establish_assurance, create_lease, update_agent, bootstrap_capabilities, signal,
}
use xander.Agents.Rows.{Agent, AgentError, AgentTables, AssuranceSetting, new_lease, with_assurance}
use xander.Agents.Lifecycle.{AgentStatus}
use xander.Trust.Signals.{TrustSignalKind}
use xander.Agents.Service.Moves.{HasOneStatus, agent_rows}
use xander.Agents.Service.Assurance.{
  bootstrap_capabilities-leases, IsLeaseFor, new_lease-IsLeaseFor, transition-store,
  IsLivenessClear, prove_liveness-clear, IsPastBacking, HasPassedWorld, IsLevelProven,
  prove_world-returns, prove_liveness-returns, back_agent-refused,
}
use xander.Agents.Service.Laws.{find_agent-returns, require-returns}

module _ (D : Database) (T : AgentTables) where
  -- The lease that is given back, and that it is on file.
  back_agent-lease :
      (setting : AssuranceSetting) (agent a : Agent) (world : Option String) (live : Bool)
      (w v : AgentWorld D T) (lease : AssuranceLease)
      → back_agent D T setting agent world live w ≡ (returns (a, lease), v)
      → (lease ≡ new_lease setting agent.actor_id live) × In lease (D.lease.rows v.store.leases)
  unfolding back_agent
  back_agent-lease setting agent a world live w v lease h =
      let (_, w1, _, h1) = proceed-returns (submit_draft D T agent w) _ (a, lease) v h in
      let leased =
        update_agent D T agent.id (with_assurance world setting.lease_id)
          (create_lease D T (new_lease setting agent.actor_id live) w1) in
      let (_, w2, backed, h2) =
        proceed-returns (transition D T agent.id AgentStatus.human_backed leased) _ (a, lease) v
          h1 in
      let signaled =
        signal D T agent.actor_id TrustSignalKind.successful_challenge
          (if live then 1000000 else 600000) w2 in
      let (_, granted, booted, h2b) =
        proceed-returns (bootstrap_capabilities D T setting agent setting.lease_id signaled) _
          (a, lease) v h2 in
      let (_, w3, active, h3) =
        proceed-returns (transition D T agent.id AgentStatus.active granted) _ (a, lease) v h2b in
      let (pair, after) =
        returns-inj (_, new_lease setting agent.actor_id live) (a, lease) w3 v h3 in
      let same : lease ≡ new_lease setting agent.actor_id live =
        sym (ap (λ (p : Agent × AssuranceLease). p.1) pair) in
      let kept : w2.store ≡ leased.store =
        sym (ap (λ (p : Outcome AgentError Agent × AgentWorld D T). p.1.store) backed)
        ∙ transition-store D T agent.id AgentStatus.human_backed leased in
      let kept_then : granted.store.leases ≡ w2.store.leases =
        sym (ap (λ (p : Outcome AgentError (Unit {0}) × AgentWorld D T). p.1.store.leases) booted)
        ∙ bootstrap_capabilities-leases D T setting agent setting.lease_id signaled in
      let kept_again : w3.store ≡ granted.store =
        sym (ap (λ (p : Outcome AgentError Agent × AgentWorld D T). p.1.store) active)
        ∙ transition-store D T agent.id AgentStatus.active granted in
      let leases : v.store.leases ≡ leased.store.leases =
        ap (λ (u : AgentWorld D T). u.store.leases) (sym after)
        ∙ (ap (λ (s : State D). s.leases) kept_again
            ∙ (kept_then ∙ ap (λ (s : State D). s.leases) kept)) in
      (
        same,
        rw (leases, D.lease.create-rows (new_lease setting agent.actor_id live) w1.store.leases)
            (inl same),
      )

  -- If assurance was established, the agent is there, the World verification that was named exists
  -- and passed, and the lease is on file, active and the agent's actor's, and ends after the time
  -- of its level from now. The level is the higher one, WORLD_PLUS_ACTIVE, only if the liveness challenge that was named exists, passed and is one of the
  -- same actor.
  pub establish_assurance_sound :
      (setting : AssuranceSetting) (id : String) (world live : Option String) (w v : AgentWorld D T)
      (a : Agent) (lease : AssuranceLease)
      → establish_assurance D T setting id world live w ≡ (returns (a, lease), v)
      → (agent : Agent) × (level : Bool) × In agent (agent_rows D T w)
        × (agent.id ≡ id)
        × HasPassedWorld D T world w
        × IsLevelProven D T level live agent.actor_id w
        × IsLeaseFor setting level agent.actor_id lease
        × In lease (D.lease.rows v.store.leases)
  unfolding establish_assurance
  establish_assurance_sound setting id world live w v a lease h =
      let (agent, w1, found, h1) = proceed-returns (find_agent D T id w) _ (a, lease) v h in
      let (e1, there, named) = find_agent-returns D T id w w1 agent found in
      let (passed, w2, proved, h2) = proceed-returns (prove_world D T world w1) _ (a, lease) v h1 in
      let (level, w3, lived, h3) =
        proceed-returns (prove_liveness D T agent live w2) _ (a, lease) v h2 in
      let (u, w4, needed, h4) =
        proceed-returns (require passed AgentError.world_required w3) _ (a, lease) v h3 in
      let yes = (require-returns D T passed AgentError.world_required w3 w4 u needed).0 in
      let (world_passed, e2) = prove_world-returns D T world w1 w2 (rw yes at proved) in
      let (live_passed, _) = prove_liveness-returns D T agent live w2 w3 level lived in
      let (made, stored) = back_agent-lease setting agent a world level w4 v lease h4 in
      (
        agent,
        level,
        there,
        named,
        rw e1 world_passed,
        rw (e1 ∙ e2) live_passed,
        rw made (new_lease-IsLeaseFor setting agent.actor_id level),
        stored,
      )

  -- Assurance asked for an agent that is active, restricted, frozen or revoked is refused as an
  -- illegal move, once a passed World verification was named, with no liveness challenge or with one
  -- of the actor that passed; but a new lease of the actor, active and with the terms of the level,
  -- has been written by then and stays.
  pub establish_assurance_refused :
      (setting : AssuranceSetting) (id world : String) (live : Option String) (level : Bool)
      (w : AgentWorld D T) (agent : Agent) (c : Challenge)
      → HasOneStatus D T w
      → T.agent.find_unique (λ a. str_eq a.id id) w.agents ≡ some agent
      → IsPastBacking agent.status
      → T.challenge.find_unique (λ k. str_eq k.id world) w.challenges ≡ some c
      → is_passed c.status ≡ true
      → world ≢ ""
      → IsLivenessClear D T live agent.actor_id level w
      → ((establish_assurance D T setting id (some world) live w).0
          ≡ throws AgentError.illegal_transition)
        × ((lease : AssuranceLease) × IsLeaseFor setting level agent.actor_id lease
            × In lease (
                D.lease.rows
                  (establish_assurance D T setting id (some world) live w).1.store.leases))
  unfolding establish_assurance find_agent prove_world
  establish_assurance_refused setting id world live level w agent c one found past proof passed
        named clear =
      let other : str_eq world "" ≡ false = ground (arith, eq_iff world "") in
      let (thrown, stored) =
        back_agent-refused D T setting agent (some world) level w one
          (T.agent.find_unique-some _ w.agents agent found).0 past in
      let lived = prove_liveness-clear D T agent live level w clear in
      rw (found, other, proof, passed, lived)
        (
          thrown,
          (
            new_lease setting agent.actor_id level,
            new_lease-IsLeaseFor setting agent.actor_id level,
            stored,
          ),
        )
