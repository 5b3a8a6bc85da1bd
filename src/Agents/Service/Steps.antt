-- ===== src/Agents/Service/Steps.antt =====
-- Every sequence of operations on agents is a sequence of moves of the table
-- (backend/src/agents/agent-service.ts).
use xander.Prelude.{
  ℕ, ◌≡◌, refl, String, Bool, false, Option, none, some, List, [], ◌∷◌, str_eq, Bool-cases, inl,
  inr,
}
use xander.Prelude.Effects.{
  pure, reads, writes, expect, require, ◌>>=◌, ◌>>◌, Keeps, Keeps-pure, Keeps-reads, Keeps-expect,
  Keeps-require, Keeps-bind, Keeps-then,
}
use xander.Capabilities.Types.{CapabilityStatus}
use xander.Capabilities.Store.{Capability, Database}
use xander.Trust.Mutation.{is_held}
use xander.Trust.Signals.{TrustSignalKind}
use xander.Agents.Lifecycle.{AgentStatus, same_status}
use xander.Agents.Service.{
  seed_capabilities, AgentWorld, AgentProgram, find_agent, update_agent, transition,
  begin_verification, freeze_agent, prove_world, prove_liveness, submit_draft, back_agent,
  establish_assurance, lease_allows, unfreeze_agent, revoke_agent, bootstrap_capabilities,
  set_statuses, signal, create_lease, revoke_leases,
}
use xander.Agents.Rows.{
  Agent, AgentError, AgentTables, AssuranceSetting, with_assurance, new_lease, is_suspended_of,
}
use xander.Agents.Service.Moves.{
  here, HasOneStatus, HasMoved, HasMoved-same, HasMoved-join, update-Keeps, transition-run,
}

module _ (D : Database) (T : AgentTables) where
  abbrev Respects : {A : Type 0} → AgentProgram D T A → Type 0
  Respects m = Keeps (HasOneStatus D T) (HasMoved D T) m

  transition-Keeps : (id : String) (to : AgentStatus) → Respects (transition D T id to)
  transition-Keeps id to = record { run = transition-run D T id to }

  bind :
      {A B : Type 0} {m : AgentProgram D T A} {f : A → AgentProgram D T B}
      → Respects m
      → ((a : A) → Respects (f a))
      → Respects (m >>= f)
  bind =
      Keeps-bind AgentError (HasOneStatus D T) (HasMoved D T) (HasMoved-same D T)
        (HasMoved-join D T)

  next :
      {B : Type 0} {m : AgentProgram D T (Unit {0})} {k : AgentProgram D T B}
      → Respects m
      → Respects k
      → Respects (m >> k)
  next =
      Keeps-then AgentError (HasOneStatus D T) (HasMoved D T) (HasMoved-same D T)
        (HasMoved-join D T)

  return : {A : Type 0} (a : A) → Respects (pure a)
  return =
      Keeps-pure AgentError (HasOneStatus D T) (HasMoved D T) (HasMoved-same D T)
        (HasMoved-join D T)

  need : (b : Bool) (e : AgentError) → Respects (require b e)
  need =
      Keeps-require AgentError (HasOneStatus D T) (HasMoved D T) (HasMoved-same D T)
        (HasMoved-join D T)

  looked : {A : Type 0} (f : AgentWorld D T → A) → Respects (reads f)
  looked =
      Keeps-reads AgentError (HasOneStatus D T) (HasMoved D T) (HasMoved-same D T)
        (HasMoved-join D T)

  found :
      {A : Type 0} (f : AgentWorld D T → Option A) (e : AgentError)
      → Respects (λ w. expect (f w) e w)
  found =
      Keeps-expect AgentError (HasOneStatus D T) (HasMoved D T) (HasMoved-same D T)
        (HasMoved-join D T)

  prove_world-Keeps : (id : Option String) → Respects (prove_world D T id)
  unfolding prove_world
  prove_world-Keeps none = return false
  prove_world-Keeps (some id) = elim (Bool-cases (str_eq id "")) [
    | inl empty ↦ rw empty (return false)
    | inr named ↦ rw named (search (bind, next, found, need, return))
  ]

  prove_liveness-Keeps :
      (agent : Agent) (id : Option String) → Respects (prove_liveness D T agent id)
  unfolding prove_liveness
  prove_liveness-Keeps agent none = return false
  prove_liveness-Keeps agent (some id) = elim (Bool-cases (str_eq id "")) [
    | inl empty ↦ rw empty (return false)
    | inr named ↦ rw named (search (bind, next, found, need, return))
  ]

  submit_draft-Keeps : (agent : Agent) → Respects (submit_draft D T agent)
  unfolding submit_draft
  submit_draft-Keeps agent = elim (Bool-cases (same_status agent.status AgentStatus.draft)) [
    | inl draft ↦ rw draft (transition-Keeps agent.id AgentStatus.verifying)
    | inr other ↦ rw other (return agent)
  ]

  -- A write that leaves the agents alone.
  aside :
      (g : AgentWorld D T → AgentWorld D T)
      → ((w : AgentWorld D T) → (g w).agents ≡ w.agents)
      → Respects (writes g)
  aside g e = record {
    run = λ w h. (
      (λ a b ma mb. h a b (rw (e w) at ma) (rw (e w) at mb)),
      (λ a m. (a, rw (e w) at m, refl, here a.status)),
    );
  }

  aside_statuses :
      (p : Capability → Bool) (status : CapabilityStatus)
      → Respects (writes (set_statuses D T p status))
  aside_statuses p status = aside (set_statuses D T p status) (λ w. refl)

  aside_signal :
      (actor : String) (kind : TrustSignalKind) (weight : ℕ)
      → Respects (writes (signal D T actor kind weight))
  aside_signal actor kind weight = aside (signal D T actor kind weight) (λ w. refl)

  assure-Keeps :
      (id lease_id : String) (world : Option String)
      → Respects (writes (update_agent D T id (with_assurance world lease_id)))
  assure-Keeps id lease_id world = record {
    run = λ w h.
        update-Keeps D T id (with_assurance world lease_id) (λ a. refl) (λ a b e. e) w h
          (λ a m e. here a.status);
  }

  back_agent-Keeps :
      (setting : AssuranceSetting) (agent : Agent) (world : Option String) (live : Bool)
      → Respects (back_agent D T setting agent world live)
  unfolding back_agent bootstrap_capabilities seed_capabilities
  back_agent-Keeps setting agent world live = bind (submit_draft-Keeps agent) (λ s.
      next (aside (create_lease D T (new_lease setting agent.actor_id live)) (λ w. refl)) (
        next (assure-Keeps agent.id setting.lease_id world) (
          bind (transition-Keeps agent.id AgentStatus.human_backed) (λ b.
            next (aside_signal agent.actor_id TrustSignalKind.successful_challenge _) (
              next
                (next (need setting.trust_built AgentError.trust_unavailable)
                  (aside (seed_capabilities D T setting agent setting.lease_id) (λ w. refl)))
                (bind (transition-Keeps agent.id AgentStatus.active) (λ a. return _)))))))

  find_agent-Keeps : (id : String) → Respects (find_agent D T id)
  unfolding find_agent
  find_agent-Keeps id =
      found (λ w. T.agent.find_unique (λ a. str_eq a.id id) w.agents) AgentError.no_agent

  establish_assurance-Keeps :
      (setting : AssuranceSetting) (id : String) (world live : Option String)
      → Respects (establish_assurance D T setting id world live)
  unfolding establish_assurance
  establish_assurance-Keeps setting id world live = search (
    bind, next, need, find_agent-Keeps, prove_world-Keeps, prove_liveness-Keeps, back_agent-Keeps,
  )

  freeze_agent-Keeps : (id : String) → Respects (freeze_agent D T id)
  unfolding freeze_agent
  freeze_agent-Keeps id =
      search (bind, next, transition-Keeps, aside_statuses, aside_signal, return)

  unfreeze_agent-Keeps : (now : ℕ) (id : String) → Respects (unfreeze_agent D T now id)
  unfolding unfreeze_agent
  unfreeze_agent-Keeps now id = bind (find_agent-Keeps id) (λ agent.
      bind (looked (lease_allows D T now agent.assurance_lease_id)) (λ allowed.
        next (need allowed AgentError.lease_expired) (
          bind (transition-Keeps id AgentStatus.active) (λ updated.
            next (aside_statuses (is_suspended_of agent.actor_id) CapabilityStatus.active)
              (return updated)))))

  revoke_agent-Keeps : (id : String) → Respects (revoke_agent D T id)
  unfolding revoke_agent
  revoke_agent-Keeps id = bind (transition-Keeps id AgentStatus.revoked) (λ agent.
      next (aside_statuses (is_held agent.actor_id) CapabilityStatus.revoked)
        (next (aside (revoke_leases D T agent.actor_id) (λ w. refl)) (return agent)))

  -- The operations, as one request each; a request may fail.
  pub data AgentCommand : Type 0 where
    begin : String → AgentCommand
    establish : AssuranceSetting → String → Option String → Option String → AgentCommand
    freeze : String → AgentCommand
    unfreeze : ℕ → String → AgentCommand
    revoke : String → AgentCommand

  unfoldable pub run_command : AgentCommand → AgentWorld D T → AgentWorld D T
  run_command (begin id) w = (begin_verification D T id w).1
  run_command (establish setting id world live) w =
      (establish_assurance D T setting id world live w).1
  run_command (freeze id) w = (freeze_agent D T id w).1
  run_command (unfreeze now id) w = (unfreeze_agent D T now id w).1
  run_command (revoke id) w = (revoke_agent D T id w).1

  unfoldable pub run_commands : List AgentCommand → AgentWorld D T → AgentWorld D T
  run_commands [] w = w
  run_commands (c ∷ commands) w = run_commands commands (run_command c w)

  run_command-HasMoved :
      (c : AgentCommand) (w : AgentWorld D T)
      → HasOneStatus D T w
      → HasOneStatus D T (run_command c w) × HasMoved D T w (run_command c w)
  unfolding run_command begin_verification
  run_command-HasMoved (begin id) w h = transition-run D T id AgentStatus.verifying w h
  run_command-HasMoved (establish setting id world live) w h =
      (establish_assurance-Keeps setting id world live).run w h
  run_command-HasMoved (freeze id) w h = (freeze_agent-Keeps id).run w h
  run_command-HasMoved (unfreeze now id) w h = (unfreeze_agent-Keeps now id).run w h
  run_command-HasMoved (revoke id) w h = (revoke_agent-Keeps id).run w h

  -- Whatever is asked of agents that are there (verification, assurance, freezing, unfreezing,
  -- revocation, in any order and however each request ends), the rows with one id agree on their
  -- status if they did, and every agent afterwards is one from before, its status reached from the
  -- status it had by moves that the table of transitions allows.
  pub run_commands-HasMoved :
      (commands : List AgentCommand) (w : AgentWorld D T)
      → HasOneStatus D T w
      → HasOneStatus D T (run_commands commands w) × HasMoved D T w (run_commands commands w)
  unfolding run_commands
  run_commands-HasMoved [] w h = (h, HasMoved-same D T w)
  run_commands-HasMoved (c ∷ commands) w h =
      let (one, first) = run_command-HasMoved c w h in
      let (all, others) = run_commands-HasMoved commands (run_command c w) one in
      (
        all,
        HasMoved-join D T w (run_command c w) (run_commands commands (run_command c w)) first
            others,
      )
