-- ===== src/Agents/Service/Tests.antt =====
-- One agent through its life, and the theorems at that state.
use xander.Prelude.{
  true, ◌≢◌, ◌≡◌, refl, false, none, some, List, [], ◌∷◌, In, inl, inr, eq_iff, arith, Bool,
}
use xander.Prelude.Memory.{memory}
use xander.Prelude.Effects.{returns, throws}
use xander.Capabilities.Types.{AssuranceLease, CapabilityStatus, CapabilityDenial}
use xander.Prelude.Text.{append}
use xander.Capabilities.Store.{Capability, grant_capability, denied, check_capability}
use xander.Capabilities.Tests.{database, state, args}
use xander.Trust.Mutation.{update_status}
use xander.Trust.Signals.{record_trust_signal}
use xander.World.Replay.{Challenge, ChallengeStatus}
use xander.Agents.Lifecycle.{AgentStatus, can_transition}
use xander.Agents.Service.{
  seed_capabilities, AgentWorld, find_agent, move_agent, transition, freeze_agent, unfreeze_agent,
  establish_assurance, prove_world, prove_liveness, submit_draft, back_agent, begin_verification,
  bootstrap_capabilities, lease_allows,
}
use xander.Agents.Rows.{Agent, AgentError, AgentTables, AssuranceSetting, new_lease}
use xander.Agents.Service.Moves.{HasOneStatus, HasMoved, agent_rows}
use xander.Agents.Service.Steps.{
  AgentCommand, begin, freeze, unfreeze, run_commands, run_command, run_commands-HasMoved,
}
use xander.Agents.Service.Laws.{freeze_agent-check, IsVouched, unfreeze_agent-IsVouched}
use xander.Agents.Service.Assurance.{IsLeaseFor, IsPastBacking, HasPassedWorld, IsLevelProven}
use xander.Agents.Service.Backing.{establish_assurance_sound, establish_assurance_refused}

abbrev tables : AgentTables
tables = record { agent = memory; signal = memory; challenge = memory; liveness = memory }

abbrev agent_in : AgentStatus → Agent
agent_in status = record {
  id = "agent-1";
  actor_id = "alice";
  name = "alpha";
  status = status;
  world_challenge_id = none;
  assurance_lease_id = some "lease-1";
  created_at = 10;
}

abbrev proof : Challenge
proof = record {
  id = "challenge-1";
  claim_id = "claim-1";
  created_at = 5;
  world_action_id = "action-1";
  nullifier = some 7;
  rp_id = none;
  status = ChallengeStatus.passed;
  resolved_at = some 6;
}

abbrev world : AgentStatus → AgentWorld database tables
world status = record {
  agents = agent_in status ∷ [];
  signals = [];
  challenges = proof ∷ [];
  livenesses = [];
  store = state;
}

one_status : (status : AgentStatus) → HasOneStatus database tables (world status)
one_status status a b (inl ea) (inl eb) same = rw (ea, eb) refl
one_status status a b (inr none_left) m same = absurd none_left
one_status status a b (inl ea) (inr none_left) same = absurd none_left

-- What each operation makes of the agent.
after_freeze : AgentWorld database tables
unfolding freeze_agent transition find_agent move_agent can_transition update_status
    record_trust_signal
after_freeze = (freeze_agent database tables "agent-1" (world AgentStatus.active)).1

frozen :
    freeze_agent database tables "agent-1" (world AgentStatus.active)
    ≡ (returns (agent_in AgentStatus.frozen), after_freeze)
unfolding freeze_agent transition find_agent move_agent can_transition update_status
    record_trust_signal after_freeze
frozen = refl

freeze_agent-check_example :
    check_capability database after_freeze.store args 200 ≡ denied none CapabilityDenial.not_found
freeze_agent-check_example =
    freeze_agent-check database tables "agent-1" (world AgentStatus.active) after_freeze
      (agent_in AgentStatus.frozen) args 200 frozen refl

abbrev commands : List (AgentCommand database tables)
commands = freeze "agent-1" ∷ unfreeze 100 "agent-1" ∷ begin "agent-1" ∷ []

run_commands-HasMoved_example :
    HasOneStatus database tables (run_commands database tables commands (world AgentStatus.active))
    × HasMoved database tables
        (world AgentStatus.active)
        (run_commands database tables commands (world AgentStatus.active))
run_commands-HasMoved_example =
    run_commands-HasMoved database tables commands (world AgentStatus.active)
      (one_status AgentStatus.active)

still_there :
    In (agent_in AgentStatus.revoked) (
      agent_rows database tables
        (run_commands database tables commands (world AgentStatus.revoked)))
unfolding run_commands run_command freeze_agent unfreeze_agent transition find_agent move_agent
    can_transition lease_allows update_status record_trust_signal begin_verification
still_there = inl refl

after_unfreeze : AgentWorld database tables
unfolding unfreeze_agent transition find_agent move_agent can_transition update_status lease_allows
after_unfreeze = (unfreeze_agent database tables 100 "agent-1" (world AgentStatus.frozen)).1

unfrozen_then :
    unfreeze_agent database tables 100 "agent-1" (world AgentStatus.frozen)
    ≡ (returns (agent_in AgentStatus.active), after_unfreeze)
unfolding unfreeze_agent transition find_agent move_agent can_transition update_status lease_allows
    after_unfreeze
unfrozen_then = refl

unfreeze_agent-IsVouched_example :
    (agent : Agent) × In agent (agent_rows database tables (world AgentStatus.frozen))
    × (agent.id ≡ "agent-1")
    × IsVouched database tables 100 agent.assurance_lease_id (world AgentStatus.frozen)
    × ((c : Capability)
        → In c after_unfreeze.store.capabilities
        → c.actor_id ≡ agent.actor_id
        → c.status ≢ CapabilityStatus.suspended)
unfreeze_agent-IsVouched_example =
    unfreeze_agent-IsVouched database tables 100 "agent-1" (world AgentStatus.frozen) after_unfreeze
      (agent_in AgentStatus.active) unfrozen_then

abbrev setting : AssuranceSetting
setting = record {
  now = 100;
  lease_id = "lease-2";
  claim_capability_id = "cap-2";
  api_capability_id = "cap-3";
  world_only_seconds = 3600;
  world_plus_active_seconds = 43200;
  trust_built = true;
}

after_backing : AgentWorld database tables
unfolding establish_assurance find_agent prove_world prove_liveness back_agent submit_draft
    transition move_agent can_transition record_trust_signal bootstrap_capabilities
    seed_capabilities grant_capability append
after_backing =
    (establish_assurance database tables setting "agent-1" (some "challenge-1") none
      (world AgentStatus.draft)).1

abbrev backed : Agent
backed = record (agent_in AgentStatus.active) {
  world_challenge_id = some "challenge-1";
  assurance_lease_id = some "lease-2";
}

established :
    establish_assurance database tables setting "agent-1"
      (some "challenge-1")
      none
      (world AgentStatus.draft)
    ≡ (returns (backed, new_lease setting "alice" false), after_backing)
unfolding establish_assurance find_agent prove_world prove_liveness back_agent submit_draft
    transition move_agent can_transition record_trust_signal bootstrap_capabilities
    seed_capabilities grant_capability append after_backing
established = refl

establish_assurance_sound_example :
    (agent : Agent) × (level : Bool) × In agent
      (agent_rows database tables (world AgentStatus.draft))
    × (agent.id ≡ "agent-1")
    × HasPassedWorld database tables (some "challenge-1") (world AgentStatus.draft)
    × IsLevelProven database tables level none agent.actor_id (world AgentStatus.draft)
    × IsLeaseFor setting level agent.actor_id (new_lease setting "alice" false)
    × In (new_lease setting "alice" false) after_backing.store.leases
establish_assurance_sound_example =
    establish_assurance_sound database tables setting "agent-1" (some "challenge-1") none
      (world AgentStatus.draft) after_backing backed (new_lease setting "alice" false) established

establish_assurance_refused_example :
    ((establish_assurance database tables setting "agent-1"
        (some "challenge-1")
        none
        (world AgentStatus.revoked)).0
      ≡ throws AgentError.illegal_transition)
    × ((lease : AssuranceLease) × IsLeaseFor setting false "alice" lease
        × In lease
            (establish_assurance database tables setting "agent-1"
              (some "challenge-1")
              none
              (world AgentStatus.revoked)).1.store.leases)
establish_assurance_refused_example =
    establish_assurance_refused database tables setting "agent-1" "challenge-1" none false
      (world AgentStatus.revoked) (agent_in AgentStatus.revoked) proof
      (one_status AgentStatus.revoked) refl IsPastBacking.revoked refl refl
      (ground (arith, eq_iff "challenge-1" "")) refl
