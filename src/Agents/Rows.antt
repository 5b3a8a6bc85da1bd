-- ===== src/Agents/Rows.antt =====
-- The rows and arguments of backend/src/agents/agent-service.ts, and what its steps write.
use xander.Prelude.{
  ℕ, ◌+◌, ◌*◌, String, Bool, false, ◌&&◌, Option, none, some, [], ltb, str_eq, if◌then◌else◌,
}
use xander.Prelude.Text.{append}
use xander.Prelude.Table.{Table}
use xander.Capabilities.Types.{CapabilityStatus, AssuranceLease, is_active}
use xander.Capabilities.Store.{Capability, GrantInput}
use xander.Authorization.Enforcement.Local.{is_suspended}
use xander.Trust.Signals.{TrustSignal}
use xander.World.Replay.{Challenge, ChallengeStatus}
use xander.Agents.Lifecycle.{AgentStatus}

pub record Agent : Type 0 where
  pub id : String
  pub actor_id : String
  pub name : String
  pub status : AgentStatus
  pub world_challenge_id : Option String
  pub assurance_lease_id : Option String
  pub created_at : ℕ

-- The columns of `LivenessChallenge` that the functions here read.
pub record LivenessChallenge : Type 0 where
  pub id : String
  pub actor_id : String
  pub status : ChallengeStatus

-- The messages of `AgentError`, and the error of `buildTrustContext`.
pub data AgentError : Type 0 where
  no_actor no_agent illegal_transition world_not_passed liveness_not_passed : AgentError
  liveness_of_other_actor world_required lease_expired trust_unavailable : AgentError

pub record AgentTables : Type 1 where
  pub agent : Table Agent
  pub signal : Table TrustSignal
  pub challenge : Table Challenge
  pub liveness : Table LivenessChallenge

-- What the environment gives to `establishAssurance`: the clock, the new ids, the configuration, and
-- whether the trust context of the actor can be built.
pub record AssuranceSetting : Type 0 where
  pub now : ℕ
  pub lease_id : String
  pub claim_capability_id : String
  pub api_capability_id : String
  pub world_only_seconds : ℕ
  pub world_plus_active_seconds : ℕ
  pub trust_built : Bool

-- The row that `createAgent` writes.
abbrev pub draft_agent : String → String → String → ℕ → Agent
draft_agent actor_id name id now = record {
  id = id;
  actor_id = actor_id;
  name = name;
  status = AgentStatus.draft;
  world_challenge_id = none;
  assurance_lease_id = none;
  created_at = now;
}

abbrev pub with_agent_status : AgentStatus → Agent → Agent
with_agent_status status a = record a { status = status }

abbrev pub with_assurance : Option String → String → Agent → Agent
with_assurance world_challenge_id lease_id a = record a {
  world_challenge_id = world_challenge_id;
  assurance_lease_id = some lease_id;
}

abbrev pub level_name : Bool → String
level_name liveness_verified = if liveness_verified then "WORLD_PLUS_ACTIVE" else "WORLD_ONLY"

abbrev pub lease_seconds : AssuranceSetting → Bool → ℕ
lease_seconds setting liveness_verified =
    if liveness_verified then setting.world_plus_active_seconds else setting.world_only_seconds

abbrev pub new_lease : AssuranceSetting → String → Bool → AssuranceLease
new_lease setting actor_id liveness_verified = record {
  id = setting.lease_id;
  actor_id = actor_id;
  level = level_name liveness_verified;
  status = CapabilityStatus.active;
  expires_at = setting.now + lease_seconds setting liveness_verified * 1000;
}

-- One of the `seedActions` of `bootstrapCapabilities`.
abbrev pub seed : Agent → String → String → ℕ → GrantInput
seed agent lease_id action_type frequency = record {
  actor_id = agent.actor_id;
  action_type = action_type;
  resource_scope = append "agent:" agent.id;
  chain_scope = none;
  limits = record {
    amount_limit = none;
    frequency_limit = some frequency;
    frequency_window_seconds = some 86400;
    allowed_targets = [];
    expires_at = none;
  };
  source_decision_id = none;
  assurance_lease_id = some lease_id;
  attenuated = false;
}

-- Not expired, as `unfreezeAgent` asks of the lease.
abbrev pub still_holds : ℕ → AssuranceLease → Bool
still_holds now lease = is_active lease.status && ltb now lease.expires_at

-- The `where` clause of giving suspended capabilities back.
abbrev pub is_suspended_of : String → Capability → Bool
is_suspended_of actor c = str_eq c.actor_id actor && is_suspended c.status

abbrev pub lease_of_actor : String → AssuranceLease → Bool
lease_of_actor actor lease = str_eq lease.actor_id actor && is_active lease.status

abbrev pub with_lease_status : CapabilityStatus → AssuranceLease → AssuranceLease
with_lease_status status lease = record lease { status = status }
