-- ===== src/Agents/Lifecycle.antt =====
-- The statuses of an agent and the moves between them: `AGENT_STATUSES`, `ALLOWED_TRANSITIONS` and
-- `canTransition` of backend/src/agents/agent-service.ts. The column holds what the service writes.
use xander.Prelude.{ℕ, Bool, List, [], ◌∷◌, any, ◌==◌}

pub data AgentStatus : Type 0 where
  draft verifying human_backed active restricted frozen revoked : AgentStatus

abbrev pub status_index : AgentStatus → ℕ
status_index AgentStatus.draft = 0
status_index AgentStatus.verifying = 1
status_index AgentStatus.human_backed = 2
status_index AgentStatus.active = 3
status_index AgentStatus.restricted = 4
status_index AgentStatus.frozen = 5
status_index AgentStatus.revoked = 6

abbrev pub same_status : AgentStatus → AgentStatus → Bool
same_status a b = status_index a == status_index b

-- `ALLOWED_TRANSITIONS`
abbrev pub allowed_transitions : AgentStatus → List AgentStatus
allowed_transitions AgentStatus.draft = AgentStatus.verifying ∷ AgentStatus.revoked ∷ []
allowed_transitions AgentStatus.verifying =
    AgentStatus.human_backed ∷ AgentStatus.draft ∷ AgentStatus.revoked ∷ []
allowed_transitions AgentStatus.human_backed =
    AgentStatus.active ∷ AgentStatus.frozen ∷ AgentStatus.revoked ∷ []
allowed_transitions AgentStatus.active =
    AgentStatus.restricted ∷ AgentStatus.frozen ∷ AgentStatus.revoked ∷ []
allowed_transitions AgentStatus.restricted =
    AgentStatus.active ∷ AgentStatus.frozen ∷ AgentStatus.revoked ∷ []
allowed_transitions AgentStatus.frozen =
    AgentStatus.active ∷ AgentStatus.restricted ∷ AgentStatus.revoked ∷ []
allowed_transitions AgentStatus.revoked = []

-- `canTransition`
unfoldable pub can_transition : AgentStatus → AgentStatus → Bool
can_transition from to = any (same_status to) (allowed_transitions from)
