-- ===== src/Lib.antt =====
-- Xander decides what an actor (a wallet or an agent) may do, and carries it out only with
-- proof that it may. This library models the core of its backend and proves what makes it
-- correct.
--
-- The parts, by file, with the code they are about:
--   Capabilities (backend/src/capabilities): Types and Amounts are capability-types.ts; Store
--     is capability-service.ts, one function per function of the service (grant_capability,
--     check_capability, record_usage, list_capabilities, revoke_capabilities,
--     suspend_capabilities, get_live_lease); Check, Withdraw and Exercise are about them.
--   Authorization.Request and Authorization.Rules (backend/src/authorization):
--     policy-evaluator.ts and rule-engine.ts (rule_matches, select_rule, limits_for,
--     apply_rule, evaluate_rules).
--   Authorization.Cache (backend/src/authorization/native-policy-evaluator.ts):
--     loadActiveRules, resetPolicyCache and NativePolicyEvaluator.evaluate.
--   Authorization.Enforcement (backend/src/authorization/enforcement): Adapter, Local and
--     EnsEac are the two boundaries, Service asks and revokes at all of them
--     (verify_enforcement, revoke_everywhere), Execution is executeAuthorizedAction.
--   Ens.Roles (backend/src/ens/eac-roles.ts): the bitmaps of roles of the registry contract.
--   Incidents (backend/src/incidents/incident-types.ts): Severity is severityRank,
--     initialMitigation and deterministicAction; Recommendation is actionRank and
--     reconcileRecommendation; Status is TRANSITIONS, canTransition and isClosed.
--   Incidents.Service (backend/src/incidents/incident-service.ts): openIncident,
--     raiseOperatorAction, contain, applyMitigation, decideIncident and resolveIncident;
--     Mitigating, Still and Laws are about them.
--   Agents (backend/src/agents/agent-service.ts): Lifecycle is ALLOWED_TRANSITIONS and
--     canTransition; Service is createAgent, beginVerification, establishAssurance,
--     freezeAgent, unfreezeAgent and revokeAgent; Moves and Steps follow an agent through the
--     table, Assurance, Backing and Laws are about single operations.
--   Control (backend/src/control): Auth is the checks of operator-auth.ts; Pending is
--     createPendingAction and listPendingActions of control-service.ts, Decide is
--     decidePendingAction with applyCommand, deny and audit (Nonce, Laws and Effect are about
--     it), and Sessions is openSession, authenticate and closeSession.
--   Authorization.Enforcement.Sweep: the loop over the capabilities of an actor that
--     incident-service.ts and control-service.ts share.
--   Trust.Signals (backend/src/trust/trust-history.ts, trust-types.ts): the kinds of signals
--     and recordTrustSignal.
--   Trust (backend/src/trust): Vector is trust-types.ts and trust-vector.ts (dimension,
--     classifyFreshness, deriveBand, bootstrapVector), with Bands about them; Mutation is
--     trust-mutation.ts (bandSeverity, decideConsequence, attenuatedLimit, applyConsequence,
--     applyTrustMutation); Execution joins it to the execution boundary.
--   Policy.Engine (backend/src/policy/policy-engine.ts): resolveThresholds, bandFor and decide,
--     with Bands about them; Policy.Challenges is issueOrReuseChallenge of the same file.
--   Risk.Thresholds (backend/src/risk/scoring.ts): validateThresholds and bandFor.
--   Intents (backend/src/intent): Rows are the arguments and rows of intent-service.ts,
--     Authorize is its authorize and persistDecision, with Route, Granted and Laws about them;
--     Create is createIntent and findByIdempotencyKey.
--   Claims.Orchestrator (backend/src/claim/orchestrator.ts, with writeEvidenceReceipt of
--     backend/src/policy/evidence-receipt.ts): getOrCreateClaim, screenClaim and its
--     transaction (settle_claim), verifyClaim, finalizeClaim and reissueChallenge, with Laws
--     and Proofs about them.
--   Payments (backend/src/x402): Authorizations is paymentMatchesRequirements and
--     authorizationIsCurrent of x402-types.ts; Matching describes a payment that answers a
--     request and Guards relates the description to the code; Service is authorizePaidRequest
--     and allowanceRemaining of x402-service.ts, with Paid, Laws and Served about them.
--   World.Binding (backend/src/world/wallet-binding.ts): the signal that binds a proof to a
--     wallet and a claim, with Laws about it.
--   World.Replay (backend/src/world/replay-protection.ts): nullifierToDecimalString and
--     recordNullifier, with Rows and Laws about them.
--   Hardening.Dependencies (backend/src/hardening/dependency-policy.ts): the table of
--     dependencies, policyFor and canAuthorizeWithout.
--   The modules named Rows hold the arguments, rows and results of the service beside them and
--     the guards on them alone (Agents.Rows, Claims.Rows, Control.Rows, Incidents.Rows,
--     Intents.Rows, Payments.Rows, World.Replay.Rows).
--   Prelude: the shared names and lemmas, the interface of a table (Table), a table in memory
--     that meets it (Memory), reads of an object literal by a free text (Dictionary), bigints
--     as texts (Decimal), and handlers that read, write and throw (Effects).
--
-- How they interact: a claim is decided by the first policy, and where that asks for it a
-- challenge is issued, whose proof is bound to the claim and used once before the claim is
-- finalized; an intent is authorized by the first policy (Policy.Engine, which may hold it),
-- the trust context and the rules, in this order, and a decision that allows or limits it
-- grants a capability with limits; the execution boundary checks that capability again, asks
-- every boundary that governs the actor (the capabilities once more, and the chain through
-- Ens.Roles), and only then calls the executor and records the use. A paid request takes the
-- same way: a granted intent, a capability, a payment that matches, and the boundaries once
-- more before the money moves. When trust falls, a mutation withdraws or narrows the
-- capabilities, which the next check and the next execution see. An incident withdraws or
-- narrows them at every boundary and asks an operator; freezing an agent suspends them, and its
-- lease vouches for what it may do.
--
-- How the code is represented. The database client is a parameter: a Table per model, with the
-- calls that the code makes and their documented behaviour as laws, which the table in memory
-- meets. The chain is a parameter without laws (Chain), and so is what the environment and the
-- agents say of an actor's ENS label. Where the code awaits, other requests may run: Execution
-- gives every step a state and a clock of its own (Moments), and so does Intents (Readings, and
-- the two states of Create); the loads of the policy cache are taken one after the other. The
-- boundaries that one verification asks see one state of the database and of the chain. The
-- handlers of Agents, Incidents, Control, Claims and Payments run with no other request between
-- their steps, as programs over one state; what they wrote before they throw stays written,
-- since the code opens no transaction there. Times are natural numbers of milliseconds; amounts
-- are the texts of the source, read as natural numbers; scores, thresholds and trust dimensions
-- are natural numbers of millionths. A status or effect column is an enumeration with a case
-- for any other text. No model uses fuel: every loop is over a list. Texts for people (detail,
-- reason, summary) and logging are left out.
--
-- Not modelled: HTTP routes, network clients, the workflow engine, cryptography, the
-- investigation agent, the frontend, the indexers, and those parts of the backend that no file
-- above names.
pub mod Prelude
pub mod Capabilities
pub mod Claims
pub mod Control
pub mod Agents
pub mod Authorization
pub mod Ens
pub mod Incidents
pub mod Trust
pub mod Payments
pub mod Policy
pub mod Intents
pub mod World
pub mod Hardening
pub mod Risk
