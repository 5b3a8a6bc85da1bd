-- ===== src/Agents/Service/Laws.antt =====
-- What the operations on agents guarantee (backend/src/agents/agent-service.ts).
use xander.Prelude.{
  ◌≢◌, In-map_inv, ℕ, ◌<◌, ◌≡◌, ◌⊎◌, refl, sym, ◌∙◌, ap, String, Bool, true, false, Option, none,
  some, List, eq_iff, str_eq, In, Bool-cases, Option-cases, inl, inr, arith,
}
use xander.Prelude.Effects.{returns-inj, Outcome, returns, require, proceed-returns}
use xander.Capabilities.Types.{CapabilityStatus, CapabilityDenial, AssuranceLease, is_active}
use xander.Capabilities.Store.{Capability, Database, CheckArgs, denied, check_capability}
use xander.Trust.Mutation.{is_exercisable, update_status}
use xander.Trust.Mutation.Laws.{inactive-check, update_status-inactive, is_exercisable-covers}
use xander.Agents.Lifecycle.{AgentStatus, can_transition}
use xander.Agents.Service.{
  set_statuses, AgentWorld, find_agent, transition, freeze_agent, lease_allows, unfreeze_agent,
}
use xander.Agents.Rows.{is_suspended_of, Agent, AgentError, AgentTables, still_holds}
use xander.Agents.Service.Moves.{Reach, here, move, HasOneStatus, agent_rows}
use xander.Agents.Service.Steps.{AgentCommand, run_commands, run_commands-HasMoved}

from_revoked : (a b : AgentStatus) → Reach a b → a ≡ AgentStatus.revoked → b ≡ AgentStatus.revoked
unfolding can_transition
from_revoked a b (here _) e = e
from_revoked a b (move _ c _ h r) e = absurd (cc (rw e at h))

is_active_eq : (s : CapabilityStatus) → is_active s ≡ true → s ≡ CapabilityStatus.active
is_active_eq CapabilityStatus.active h = refl
is_active_eq _ h = absurd (cc h)

module _ (D : Database) (T : AgentTables) where
  -- A revoked agent stays revoked, whatever is done with it and with other agents afterwards.
  pub run_commands-revoked :
      (commands : List (AgentCommand D T)) (w : AgentWorld D T) (a b : Agent)
      → HasOneStatus D T w
      → In a (agent_rows D T w)
      → a.status ≡ AgentStatus.revoked
      → In b (agent_rows D T (run_commands D T commands w))
      → b.id ≡ a.id
      → b.status ≡ AgentStatus.revoked
  run_commands-revoked commands w a b one ma gone mb same =
      let (c, mc, ec, reached) = (run_commands-HasMoved D T commands w one).1 b mb in
      from_revoked c.status b.status reached (one c a mc ma (ec ∙ same) ∙ gone)

  -- After an agent was frozen, every check of its actor, for whatever action and at whatever time,
  -- finds no capability at all.
  pub freeze_agent-check :
      (id : String) (w v : AgentWorld D T) (agent : Agent) (args : CheckArgs) (now : ℕ)
      → freeze_agent D T id w ≡ (returns agent, v)
      → args.actor_id ≡ agent.actor_id
      → check_capability D v.store args now ≡ denied none CapabilityDenial.not_found
  unfolding freeze_agent
  freeze_agent-check id w v agent args now h e =
      let (a, u, moved, rest) =
        proceed-returns (transition D T id AgentStatus.frozen w) _ agent v h in
      let same : a ≡ agent = cc rest in
      let after : v.store
          ≡ (update_status D (is_exercisable a.actor_id) CapabilityStatus.suspended u.store).1 =
        sym (ap (λ (p : Outcome AgentError Agent × AgentWorld D T). p.1.store) rest) in
      rw after (
        inactive-check D
          (update_status D (is_exercisable a.actor_id) CapabilityStatus.suspended u.store).1
          a.actor_id
          (update_status-inactive a.actor_id (is_exercisable a.actor_id) CapabilityStatus.suspended
            (is_exercisable-covers a.actor_id) (λ x. cc) D u.store)
          args now (e ∙ ap (λ (x : Agent). x.actor_id) (sym same)))

  -- What vouches for an agent: the lease that it names, there, active and not over. An agent that
  -- names none, or one without a text, needs none.
  abbrev pub IsVouched : ℕ → Option String → AgentWorld D T → Type 0
  IsVouched now none w = Unit
  IsVouched now (some lease_id) w =
      (lease_id ≡ "")
      ⊎ ((lease : AssuranceLease) × In lease (D.lease.rows w.store.leases)
          × (lease.id ≡ lease_id)
          × (lease.status ≡ CapabilityStatus.active)
          × (now < lease.expires_at))

  lease_allows-IsVouched :
      (now : ℕ) (named : Option String) (w : AgentWorld D T)
      → lease_allows D T now named w ≡ true
      → IsVouched now named w
  unfolding lease_allows
  lease_allows-IsVouched now none w h = tt
  lease_allows-IsVouched now (some lease_id) w h = elim (Bool-cases (str_eq lease_id "")) [
    | inl empty ↦ inl ((eq_iff lease_id "").0 empty)
    | inr named ↦
        elim (Option-cases (D.lease.find_unique (λ l. str_eq l.id lease_id) w.store.leases)) [
          | inl missing ↦ absurd (cc (rw (named, missing) at h))
          | inr (lease, found) ↦
              let (there, wanted) = D.lease.find_unique-some _ w.store.leases lease found in
              let holds : still_holds now lease ≡ true = rw (named, found) at h in
              inr (
                lease,
                there,
                (eq_iff lease.id lease_id).0 wanted,
                is_active_eq lease.status (ground arith),
                ground arith,
              )
        ]
  ]

  pub require-returns :
      (b : Bool) (e : AgentError) (w v : AgentWorld D T) (u : Unit {0})
      → require b e w ≡ (returns u, v)
      → (b ≡ true) × (w ≡ v)
  require-returns true e w v u h =
      (refl, ap (λ (p : Outcome AgentError (Unit {0}) × AgentWorld D T). p.1) h)
  require-returns false e w v u h = absurd (cc h)

  pub find_agent-returns :
      (id : String) (w v : AgentWorld D T) (agent : Agent)
      → find_agent D T id w ≡ (returns agent, v)
      → (w ≡ v) × In agent (agent_rows D T w) × (agent.id ≡ id)
  unfolding find_agent
  find_agent-returns id w v agent h =
      elim (Option-cases (T.agent.find_unique (λ a. str_eq a.id id) w.agents)) [
        | inl missing ↦ absurd (cc (rw missing at h))
        | inr (a, found) ↦
            let (there, wanted) = T.agent.find_unique-some _ w.agents a found in
            let e : (returns a, w) ≡ (returns agent, v) = rw found at h in
            let same : a ≡ agent = cc e in
            (
              ap (λ (p : Outcome AgentError Agent × AgentWorld D T). p.1) e,
              rw (← same) there,
              rw (← same) ((eq_iff a.id id).0 wanted),
            )
      ]

  restored-not_suspended :
      (actor : String) (w : AgentWorld D T) (c : Capability)
      → In c (
          D.capability.rows
            (set_statuses D T (is_suspended_of actor) CapabilityStatus.active w).store.capabilities)
      → c.actor_id ≡ actor
      → c.status ≢ CapabilityStatus.suspended
  unfolding update_status
  restored-not_suspended actor w c m e gone =
      let (k, there, same) =
        In-map_inv _ _ c (rw (D.capability.update_many-rows _ _ w.store.capabilities) at m) in
      elim (Bool-cases (is_suspended_of actor k)) [
        | inl hit ↦
            let live : c.status ≡ CapabilityStatus.active =
              ap (λ (x : Capability). x.status) same ∙ rw hit refl in
            cc (sym live ∙ gone)
        | inr miss ↦
            let as_it_was : c ≡ k = same ∙ rw miss refl in
            let own : k.actor_id ≡ actor = rw as_it_was at e in
            let held : k.status ≡ CapabilityStatus.suspended = rw as_it_was at gone in
            let hit : is_suspended_of actor k ≡ true =
              rw (own, held, (eq_iff actor actor).1 refl) refl in
            cc (sym miss ∙ hit)
      ]

  -- An agent that names a lease is unfrozen only if that lease is on file, active and not over;
  -- nothing of the kind is asked of an agent that names none, or an empty text. After either, no
  -- capability of the actor is suspended.
  pub unfreeze_agent-IsVouched :
      (now : ℕ) (id : String) (w v : AgentWorld D T) (updated : Agent)
      → unfreeze_agent D T now id w ≡ (returns updated, v)
      → (agent : Agent) × In agent (agent_rows D T w)
        × (agent.id ≡ id)
        × IsVouched now agent.assurance_lease_id w
        × ((c : Capability)
            → In c (D.capability.rows v.store.capabilities)
            → c.actor_id ≡ agent.actor_id
            → c.status ≢ CapabilityStatus.suspended)
  unfolding unfreeze_agent
  unfreeze_agent-IsVouched now id w v updated h =
      let (agent, w1, found, rest) = proceed-returns (find_agent D T id w) _ updated v h in
      let (same, there, named) = find_agent-returns id w w1 agent found in
      let (u, w2, allowed, last) =
        proceed-returns
          (require (lease_allows D T now agent.assurance_lease_id w1) AgentError.lease_expired w1) _
          updated v rest in
      let (moved, w3, _, done) =
        proceed-returns (transition D T id AgentStatus.active w2) _ updated v last in
      let after : v ≡ set_statuses D T (is_suspended_of agent.actor_id) CapabilityStatus.active w3 =
        sym (returns-inj moved updated _ v done).1 in
      (
        agent,
        there,
        named,
        lease_allows-IsVouched now agent.assurance_lease_id w
            (rw same (require-returns _ _ w1 w2 u allowed).0),
        rw after (restored-not_suspended agent.actor_id w3),
      )
