-- ===== src/Agents/Service/Assurance.antt =====
-- What establishing assurance rests on, and what a refusal leaves behind (`establishAssurance` of
-- backend/src/agents/agent-service.ts).
use xander.Capabilities.Types.{CapabilityStatus, AssuranceLease}
use xander.Prelude.{
  ◌≢◌, ◌⊎◌, ◌+◌, ◌*◌, arith, ◌≡◌, refl, sym, ◌∙◌, ap, String, Bool, true, false, Option, none, some,
  eq_iff, str_eq, In, In-map, In-map_inv, All-In, Bool-cases, Option-cases, inl, inr,
}
use xander.Prelude.Table.{patch}
use xander.Prelude.Effects.{Outcome, returns, throws, returns-inj}
use xander.Capabilities.Store.{grant_capability, Database}
use xander.World.Replay.{Challenge}
use xander.Policy.Challenges.{is_passed}
use xander.Agents.Lifecycle.{AgentStatus, same_status, can_transition}
use xander.Agents.Service.{
  bootstrap_capabilities, seed_capabilities, AgentWorld, find_agent, move_agent, transition,
  prove_world, prove_liveness, submit_draft, back_agent, update_agent, create_lease,
}
use xander.Agents.Rows.{
  Agent, LivenessChallenge, AgentError, AgentTables, AssuranceSetting, with_assurance, new_lease,
}
use xander.Agents.Service.Moves.{HasOneStatus, agent_rows}

-- A status from which an agent cannot be backed by a human again.
pub data IsPastBacking : AgentStatus → Type 0 where
  active : IsPastBacking AgentStatus.active
  restricted : IsPastBacking AgentStatus.restricted
  frozen : IsPastBacking AgentStatus.frozen
  revoked : IsPastBacking AgentStatus.revoked

past-facts :
    (s : AgentStatus)
    → IsPastBacking s
    → (same_status s AgentStatus.draft ≡ false)
      × (same_status s AgentStatus.human_backed ≡ false)
      × (can_transition s AgentStatus.human_backed ≡ false)
unfolding can_transition
past-facts _ active = (refl, refl, refl)
past-facts _ restricted = (refl, refl, refl)
past-facts _ frozen = (refl, refl, refl)
past-facts _ revoked = (refl, refl, refl)

-- The level of a lease and its end: the lease runs from now for the seconds of its level.
abbrev pub HasTerms : AssuranceSetting → Bool → AssuranceLease → Type 0
HasTerms setting true lease =
    (lease.level ≡ "WORLD_PLUS_ACTIVE")
    × (lease.expires_at ≡ setting.now + setting.world_plus_active_seconds * 1000)
HasTerms setting false lease =
    (lease.level ≡ "WORLD_ONLY")
    × (lease.expires_at ≡ setting.now + setting.world_only_seconds * 1000)

-- An active lease of an actor with the terms of its level.
abbrev pub IsLeaseFor : AssuranceSetting → Bool → String → AssuranceLease → Type 0
IsLeaseFor setting level actor lease =
    (lease.id ≡ setting.lease_id)
    × (lease.actor_id ≡ actor)
    × (lease.status ≡ CapabilityStatus.active)
    × HasTerms setting level lease

pub new_lease-IsLeaseFor :
    (setting : AssuranceSetting) (actor : String) (level : Bool)
    → IsLeaseFor setting level actor (new_lease setting actor level)
new_lease-IsLeaseFor setting actor true = (refl, refl, refl, (refl, refl))
new_lease-IsLeaseFor setting actor false = (refl, refl, refl, (refl, refl))

module _ (world : Option String) (lease_id id : String) (a : Agent) where
  assured : Agent
  assured = patch (λ r. str_eq r.id id) (with_assurance world lease_id) a

  assured-facts : (assured.id ≡ a.id) × (assured.status ≡ a.status)
  unfolding assured
  assured-facts = elim (Bool-cases (str_eq a.id id)) [
    | inl hit ↦ rw hit (refl, refl)
    | inr miss ↦ rw miss (refl, refl)
  ]

module _ (D : Database) (T : AgentTables) where
  -- Every row of the agent is past its backing, and there is one.
  transition-refused :
      (id : String) (w : AgentWorld D T) (a : Agent)
      → In a (agent_rows D T w)
      → a.id ≡ id
      → ((b : Agent) → In b (agent_rows D T w) → b.id ≡ id → IsPastBacking b.status)
      → transition D T id AgentStatus.human_backed w ≡ (throws AgentError.illegal_transition, w)
  unfolding transition find_agent move_agent
  transition-refused id w a there named past =
      elim (Option-cases (T.agent.find_unique (λ r. str_eq r.id id) w.agents)) [
        | inl missing ↦ absurd (
            cc (
              sym (
                All-In (λ (r : Agent). str_eq r.id id ≡ false) (T.agent.rows w.agents) a
                  (T.agent.find_unique-none (λ r. str_eq r.id id) w.agents missing) there)
              ∙ (eq_iff a.id id).1 named))
        | inr (b, found) ↦
            let (mb, wanted) = T.agent.find_unique-some _ w.agents b found in
            let (_, other, illegal) = past-facts b.status (past b mb ((eq_iff b.id id).0 wanted)) in
            rw (found, other, illegal) refl
      ]

  -- The agents after the lease was written and named.
  assured-past :
      (world : Option String) (lease_id id : String) (w : AgentWorld D T)
      → ((b : Agent) → In b (agent_rows D T w) → b.id ≡ id → IsPastBacking b.status)
      → (b : Agent) → In b (agent_rows D T (update_agent D T id (with_assurance world lease_id) w))
      → b.id ≡ id
      → IsPastBacking b.status
  unfolding assured
  assured-past world lease_id id w past b m e =
      let (a, there, same) = In-map_inv _ _ b (rw (T.agent.update_many-rows _ _ w.agents) at m) in
      let (ids, statuses) = assured-facts world lease_id id a in
      let back : b.status ≡ a.status = ap (λ (r : Agent). r.status) same ∙ statuses in
      rw back (past a there (sym ids ∙ (sym (ap (λ (r : Agent). r.id) same) ∙ e)))

  pub back_agent-refused :
      (setting : AssuranceSetting) (agent : Agent) (world : Option String) (live : Bool)
      (w : AgentWorld D T)
      → HasOneStatus D T w
      → In agent (agent_rows D T w)
      → IsPastBacking agent.status
      → ((back_agent D T setting agent world live w).0 ≡ throws AgentError.illegal_transition)
        × In
            (new_lease setting agent.actor_id live)
            (D.lease.rows (back_agent D T setting agent world live w).1.store.leases)
  unfolding back_agent submit_draft assured
  back_agent-refused setting agent world live w one there past =
      let lease = new_lease setting agent.actor_id live in
      let w1 = create_lease D T lease w in
      let w2 = update_agent D T agent.id (with_assurance world setting.lease_id) w1 in
      let a = patch (λ r. str_eq r.id agent.id) (with_assurance world setting.lease_id) agent in
      let stopped : transition D T agent.id AgentStatus.human_backed w2
          ≡ (throws AgentError.illegal_transition, w2) =
        transition-refused agent.id w2 a
          (rw
            (T.agent.update_many-rows (λ r. str_eq r.id agent.id)
              (with_assurance world setting.lease_id) w.agents)
            (In-map (patch (λ r. str_eq r.id agent.id) (with_assurance world setting.lease_id)) _
              agent there))
          (assured-facts world setting.lease_id agent.id agent).0
          (assured-past world setting.lease_id agent.id w1
            (λ b m e. rw (one b agent m there e) past)) in
      let fresh = (past-facts agent.status past).0 in
      rw (fresh, stopped) (refl, rw (D.lease.create-rows lease w.store.leases) (inl refl))

  -- A World verification that exists and passed. Whose it is, is not asked.
  abbrev pub HasPassedWorld : Option String → AgentWorld D T → Type 0
  HasPassedWorld none w = ⊥
  HasPassedWorld (some id) w =
      (c : Challenge) × In c (T.challenge.rows w.challenges)
      × (c.id ≡ id)
      × (is_passed c.status ≡ true)

  -- A liveness challenge that exists, passed, and is one of the actor.
  abbrev pub HasPassedLiveness : Option String → String → AgentWorld D T → Type 0
  HasPassedLiveness none actor w = ⊥
  HasPassedLiveness (some id) actor w =
      (c : LivenessChallenge) × In c (T.liveness.rows w.livenesses)
      × (c.id ≡ id)
      × (is_passed c.status ≡ true)
      × (c.actor_id ≡ actor)

  -- What the higher level of assurance asks for in addition.
  abbrev pub IsLevelProven : Bool → Option String → String → AgentWorld D T → Type 0
  IsLevelProven true named actor w = HasPassedLiveness named actor w
  IsLevelProven false named actor w = Unit

  -- A liveness challenge that does not stop a request: none is named, or the one that is named passed
  -- and is one of the actor, which gives the higher level.
  abbrev pub IsLivenessClear : Option String → String → Bool → AgentWorld D T → Type 0
  IsLivenessClear none actor level w = level ≡ false
  IsLivenessClear (some id) actor level w =
      ((id ≡ "") × (level ≡ false))
      ⊎ ((id ≢ "")
          × (level ≡ true)
          × (c : LivenessChallenge) × (T.liveness.find_unique (λ k. str_eq k.id id) w.livenesses
              ≡ some c)
          × (is_passed c.status ≡ true)
          × (c.actor_id ≡ actor))

  pub prove_liveness-clear :
      (agent : Agent) (named : Option String) (level : Bool) (w : AgentWorld D T)
      → IsLivenessClear named agent.actor_id level w
      → prove_liveness D T agent named w ≡ (returns level, w)
  unfolding prove_liveness
  prove_liveness-clear agent none level w low = rw low refl
  prove_liveness-clear agent (some id) level w (inl (empty, low)) =
      rw ((eq_iff id "").1 empty, low) refl
  prove_liveness-clear agent (some id) level w (inr (given, high, c, found, passed, own)) =
      let other : str_eq id "" ≡ false = ground (arith, eq_iff id "") in
      rw (other, found, passed, (eq_iff c.actor_id agent.actor_id).1 own, high) refl

  pub transition-store :
      (id : String) (to : AgentStatus) (w : AgentWorld D T)
      → (transition D T id to w).1.store ≡ w.store
  unfolding transition find_agent move_agent
  transition-store id to w =
      elim (Option-cases (T.agent.find_unique (λ r. str_eq r.id id) w.agents)) [
        | inl missing ↦ rw missing refl
        | inr (a, found) ↦ elim (Bool-cases (same_status a.status to)) [
          | inl there ↦ rw (found, there) refl
          | inr other ↦ elim (Bool-cases (can_transition a.status to)) [
            | inl legal ↦ rw (found, other, legal) refl
            | inr illegal ↦ rw (found, other, illegal) refl
          ]
        ]
      ]

  pub bootstrap_capabilities-leases :
      (setting : AssuranceSetting) (agent : Agent) (lease_id : String) (w : AgentWorld D T)
      → (bootstrap_capabilities D T setting agent lease_id w).1.store.leases ≡ w.store.leases
  unfolding bootstrap_capabilities seed_capabilities grant_capability
  bootstrap_capabilities-leases setting agent lease_id w = elim (Bool-cases setting.trust_built) [
    | inl built ↦ rw built refl
    | inr broken ↦ rw broken refl
  ]

  pub prove_world-returns :
      (named : Option String) (w v : AgentWorld D T)
      → prove_world D T named w ≡ (returns true, v)
      → HasPassedWorld named w × (w ≡ v)
  unfolding prove_world
  prove_world-returns none w v h = absurd (cc h)
  prove_world-returns (some id) w v h = elim (Bool-cases (str_eq id "")) [
    | inl empty ↦ absurd (cc (rw empty at h))
    | inr named ↦ elim (Option-cases (T.challenge.find_unique (λ c. str_eq c.id id) w.challenges)) [
      | inl missing ↦ absurd (cc (rw (named, missing) at h))
      | inr (c, found) ↦
          let (there, wanted) = T.challenge.find_unique-some _ w.challenges c found in
          elim (Bool-cases (is_passed c.status)) [
            | inl passed ↦ (
              (c, there, (eq_iff c.id id).0 wanted, passed),
              ap (λ (p : Outcome AgentError Bool × AgentWorld D T). p.1)
                  (rw (named, found, passed) at h),
            )
            | inr open_still ↦ absurd (cc (rw (named, found, open_still) at h))
          ]
    ]
  ]

  pub prove_liveness-returns :
      (agent : Agent) (named : Option String) (w v : AgentWorld D T) (live : Bool)
      → prove_liveness D T agent named w ≡ (returns live, v)
      → IsLevelProven live named agent.actor_id w × (w ≡ v)
  unfolding prove_liveness
  prove_liveness-returns agent none w v live h =
      let (e, same) = returns-inj false live w v h in (rw (← e) tt, same)
  prove_liveness-returns agent (some id) w v live h = elim (Bool-cases (str_eq id "")) [
    | inl empty ↦ let (e, same) = returns-inj false live w v (rw empty at h) in (rw (← e) tt, same)
    | inr named ↦ elim (Option-cases (T.liveness.find_unique (λ c. str_eq c.id id) w.livenesses)) [
      | inl missing ↦ absurd (cc (rw (named, missing) at h))
      | inr (c, found) ↦
          let (there, wanted) = T.liveness.find_unique-some _ w.livenesses c found in
          elim (Bool-cases (is_passed c.status)) [
            | inl passed ↦ elim (Bool-cases (str_eq c.actor_id agent.actor_id)) [
              | inl own ↦
                  let (e, same) = returns-inj true live w v (rw (named, found, passed, own) at h) in
                  (
                    rw (← e) (
                      c,
                      there,
                      (eq_iff c.id id).0 wanted,
                      passed,
                      (eq_iff c.actor_id agent.actor_id).0 own,
                    ),
                    same,
                  )
              | inr foreign ↦ absurd (cc (rw (named, found, passed, foreign) at h))
            ]
            | inr open_still ↦ absurd (cc (rw (named, found, open_still) at h))
          ]
    ]
  ]
