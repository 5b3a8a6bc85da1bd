-- ===== src/Agents/Service/Moves.antt =====
-- The operations on agents move a status along the table only
-- (backend/src/agents/agent-service.ts).
use xander.Prelude.{
  ◌≡◌, refl, sym, ◌∙◌, ap, String, true, List, eq_iff, str_eq, In, In-map_inv, Bool-cases,
  Option-cases, inl, inr,
}
use xander.Prelude.Table.{patch}
use xander.Prelude.Effects.{Keeps}
use xander.Capabilities.Store.{Database}
use xander.Agents.Lifecycle.{AgentStatus, same_status, can_transition}
use xander.Agents.Service.{
  AgentWorld, AgentProgram, find_agent, update_agent, move_agent, transition,
}
use xander.Agents.Rows.{Agent, AgentTables, with_agent_status}

-- The moves of the table, one after the other.
pub data Reach : AgentStatus → AgentStatus → Type 0 where
  here : (s : AgentStatus) → Reach s s
  move : (a b c : AgentStatus) → can_transition a b ≡ true → Reach b c → Reach a c

pub Reach-trans : (a b c : AgentStatus) → Reach a b → Reach b c → Reach a c
Reach-trans a b c (here _) r = r
Reach-trans a b c (move _ b' _ h q) r = move a b' c h (Reach-trans b' b c q r)

module _ (D : Database) (T : AgentTables) where
  abbrev pub agent_rows : AgentWorld D T → List Agent
  agent_rows w = T.agent.rows w.agents

  -- The id is the primary key: rows that share it agree on the status.
  abbrev pub HasOneStatus : AgentWorld D T → Type 0
  HasOneStatus w =
      (a b : Agent) → In a (agent_rows w) → In b (agent_rows w) → a.id ≡ b.id → a.status ≡ b.status

  -- Every agent afterwards is one from before, its status reached along the table.
  abbrev pub HasMoved : AgentWorld D T → AgentWorld D T → Type 0
  HasMoved u v =
      (a : Agent)
      → In a (agent_rows v)
      → (b : Agent) × In b (agent_rows u) × (b.id ≡ a.id) × Reach b.status a.status

  pub HasMoved-same : (w : AgentWorld D T) → HasMoved w w
  HasMoved-same w a m = (a, m, refl, here a.status)

  pub HasMoved-join : (u v w : AgentWorld D T) → HasMoved u v → HasMoved v w → HasMoved u w
  HasMoved-join u v w h k a m =
      let (b, mb, eb, rb) = k a m in
      let (c, mc, ec, rc) = h b mb in (c, mc, ec ∙ eb, Reach-trans c.status b.status a.status rc rb)

  -- An update of one row whose new status is reached along the table.
  module _ (id : String) (f : Agent → Agent) (keeps_id : (a : Agent) → (f a).id ≡ a.id)
      (one : (a b : Agent) → a.status ≡ b.status → (f a).status ≡ (f b).status) where
    patched-id : (a : Agent) → (patch (λ r. str_eq r.id id) f a).id ≡ a.id
    patched-id a = elim (Bool-cases (str_eq a.id id)) [
      | inl hit ↦ rw hit (keeps_id a)
      | inr miss ↦ rw miss refl
    ]

    patched-one :
        (a b : Agent)
        → a.id ≡ b.id
        → a.status ≡ b.status
        → (patch (λ r. str_eq r.id id) f a).status ≡ (patch (λ r. str_eq r.id id) f b).status
    patched-one a b e s = elim (Bool-cases (str_eq b.id id)) [
      | inl hit ↦ rw (ap (λ i. str_eq i id) e ∙ hit, hit) (one a b s)
      | inr miss ↦ rw (ap (λ i. str_eq i id) e ∙ miss, miss) s
    ]

    pub update-Keeps :
        (w : AgentWorld D T)
        → HasOneStatus w
        → ((a : Agent) → In a (agent_rows w) → a.id ≡ id → Reach a.status (f a).status)
        → HasOneStatus (update_agent D T id f w) × HasMoved w (update_agent D T id f w)
    update-Keeps w h reached = (
      (λ a' b' ma mb e.
          let (a, there, ea) =
            In-map_inv _ _ a' (rw (T.agent.update_many-rows _ _ w.agents) at ma) in
          let (b, there', eb) =
            In-map_inv _ _ b' (rw (T.agent.update_many-rows _ _ w.agents) at mb) in
          let ids : a.id ≡ b.id =
            sym (patched-id a)
            ∙ (sym (ap (λ (r : Agent). r.id) ea)
                ∙ (e ∙ (ap (λ (r : Agent). r.id) eb ∙ patched-id b))) in
          ap (λ (r : Agent). r.status) ea
          ∙ (patched-one a b ids (h a b there there' ids) ∙ sym (ap (λ (r : Agent). r.status) eb))),
      (λ a' ma.
          let (a, there, ea) =
            In-map_inv _ _ a' (rw (T.agent.update_many-rows _ _ w.agents) at ma) in
          (
            a,
            there,
            sym (patched-id a) ∙ sym (ap (λ (r : Agent). r.id) ea),
            rw ea (elim (Bool-cases (str_eq a.id id)) [
              | inl hit ↦ rw hit (reached a there ((eq_iff a.id id).0 hit))
              | inr miss ↦ rw miss (here a.status)
            ]),
          )),
    )

  abbrev Respects : {A : Type 0} → AgentProgram D T A → Type 0
  Respects m = Keeps HasOneStatus HasMoved m

  move_agent-Keeps :
      (to : AgentStatus) (agent : Agent) (w : AgentWorld D T)
      → In agent (agent_rows w)
      → HasOneStatus w
      → HasOneStatus (move_agent D T to agent w).1 × HasMoved w (move_agent D T to agent w).1
  unfolding move_agent
  move_agent-Keeps to agent w there h = elim (Bool-cases (same_status agent.status to)) [
    | inl same ↦ rw same (h, HasMoved-same w)
    | inr other ↦ elim (Bool-cases (can_transition agent.status to)) [
      | inl legal ↦
          rw (other, legal)
            (update-Keeps agent.id (with_agent_status to) (λ a. refl) (λ a b e. refl) w h
              (λ a m e. move a.status to to (rw (h a agent m there e) legal) (here to)))
      | inr illegal ↦ rw (other, illegal) (h, HasMoved-same w)
    ]
  ]

  pub transition-run :
      (id : String) (to : AgentStatus) (w : AgentWorld D T)
      → HasOneStatus w
      → HasOneStatus (transition D T id to w).1 × HasMoved w (transition D T id to w).1
  unfolding transition find_agent
  transition-run id to w h =
      elim (Option-cases (T.agent.find_unique (λ a. str_eq a.id id) w.agents)) [
        | inl missing ↦ rw missing (h, HasMoved-same w)
        | inr (agent, found) ↦
            rw found
              (move_agent-Keeps to agent w (T.agent.find_unique-some _ w.agents agent found).0 h)
      ]
