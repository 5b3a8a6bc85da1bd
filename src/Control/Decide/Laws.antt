-- ===== src/Control/Decide/Laws.antt =====
-- Whose decisions are carried out (backend/src/control/control-service.ts).
use xander.Prelude.{
  ◌≡◌, ◌≢◌, ◌⊎◌, ◌<◌, refl, sym, ◌∙◌, ap, String, Bool, true, false, ◌&&◌, not, Option, none, some,
  List, [], ◌∷◌, eq_iff, str_eq, In, All, All-of_In, any, any-In, Bool-cases, Option-cases, inl,
  inr, arith, leb,
}
use xander.Prelude.Effects.{Outcome, returns, throws}
use xander.Capabilities.Store.{Database}
use xander.Authorization.Enforcement.EnsEac.{Chain}
use xander.Agents.Rows.{AgentTables}
use xander.Control.Auth.{
  AuthorizationCheck, command_name, is_in_scope, check_actor_scope, authorize_operator_action,
  requires_step_up, is_allowed_decision,
}
use xander.Control.Pending.{PendingAction, ControlSetting, is_pending}
use xander.Control.Decide.{
  has_step_up, audit, deny, refusal_of, carry_out, answer, decide_pending_action,
}
use xander.Control.Rows.{
  AuthenticatedOperator, DecisionInput, ControlError, ControlTables, is_authorized,
}
use xander.Control.Decide.Nonce.{World, decide_pending_action_replayed}

is_authorized_eq :
    (c : AuthorizationCheck) → is_authorized c ≡ true → c ≡ AuthorizationCheck.allowed
is_authorized_eq AuthorizationCheck.allowed h = refl
is_authorized_eq _ h = absurd (cc h)

-- What a scope asks of the actor of an action: nothing if it is empty, and otherwise that the
-- action names an actor that is in it.
abbrev pub IsOver : List String → Option String → Type 0
IsOver scope named =
    (scope ≡ []) ⊎ ((actor : String) × (named ≡ some actor) × (actor ≢ "") × In actor scope)

check_actor_scope-IsOver :
    (scope : List String) (named : Option String)
    → check_actor_scope scope named ≡ AuthorizationCheck.allowed
    → IsOver scope named
unfolding check_actor_scope is_in_scope
check_actor_scope-IsOver [] named h = inl refl
check_actor_scope-IsOver (s ∷ scope) none h = absurd (cc h)
check_actor_scope-IsOver (s ∷ scope) (some actor) h = elim (Bool-cases (str_eq actor "")) [
  | inl empty ↦ absurd (cc (rw empty at h))
  | inr given ↦ elim (Bool-cases (any (str_eq actor) (s ∷ scope))) [
    | inr out ↦ absurd (cc (rw (given, out) at h))
    | inl held ↦ inr (actor, refl, ground (arith, eq_iff actor ""), any-In actor (s ∷ scope) held)
  ]
]

is_in_scope-In :
    (scope : List String) (value : String)
    → is_in_scope scope value ≡ true
    → (scope ≡ []) ⊎ In value scope
unfolding is_in_scope
is_in_scope-In [] value h = inl refl
is_in_scope-In (s ∷ scope) value h = inr (any-In value (s ∷ scope) h)

authorize_operator_action-scopes :
    (actors commands : List String) (command : String) (named : Option String)
    → authorize_operator_action "ACTIVE" actors commands command named ≡ AuthorizationCheck.allowed
    → ((commands ≡ []) ⊎ In command commands) × IsOver actors named
unfolding authorize_operator_action
authorize_operator_action-scopes actors commands command named h =
    elim (Bool-cases (is_in_scope commands command)) [
      | inr out ↦ absurd (cc (rw out at h))
      | inl held ↦ (
        is_in_scope-In commands command held,
        check_actor_scope-IsOver actors named (rw held at h),
      )
    ]

settled_proven : (a b : Bool) → (a && not b) ≡ false → (a ≡ false) ⊎ (b ≡ true)
settled_proven false b h = inl refl
settled_proven true true h = inr refl
settled_proven true false h = absurd (cc h)

module _ (D : Database) (C : Chain) (A : AgentTables) (T : ControlTables)
    (label_of : String → Option String) (setting : ControlSetting)
    (operator : AuthenticatedOperator) (input : DecisionInput) where
  -- What a decision needs that is carried out.
  pub record IsEntitled (action : PendingAction) (w : World D C A T label_of) : Type 0 where
    pub waiting : is_pending action.status ≡ true
    pub in_time : input.now < action.expires_at
    pub command_in_scope :
        (operator.action_scope ≡ []) ⊎ In (command_name input.command) operator.action_scope
    pub actor_in_scope : IsOver operator.actor_scope action.actor_id
    pub legal : In (command_name input.command) action.allowed
    pub bound : action.binding_hash ≡ input.binding_hash
    pub proven :
        ((action.requires_step_up
            && requires_step_up (command_name input.command) setting.step_up_enabled)
          ≡ false)
        ⊎ (has_step_up D C A T label_of input.step_up_proof_id w ≡ true)

  clear-IsEntitled :
      (action : PendingAction) (w : World D C A T label_of)
      → is_pending action.status ≡ true
      → leb action.expires_at input.now ≡ false
      → refusal_of D C A T label_of setting operator input action w ≡ none
      → IsEntitled action w
  unfolding refusal_of is_allowed_decision
  clear-IsEntitled action w waits early clear =
      let demanded : Bool =
        action.requires_step_up
        && requires_step_up (command_name input.command) setting.step_up_enabled in
      let stepped : Bool = has_step_up D C A T label_of input.step_up_proof_id w in
      elim (Bool-cases (
        is_authorized (
          authorize_operator_action "ACTIVE" operator.actor_scope operator.action_scope
            (command_name input.command) action.actor_id))) [
              | inr out ↦ absurd (cc (rw out at clear))
              | inl scoped ↦
                  elim (Bool-cases (any (str_eq (command_name input.command)) action.allowed)) [
                    | inr illegal ↦ absurd (cc (rw (scoped, illegal) at clear))
                    | inl legal ↦
                        elim (Bool-cases (str_eq action.binding_hash input.binding_hash)) [
                          | inr unbound ↦ absurd (cc (rw (scoped, legal, unbound) at clear))
                          | inl bound ↦ elim (Bool-cases (demanded && not stepped)) [
                            | inl owed ↦ absurd (cc (rw (scoped, legal, bound, owed) at clear))
                            | inr settled ↦ record {
                              waiting = waits;
                              in_time = ground arith;
                              command_in_scope =
                                  (authorize_operator_action-scopes operator.actor_scope
                                    operator.action_scope (command_name input.command)
                                    action.actor_id (is_authorized_eq _ scoped)).0;
                              actor_in_scope =
                                  (authorize_operator_action-scopes operator.actor_scope
                                    operator.action_scope (command_name input.command)
                                    action.actor_id (is_authorized_eq _ scoped)).1;
                              legal = any-In _ action.allowed legal;
                              bound = (eq_iff action.binding_hash input.binding_hash).0 bound;
                              proven = settled_proven demanded stepped settled;
                            }
                          ]
                        ]
                  ]
            ]

  deny-throws :
      (e : ControlError) (w v : World D C A T label_of) (applied : Bool)
      → deny D C A T label_of operator input e w ≢ (returns applied, v)
  unfolding deny audit
  deny-throws e w v applied h = absurd (cc h)

  pub answer_carried :
      (action : PendingAction) (w v : World D C A T label_of) (applied : Bool)
      → answer D C A T label_of setting operator input action w ≡ (returns applied, v)
      → IsEntitled action w
        × (carry_out D C A T label_of operator input action w ≡ (returns applied, v))
  unfolding answer
  answer_carried action w v applied h = elim (Bool-cases (is_pending action.status)) [
    | inr over ↦ absurd (deny-throws ControlError.not_pending w v applied (rw over at h))
    | inl waits ↦ elim (Bool-cases (leb action.expires_at input.now)) [
      | inl late ↦
          absurd (deny-throws ControlError.action_expired _ v applied (rw (waits, late) at h))
      | inr early ↦
          elim (Option-cases (refusal_of D C A T label_of setting operator input action w)) [
            | inr (e, refused) ↦
                absurd (deny-throws e w v applied (rw (waits, early, refused) at h))
            | inl clear ↦
                (clear-IsEntitled action w waits early clear, rw (waits, early, clear) at h)
          ]
    ]
  ]

  -- A decision that is carried out answers an action that is there, waits and has not expired, with
  -- one of the answers that the action allows and with the action's own binding; the operator's
  -- scope of commands is empty, which restricts nothing, or holds the command; the scope of actors
  -- is empty or the action names an actor that it holds; a step-up that is demanded has passed; and the nonce, if
  -- it is not empty, is in no row of the audit log before.
  pub decide_pending_action_sound :
      (w v : World D C A T label_of) (applied : Bool)
      → decide_pending_action D C A T label_of setting operator input w ≡ (returns applied, v)
      → ((action : PendingAction) × In action (T.pending.rows w.pendings)
          × (action.id ≡ input.action_id)
          × IsEntitled action w)
        × ((input.nonce ≡ "") ⊎ All (λ r. r.nonce ≢ some input.nonce) (T.audit.rows w.audits))
  unfolding decide_pending_action
  decide_pending_action_sound w v applied h = (
    elim (Option-cases (T.pending.find_unique (λ a. str_eq a.id input.action_id) w.pendings)) [
      | inl missing ↦ absurd (deny-throws ControlError.no_such_action w v applied (rw missing at h))
      | inr (action, found) ↦
          let (there, same) = T.pending.find_unique-some _ w.pendings action found in
          (
            action,
            there,
            (eq_iff action.id input.action_id).0 same,
            (answer_carried action w v applied (rw found at h)).0,
          )
    ],
    elim (Bool-cases (str_eq input.nonce "")) [
      | inl empty ↦ inl ((eq_iff input.nonce "").0 empty)
      | inr given ↦ inr (
          All-of_In _ _ (λ r there same.
            let (e, refused) =
              decide_pending_action_replayed D C A T label_of setting operator input w r there same
                (ground (arith, eq_iff input.nonce "")) in
            let outcomes : ◌≡◌ {A = Outcome ControlError Bool} (returns applied) (throws e) =
              sym (ap (λ p. p.0) h) ∙ refused.0 in
            cc outcomes))
    ],
  )
