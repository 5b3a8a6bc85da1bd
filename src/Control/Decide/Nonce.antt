-- ===== src/Control/Decide/Nonce.antt =====
-- What a refused decision leaves behind, and what the nonce is for
-- (backend/src/control/control-service.ts).
use xander.Prelude.{
  ◌≡◌, ◌≢◌, refl, sym, String, Bool, true, false, Option, some, List, [], ◌∷◌, eq_iff, str_eq, In,
  Bool-cases, Option-cases, inl, inr, arith, leb, ltb, count_if,
}
use xander.Prelude.Effects.{Outcome, throws}
use xander.Capabilities.Store.{Database}
use xander.Authorization.Enforcement.EnsEac.{Chain}
use xander.Agents.Rows.{AgentTables}
use xander.Control.Pending.{PendingAction, ControlSetting, is_pending}
use xander.Control.Decide.{
  ControlWorld, audit, deny, refusal_of, carry_out, answer, decide_pending_action,
}
use xander.Control.Rows.{
  AuthenticatedOperator, DecisionInput, AuditEntry, ControlError, ControlTables, has_nonce,
}

counted :
    {X : Type 0} (p : X → Bool) (x : X) (xs : List X)
    → In x xs
    → p x ≡ true
    → ltb 0 (count_if p xs) ≡ true
counted p x [] m h = absurd m
counted p x (y ∷ ys) (inl e) h = rw (sym e, h) (ground arith)
counted p x (y ∷ ys) (inr m) h = elim (Bool-cases (p y)) [
  | inl hit ↦ rw hit (ground arith)
  | inr miss ↦ rw miss (counted p x ys m h)
]

module _ (D : Database) (C : Chain) (A : AgentTables) (T : ControlTables)
    (label_of : String → Option String) where
  abbrev pub World : Type 0
  World = ControlWorld D C A T label_of

  -- The request was refused with this error, and no agent, no capability and nothing on the chain
  -- changed.
  abbrev pub IsRefused : World → ControlError → Outcome ControlError Bool × World → Type 0
  IsRefused w e (o, v) = (o ≡ throws e) × (v.agents ≡ w.agents) × (v.chain ≡ w.chain)

  deny-IsRefused :
      (operator : AuthenticatedOperator) (input : DecisionInput) (e : ControlError) (w : World)
      → IsRefused w e (deny D C A T label_of operator input e w)
  unfolding deny audit
  deny-IsRefused operator input e w = (refl, refl, refl)

  -- A nonce that some row has.
  taken :
      (nonce : String) (w : World) (r : AuditEntry)
      → In r (T.audit.rows w.audits)
      → r.nonce ≡ some nonce
      → ltb 0 (T.audit.count (has_nonce nonce) w.audits) ≡ true
  taken nonce w r there same =
      let hit : has_nonce nonce r ≡ true = rw same ((eq_iff nonce nonce).1 refl) in
      rw (T.audit.count-rows (has_nonce nonce) w.audits)
        (counted (has_nonce nonce) r (T.audit.rows w.audits) there hit)

  carry_out_replayed :
      (operator : AuthenticatedOperator) (input : DecisionInput) (action : PendingAction)
      (w : World)
      → ltb 0 (T.audit.count (has_nonce input.nonce) w.audits) ≡ true
      → input.nonce ≢ ""
      → IsRefused w ControlError.already_submitted
          (carry_out D C A T label_of operator input action w)
  unfolding carry_out audit
  carry_out_replayed operator input action w used given =
      let g : str_eq input.nonce "" ≡ false = ground (arith, eq_iff input.nonce "") in
      rw (used, g) (refl, refl, refl)

  answer_replayed :
      (setting : ControlSetting) (operator : AuthenticatedOperator) (input : DecisionInput)
      → (action : PendingAction) (w : World)
      → ltb 0 (T.audit.count (has_nonce input.nonce) w.audits) ≡ true
      → input.nonce ≢ ""
      → (e : ControlError) × IsRefused w e (answer D C A T label_of setting operator input action w)
  unfolding answer deny audit
  answer_replayed setting operator input action w used given =
      elim (Bool-cases (is_pending action.status)) [
        | inr over ↦ rw over (_, deny-IsRefused operator input ControlError.not_pending w)
        | inl waits ↦ elim (Bool-cases (leb action.expires_at input.now)) [
          | inl late ↦ rw (waits, late) (ControlError.action_expired, (refl, refl, refl))
          | inr early ↦
              elim (Option-cases (refusal_of D C A T label_of setting operator input action w)) [
                | inr (e, refused) ↦
                    rw (waits, early, refused) (e, deny-IsRefused operator input e w)
                | inl clear ↦
                    rw (waits, early, clear)
                      (_, carry_out_replayed operator input action w used given)
              ]
        ]
      ]

  -- A nonce decides once: a request with a nonce that is on file already is refused, whatever it
  -- asks for and whoever asks, and changes no agent, no capability and nothing on the chain.
  pub decide_pending_action_replayed :
      (setting : ControlSetting) (operator : AuthenticatedOperator) (input : DecisionInput)
      → (w : World) (r : AuditEntry) → In r (T.audit.rows w.audits)
      → r.nonce ≡ some input.nonce
      → input.nonce ≢ ""
      → (e : ControlError) × IsRefused w e
          (decide_pending_action D C A T label_of setting operator input w)
  unfolding decide_pending_action
  decide_pending_action_replayed setting operator input w r there same given =
      elim (Option-cases (T.pending.find_unique (λ a. str_eq a.id input.action_id) w.pendings)) [
        | inl missing ↦ rw missing (_, deny-IsRefused operator input ControlError.no_such_action w)
        | inr (action, found) ↦ rw found (
            answer_replayed setting operator input action w (taken input.nonce w r there same)
              given)
      ]
