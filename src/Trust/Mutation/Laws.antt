-- ===== src/Trust/Mutation/Laws.antt =====
-- Worse trust withdraws authority, better trust never extends it
-- (`applyTrustMutation` of backend/src/trust/trust-mutation.ts).
use Prim.Native.Nat.{max}
use xander.Prelude.{
  ℕ, ◌≡◌, ◌≢◌, ◌⊎◌, ◌/◌, refl, sym, ◌∙◌, String, Bool, true, none, some, arith, eq_iff, In,
  In-map_inv, nil_of_not_In, Bool-cases, inl, inr,
}
use xander.Prelude.Table.{patch}
use xander.Prelude.Decimal.{big_int-digits, parse_digits-to_decimal}
use xander.Capabilities.Types.{CapabilityStatus, CapabilityDenial, parse_amount}
use xander.Capabilities.Store.{
  Capability, Database, State, CheckArgs, denied, with_status, check_capability, candidates,
  check_from,
}
use xander.Capabilities.Check.{candidate-facts}
use xander.Trust.Mutation.{
  is_degradation, MutationConsequence, consequence_of, decide_consequence, quotient_text,
  attenuated_limit, is_held, is_exercisable, update_status, apply_consequence, apply_trust_mutation,
}

module _ (D : Database) (s : State D) (actor : String)
    (inactive : (c : Capability)
      → In c (D.capability.rows s.capabilities)
      → c.actor_id ≡ actor
      → c.status ≢ CapabilityStatus.active) where
  -- A check finds nothing where no row of the actor is active.
  pub inactive-check :
      (args : CheckArgs) (now : ℕ)
      → args.actor_id ≡ actor
      → check_capability D s args now ≡ denied none CapabilityDenial.not_found
  unfolding check_capability check_from candidates
  inactive-check args now e =
      rw
        (nil_of_not_In (candidates D s args) (λ c m.
          let (there, wanted) = (D.capability.find_many-In _ _ s.capabilities c).0 m in
          let (same_actor, same_action, live) = candidate-facts args c wanted in
          inactive c there (same_actor ∙ e) live))
        refl

module _ (actor : String) (p : Capability → Bool) (status : CapabilityStatus)
    (covers : (c : Capability)
      → c.actor_id ≡ actor
      → c.status ≡ CapabilityStatus.active
      → p c ≡ true)
    (stops : status ≢ CapabilityStatus.active) where
  patched-inactive :
      (c : Capability)
      → (patch p (with_status status) c).actor_id ≡ actor
      → (patch p (with_status status) c).status ≢ CapabilityStatus.active
  patched-inactive c e live = elim (Bool-cases (p c)) [
    | inl hit ↦ stops (rw hit at live)
    | inr miss ↦ absurd (cc (sym miss ∙ covers c (rw miss at e) (rw miss at live)))
  ]

  pub update_status-inactive :
      (D : Database) (s : State D) (c : Capability)
      → In c (D.capability.rows (update_status D p status s).1.capabilities)
      → c.actor_id ≡ actor
      → c.status ≢ CapabilityStatus.active
  unfolding update_status
  update_status-inactive D s c m e =
      let (k, there, same) =
        In-map_inv _ _ c (rw (D.capability.update_many-rows _ _ s.capabilities) at m) in
      rw same (patched-inactive k (rw same at e))

is_held-covers :
    (actor : String) (c : Capability)
    → c.actor_id ≡ actor
    → c.status ≡ CapabilityStatus.active
    → is_held actor c ≡ true
is_held-covers actor c e live = ground (arith, eq_iff c.actor_id actor)

pub is_exercisable-covers :
    (actor : String) (c : Capability)
    → c.actor_id ≡ actor
    → c.status ≡ CapabilityStatus.active
    → is_exercisable actor c ≡ true
is_exercisable-covers actor c e live = ground (arith, eq_iff c.actor_id actor)

-- The bands that withdraw everything.
abbrev pub Withdraws : String → Type 0
Withdraws band = (band ≡ "CRITICAL") ⊎ ((band ≡ "HIGH_RISK") ⊎ (band ≡ "INSUFFICIENT_EVIDENCE"))

module _ (D : Database) (actor : String) (divisor : ℕ) (s : State D) where
  revoke-check :
      (args : CheckArgs) (now : ℕ)
      → args.actor_id ≡ actor
      → check_capability D
          (apply_consequence D actor MutationConsequence.revoke divisor s).1
          args
          now
        ≡ denied none CapabilityDenial.not_found
  unfolding apply_consequence
  revoke-check args now e =
      inactive-check D (update_status D (is_held actor) CapabilityStatus.revoked s).1 actor
        (update_status-inactive actor (is_held actor) CapabilityStatus.revoked
          (is_held-covers actor) (λ x. cc) D s)
        args now e

  suspend-check :
      (args : CheckArgs) (now : ℕ)
      → args.actor_id ≡ actor
      → check_capability D
          (apply_consequence D actor MutationConsequence.suspend divisor s).1
          args
          now
        ≡ denied none CapabilityDenial.not_found
  unfolding apply_consequence
  suspend-check args now e =
      inactive-check D (update_status D (is_exercisable actor) CapabilityStatus.suspended s).1 actor
        (update_status-inactive actor (is_exercisable actor) CapabilityStatus.suspended
          (is_exercisable-covers actor) (λ x. cc) D s)
        args now e

critical-revoke : consequence_of "CRITICAL" ≡ MutationConsequence.revoke
unfolding consequence_of
critical-revoke = refl

high_risk-suspend : consequence_of "HIGH_RISK" ≡ MutationConsequence.suspend
unfolding consequence_of
high_risk-suspend = refl

insufficient-suspend : consequence_of "INSUFFICIENT_EVIDENCE" ≡ MutationConsequence.suspend
unfolding consequence_of
insufficient-suspend = refl

-- If trust got worse and is now critical, high risk or no longer measurable, then afterwards every
-- check of the actor, for whatever action and at whatever time, finds no capability at all.
pub apply_trust_mutation-check :
    (D : Database) (actor previous current : String) (divisor : ℕ) (s : State D) (args : CheckArgs)
    (now : ℕ)
    → is_degradation previous current ≡ true
    → Withdraws current
    → args.actor_id ≡ actor
    → check_capability D (apply_trust_mutation D actor (some previous) current divisor s).1 args now
      ≡ denied none CapabilityDenial.not_found
unfolding apply_trust_mutation decide_consequence
apply_trust_mutation-check D actor previous current divisor s args now worse w e = elim w [
  | inl critical ↦ rw (worse, critical, critical-revoke) (revoke-check D actor divisor s args now e)
  | inr (inl high) ↦
      rw (worse, high, high_risk-suspend) (suspend-check D actor divisor s args now e)
  | inr (inr unmeasured) ↦
      rw (worse, unmeasured, insufficient-suspend) (suspend-check D actor divisor s args now e)
]

-- A ceiling that is a run of digits is divided by the divisor, or by two if that is more, rounding
-- down, and written back as a text that reads as that quotient.
pub attenuated_limit-parse_amount :
    (current : String) (n divisor : ℕ)
    → parse_amount (some current) ≡ some n
    → parse_amount (attenuated_limit (some current) divisor) ≡ some (n / max 2 divisor)
unfolding parse_amount attenuated_limit quotient_text
attenuated_limit-parse_amount current n divisor h =
    rw (big_int-digits current n h, attenuated_limit) (parse_digits-to_decimal (n / max 2 divisor))
