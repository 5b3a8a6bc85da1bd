-- ===== src/Payments/Service/Laws.antt =====
-- What a paid request needs before it is served (backend/src/x402/x402-service.ts).
use xander.Prelude.{
  ◌∙◌, ℕ, ◌≡◌, ◌⊎◌, refl, String, Bool, true, false, Option, none, some, ltb, Bool-cases,
  Option-cases, inl, inr, if◌then◌else◌,
}
use xander.Prelude.Text.{to_lower_case}
use xander.Prelude.Table.{Table}
use xander.Prelude.Effects.{Outcome, reads, ◌>>=◌}
use xander.Capabilities.Store.{Capability, CapabilityCheck, Database, check_capability}
use xander.Authorization.Enforcement.EnsEac.{Chain}
use xander.Authorization.Enforcement.Service.{EnforcementVerdict, verify_enforcement}
use xander.Payments.Authorizations.{PaymentPayload}
use xander.Payments.Matching.{IsMatching}
use xander.Payments.Guards.{payment_refusal-none}
use xander.Payments.Service.{
  serve, settle, pass_gate, verify_payment, claim_nonce, take_payment, price,
  authorize_paid_request, newest_receipt, marked, answered, allowance_remaining,
}
use xander.Payments.Rows.{
  X402Payment, PaidReceipt, Outcome402, X402Result, X402Error, PaidRequest, Verification,
  Settlement, is_granted, paid_action, payment_refusal, claims_nonce, payment_row, PaymentStatus,
}
use xander.Payments.Service.Paid.{
  executed-HasFinished, World, IsUnserved, HasClaimed, IsServed, HasMoved, use-HasUsed,
  settled-HasPaid, IsGranted, is_granted-IsGranted, unclaimed,
}

module _ (D : Database) (C : Chain) (P : Table X402Payment) (R : Table PaidReceipt)
    (label_of : String → Option String) (q : PaidRequest) where
  settle-cases :
      (p : PaymentPayload) (c : Capability) (verdict : EnforcementVerdict) (remaining : Option ℕ)
      → (w : World D C P R label_of q) (s : Settlement) → HasClaimed D C P R label_of q p w
      → IsUnserved D C P R label_of q w (settle D C P R label_of q p c verdict remaining s w)
        ⊎ HasMoved D C P R label_of q s p c w (settle D C P R label_of q p c verdict remaining s w)
  unfolding settle serve
  settle-cases p c verdict remaining w Settlement.unreachable claimed = inl (refl, refl)
  settle-cases p c verdict remaining w (Settlement.unsuccessful t) claimed = inl (refl, refl)
  settle-cases p c verdict remaining w (Settlement.successful t payer) claimed =
      elim (Option-cases (newest_receipt D C P R label_of q.intent_id w)) [
        | inl missing ↦ rw missing (
            inr (
              t,
              payer,
              refl,
              settled-HasPaid D C P R label_of q p t payer none w claimed,
              (λ x newest. absurd (cc)),
              use-HasUsed D C P R label_of q c w.boundaries,
            ))
        | inr (r, found) ↦ rw found (
            inr (
              t,
              payer,
              refl,
              settled-HasPaid D C P R label_of q p t payer (some r.id) w claimed,
              (λ x same.
                  executed-HasFinished D C P R label_of q t verdict r w found x (found ∙ same)),
              use-HasUsed D C P R label_of q c w.boundaries,
            ))
      ]

  abbrev pub IsEnforced : World D C P R label_of q → Type 0
  IsEnforced w =
      (verify_enforcement D C label_of w.boundaries (paid_action q) q.gate_time).enforced ≡ true

  gate-step :
      (b : Bool) (p : PaymentPayload) (c : Capability) (verdict : EnforcementVerdict)
      → (remaining : Option ℕ) (w : World D C P R label_of q) → HasClaimed D C P R label_of q p w
      → let step =
          (if b
            then settle D C P R label_of q p c verdict remaining q.settlement
            else marked D C P R label_of q PaymentStatus.denied Outcome402.unenforced remaining) in
        IsUnserved D C P R label_of q w (step w)
        ⊎ ((b ≡ true) × HasMoved D C P R label_of q q.settlement p c w (step w))
  gate-step false p c verdict remaining w claimed = inl (refl, refl)
  gate-step true p c verdict remaining w claimed =
      elim (settle-cases p c verdict remaining w q.settlement claimed) [
        | inl unserved ↦ inl unserved
        | inr moved ↦ inr (refl, moved)
      ]

  gate-cases :
      (p : PaymentPayload) (c : Capability) (remaining : Option ℕ) (w : World D C P R label_of q)
      → HasClaimed D C P R label_of q p w
      → IsUnserved D C P R label_of q w (pass_gate D C P R label_of q p c remaining w)
        ⊎ (IsEnforced w
            × HasMoved D C P R label_of q q.settlement p c w
                (pass_gate D C P R label_of q p c remaining w))
  unfolding pass_gate
  gate-cases p c remaining w claimed =
      let verdict : EnforcementVerdict =
        verify_enforcement D C label_of w.boundaries (paid_action q) q.gate_time in
      gate-step verdict.enforced p c verdict remaining w claimed

  verify-cases :
      (p : PaymentPayload) (c : Capability) (remaining : Option ℕ) (w : World D C P R label_of q)
      (a : Verification)
      → HasClaimed D C P R label_of q p w
      → IsUnserved D C P R label_of q w (verify_payment D C P R label_of q p c remaining a w)
        ⊎ ((a ≡ Verification.valid_payment)
            × IsEnforced w
            × HasMoved D C P R label_of q q.settlement p c w
                (verify_payment D C P R label_of q p c remaining a w))
  unfolding verify_payment
  verify-cases p c remaining w Verification.unreachable claimed = inl (refl, refl)
  verify-cases p c remaining w Verification.rejected_payment claimed = inl (refl, refl)
  verify-cases p c remaining w Verification.valid_payment claimed =
      elim (gate-cases p c remaining w claimed) [
        | inl unserved ↦ inl unserved
        | inr (enforced, moved) ↦ inr (refl, enforced, moved)
      ]

  claim-cases :
      (p : PaymentPayload) (c : Capability) (remaining : Option ℕ) (w : World D C P R label_of q)
      → IsUnserved D C P R label_of q w (claim_nonce D C P R label_of q p c remaining w)
        ⊎ IsServed D C P R label_of q p c w (claim_nonce D C P R label_of q p c remaining w)
  unfolding claim_nonce
  claim-cases p c remaining w =
      let nonce : String = to_lower_case p.authorization.nonce in
      let claimed : World D C P R label_of q = record w {
        payments =
            P.create
              (payment_row q PaymentStatus.verified (some nonce)
                (some (to_lower_case p.authorization.from)))
              w.payments;
      } in
      elim (Bool-cases (ltb 0 (P.count (claims_nonce nonce) w.payments))) [
        | inl used ↦ rw used (inl (refl, refl))
        | inr fresh ↦
            rw fresh
              (elim (verify-cases p c remaining claimed q.verification (
                payment_row q PaymentStatus.verified (some nonce)
                    (some (to_lower_case p.authorization.from)),
                rw
                    (P.create-rows
                      (payment_row q PaymentStatus.verified (some nonce)
                        (some (to_lower_case p.authorization.from)))
                      w.payments)
                    (inl refl),
                refl,
                refl,
              )) [
                | inl unserved ↦ inl unserved
                | inr (verified, enforced, (t, payer, moved, paid, finished, used)) ↦ inr (record {
                  unused =
                      unclaimed nonce (P.rows w.payments)
                        (rw (P.count-rows (claims_nonce nonce) w.payments) at fresh);
                  verified = verified;
                  enforced = enforced;
                  transaction = t;
                  payer = payer;
                  moved = moved;
                  paid = paid;
                  finished = finished;
                  used = record {
                    use_added = used.use_added;
                    capabilities_kept = used.capabilities_kept;
                    leases_kept = used.leases_kept;
                    chain_kept = used.chain_kept;
                  };
                })
              ])
      ]

  take-cases :
      (c : Capability) (remaining : Option ℕ) (w : World D C P R label_of q)
      (payload : Option PaymentPayload)
      → IsUnserved D C P R label_of q w (take_payment D C P R label_of q c remaining payload w)
        ⊎ ((p : PaymentPayload) × (payload ≡ some p)
            × IsMatching q p
            × IsServed D C P R label_of q p c w
                (take_payment D C P R label_of q c remaining payload w))
  unfolding take_payment
  take-cases c remaining w none = inl (refl, refl)
  take-cases c remaining w (some p) = elim (Option-cases (payment_refusal q p)) [
    | inr (m, wrong) ↦ rw (wrong, take_payment) (inl (refl, refl))
    | inl fits ↦
        rw (fits, take_payment)
          (elim (claim-cases p c remaining w) [
            | inl unserved ↦ inl unserved
            | inr served ↦ inr (p, refl, payment_refusal-none q p fits, served)
          ])
  ]

  -- What a paid request had when it was served.
  abbrev pub IsPaidFor :
      World D C P R label_of q → Outcome X402Error X402Result × World D C P R label_of q → Type 0
  IsPaidFor w r =
      (c : Capability) × (p : PaymentPayload) × IsGranted q.decision
      × ((check_capability D w.boundaries.store (paid_action q) q.now).allowed ≡ true)
      × ((check_capability D w.boundaries.store (paid_action q) q.now).capability ≡ some c)
      × (q.payload ≡ some p)
      × IsMatching q p
      × IsServed D C P R label_of q p c w r

  price-step :
      (b : Bool) (check : CapabilityCheck) (c : Capability) (w : World D C P R label_of q)
      → let step =
          (if b
            then reads (allowance_remaining D C P R label_of q c)
              >>= (λ remaining. take_payment D C P R label_of q c remaining q.payload)
            else answered D C P R label_of q PaymentStatus.denied
                (Outcome402.no_allowance check.denial)
                (some 0)) in
        IsUnserved D C P R label_of q w (step w)
        ⊎ ((d : Capability) × (p : PaymentPayload) × (b ≡ true)
            × (some c ≡ some d)
            × (q.payload ≡ some p)
            × IsMatching q p
            × IsServed D C P R label_of q p d w (step w))
  price-step false check c w = inl (refl, refl)
  price-step true check c w =
      elim (take-cases c (allowance_remaining D C P R label_of q c w) w q.payload) [
        | inl unserved ↦ inl unserved
        | inr (p, given, fits, served) ↦ inr (c, p, refl, refl, given, fits, served)
      ]

  price-cases :
      (check : CapabilityCheck) (found : Option Capability) (w : World D C P R label_of q)
      → IsUnserved D C P R label_of q w (price D C P R label_of q check found w)
        ⊎ ((c : Capability) × (p : PaymentPayload) × (check.allowed ≡ true)
            × (found ≡ some c)
            × (q.payload ≡ some p)
            × IsMatching q p
            × IsServed D C P R label_of q p c w (price D C P R label_of q check found w))
  unfolding price
  price-cases check none w = inl (refl, refl)
  price-cases check (some c) w = price-step check.allowed check c w

  -- Every paid request ends in one of two ways. Either it is not settled, and then no capability, no
  -- use and nothing on the chain changed; or the intent was granted, a capability allowed it, the
  -- payment matches what was asked (version, scheme, network, asset, recipient, an amount that is no
  -- less, the form of nonce and signature, a validity that has begun and is not over) and comes from
  -- the caller, its nonce was on no payment before, the facilitator verified it, every boundary
  -- confirmed it at the gate and the settlement moved the money; then the payment is on file as
  -- settled with its nonce and the transaction, the newest receipt of the intent, if there is one, as
  -- executed, one use of the capability was added, and no other
  -- use, no capability, no lease and nothing on the chain changed.
  pub authorize_paid_request-cases :
      (w : World D C P R label_of q)
      → IsUnserved D C P R label_of q w (authorize_paid_request D C P R label_of q w)
        ⊎ IsPaidFor w (authorize_paid_request D C P R label_of q w)
  unfolding authorize_paid_request
  authorize_paid_request-cases w =
      let check : CapabilityCheck = check_capability D w.boundaries.store (paid_action q) q.now in
      elim (Bool-cases (is_granted q.decision)) [
        | inr refused ↦ rw refused (inl (refl, refl))
        | inl granted ↦ rw granted (elim (price-cases check check.capability w) [
          | inl unserved ↦ inl unserved
          | inr (c, p, allowed, found, given, fits, served) ↦
              inr
                (c, p, is_granted-IsGranted q.decision granted, allowed, found, given, fits, served)
        ])
      ]
