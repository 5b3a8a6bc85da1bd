-- ===== src/Payments/Service/Served.antt =====
-- A paid request that has everything is served (backend/src/x402/x402-service.ts).
use xander.Prelude.{
  ◌≢◌, sym, ◌∙◌, ap, List, [], ◌∷◌, All, count_if, str_eq, eq_iff, Bool-cases, inl, inr, ℕ, ◌≡◌,
  refl, String, Bool, true, false, Option, none, some, ltb, if◌then◌else◌,
}
use xander.Prelude.Text.{to_lower_case}
use xander.Prelude.Table.{Table}
use xander.Capabilities.Store.{Capability, CapabilityCheck, Database, check_capability}
use xander.Authorization.Enforcement.EnsEac.{Chain}
use xander.Authorization.Enforcement.Service.{EnforcementVerdict, verify_enforcement}
use xander.Payments.Authorizations.{PaymentPayload}
use xander.Payments.Service.{
  allowance_remaining, marked, serve, settle, pass_gate, verify_payment, claim_nonce, take_payment,
  price, authorize_paid_request,
}
use xander.Payments.Rows.{
  X402Payment, PaidReceipt, PaymentStatus, Outcome402, PaidRequest, Verification, Settlement,
  is_granted, paid_action, payment_refusal, claims_nonce, payment_row,
}
use xander.Payments.Service.Laws.{IsEnforced, IsPaidFor, authorize_paid_request-cases}
use xander.Payments.Service.Paid.{is_settled, World, IsGranted}
use xander.Payments.Matching.{IsMatching}
use xander.Payments.Guards.{IsMatching-payment_refusal}
use xander.Capabilities.Check.{Permits, check_capability_complete}
use xander.Authorization.Request.{AuthorizationResult}
use xander.Authorization.Enforcement.Service.Laws.{IsProven, verify_enforcement_iff}

module _ (D : Database) (C : Chain) (P : Table X402Payment) (R : Table PaidReceipt)
    (label_of : String → Option String) (q : PaidRequest) (c : Capability) (p : PaymentPayload)
    (t : String) (payer : Option String) (moved : q.settlement ≡ Settlement.successful t payer)
    (verified : q.verification ≡ Verification.valid_payment) where
  settle-served :
      (verdict : EnforcementVerdict) (remaining : Option ℕ) (w : World D C P R label_of q)
      → is_settled
          (settle D C P R label_of q p c verdict remaining (Settlement.successful t payer) w).0
        ≡ true
  unfolding settle serve
  settle-served verdict remaining w = refl

  gate-served :
      (b : Bool) (verdict : EnforcementVerdict) (remaining : Option ℕ)
      → (w : World D C P R label_of q) (s : Settlement) → s ≡ Settlement.successful t payer
      → b ≡ true
      → is_settled
          ((if b
              then settle D C P R label_of q p c verdict remaining s
              else marked D C P R label_of q PaymentStatus.denied Outcome402.unenforced remaining)
            w).0
        ≡ true
  gate-served b verdict remaining w s same enforced =
      rw (enforced, same) (settle-served verdict remaining w)

  verify-served :
      (remaining : Option ℕ) (w : World D C P R label_of q) (a : Verification)
      → a ≡ Verification.valid_payment
      → IsEnforced D C P R label_of q w
      → is_settled (verify_payment D C P R label_of q p c remaining a w).0 ≡ true
  unfolding verify_payment pass_gate
  verify-served remaining w a same enforced = rw same (
      gate-served
        (verify_enforcement D C label_of w.boundaries (paid_action q) q.gate_time).enforced
        (verify_enforcement D C label_of w.boundaries (paid_action q) q.gate_time) remaining w
        q.settlement moved enforced)

  take-served :
      (remaining : Option ℕ) (w : World D C P R label_of q) (payload : Option PaymentPayload)
      → payload ≡ some p
      → payment_refusal q p ≡ none
      → ltb 0 (P.count (claims_nonce (to_lower_case p.authorization.nonce)) w.payments) ≡ false
      → IsEnforced D C P R label_of q w
      → is_settled (take_payment D C P R label_of q c remaining payload w).0 ≡ true
  unfolding claim_nonce take_payment
  take-served remaining w payload given fits fresh enforced =
      rw (given, take_payment, fits, fresh)
        (verify-served remaining
          (record w {
            payments =
                P.create
                  (payment_row q PaymentStatus.verified (some (to_lower_case p.authorization.nonce))
                    (some (to_lower_case p.authorization.from)))
                  w.payments;
          })
          q.verification verified enforced)

  price-served :
      (check : CapabilityCheck) (found : Option Capability) (w : World D C P R label_of q)
      → check.allowed ≡ true
      → found ≡ some c
      → q.payload ≡ some p
      → payment_refusal q p ≡ none
      → ltb 0 (P.count (claims_nonce (to_lower_case p.authorization.nonce)) w.payments) ≡ false
      → IsEnforced D C P R label_of q w
      → is_settled (price D C P R label_of q check found w).0 ≡ true
  unfolding price
  price-served check found w allowed named given fits fresh enforced =
      rw (named, price, allowed)
        (take-served (allowance_remaining D C P R label_of q c w) w q.payload given fits fresh
          enforced)

  pub request-served :
      (w : World D C P R label_of q)
      → is_granted q.decision ≡ true
      → (check_capability D w.boundaries.store (paid_action q) q.now).allowed ≡ true
      → (check_capability D w.boundaries.store (paid_action q) q.now).capability ≡ some c
      → q.payload ≡ some p
      → payment_refusal q p ≡ none
      → ltb 0 (P.count (claims_nonce (to_lower_case p.authorization.nonce)) w.payments) ≡ false
      → IsEnforced D C P R label_of q w
      → is_settled (authorize_paid_request D C P R label_of q w).0 ≡ true
  unfolding authorize_paid_request
  request-served w granted allowed found given fits fresh enforced = rw granted (
      price-served (check_capability D w.boundaries.store (paid_action q) q.now)
        (check_capability D w.boundaries.store (paid_action q) q.now).capability w allowed found
        given fits fresh enforced)

IsGranted-is_granted :
    (decision : Option AuthorizationResult) → IsGranted decision → is_granted decision ≡ true
IsGranted-is_granted decision (inl e) = rw e refl
IsGranted-is_granted decision (inr e) = rw e refl

held_nonce :
    (nonce : String) (held : Option String)
    → (elim held [ none ↦ false | some n ↦ str_eq n nonce ]) ≡ true
    → held ≡ some nonce
held_nonce nonce none h = absurd (cc h)
held_nonce nonce (some n) h = ap (λ t. some t) ((eq_iff n nonce).0 h)

unclaimed-count :
    (nonce : String) (rows : List X402Payment)
    → All (λ x. x.nonce ≢ some nonce) rows
    → ltb 0 (count_if (claims_nonce nonce) rows) ≡ false
unclaimed-count nonce [] h = refl
unclaimed-count nonce (x ∷ rows) (other, rest) = elim (Bool-cases (claims_nonce nonce x)) [
  | inl hit ↦ absurd (other (held_nonce nonce x.nonce hit))
  | inr miss ↦ rw miss (unclaimed-count nonce rows rest)
]

-- A request with a granted intent, of an actor with a capability on file that permits it, and with a
-- payment that matches and whose nonce is on no payment yet, is settled where the facilitator
-- verifies and settles it and every boundary confirms the action at the gate: the payment is on file
-- as settled, with its nonce and the transaction, the newest receipt of the intent, if there is one,
-- as executed, and one use of a capability that allowed it is
-- added.
pub authorize_paid_request_complete :
    (D : Database) (C : Chain) (P : Table X402Payment) (R : Table PaidReceipt)
    (label_of : String → Option String) (q : PaidRequest) (k : Capability) (p : PaymentPayload)
    (t : String) (payer : Option String) (w : World D C P R label_of q)
    → IsGranted q.decision
    → Permits D w.boundaries.store (paid_action q) q.now k
    → q.payload ≡ some p
    → IsMatching q p
    → All (λ x. x.nonce ≢ some (to_lower_case p.authorization.nonce)) (P.rows w.payments)
    → q.verification ≡ Verification.valid_payment
    → IsProven D C (label_of q.actor_id) w.boundaries (paid_action q) q.gate_time
    → q.settlement ≡ Settlement.successful t payer
    → (is_settled (authorize_paid_request D C P R label_of q w).0 ≡ true)
      × IsPaidFor D C P R label_of q w (authorize_paid_request D C P R label_of q w)
authorize_paid_request_complete D C P R label_of q k p t payer w granted permits given fits unused
      verified proven moved =
    let (c, check, _) =
      check_capability_complete D w.boundaries.store (paid_action q) q.now k permits in
    let settled : is_settled (authorize_paid_request D C P R label_of q w).0 ≡ true =
      request-served D C P R label_of q c p t payer moved verified w
        (IsGranted-is_granted q.decision granted) (ap (λ (x : CapabilityCheck). x.allowed) check)
        (ap (λ (x : CapabilityCheck). x.capability) check) given
        (IsMatching-payment_refusal q p fits)
        (rw (P.count-rows (claims_nonce (to_lower_case p.authorization.nonce)) w.payments)
          (unclaimed-count (to_lower_case p.authorization.nonce) (P.rows w.payments) unused))
        ((verify_enforcement_iff D C label_of w.boundaries (paid_action q) q.gate_time).1 proven) in
    elim (authorize_paid_request-cases D C P R label_of q w) [
      | inl (unsettled, _) ↦ absurd (cc (sym unsettled ∙ settled))
      | inr paid ↦ (settled, paid)
    ]
