-- ===== src/Payments/Service/Paid.antt =====
-- What it is for a paid request to be served, or not (backend/src/x402/x402-service.ts).
use mathlib.Core.List.{head?}
use xander.Authorization.Enforcement.Execution.{ExecutionStatus}
use xander.Prelude.{
  ap, In, In-map, ◌≡◌, ◌≢◌, ◌⊎◌, refl, sym, ◌∙◌, String, Bool, true, false, Option, some, List, [],
  ◌∷◌, All, count_if, ltb, eq_iff, str_eq, Bool-cases, inl, inr, arith,
}
use xander.Prelude.Text.{to_lower_case}
use xander.Prelude.Table.{Table, patch}
use xander.Prelude.Effects.{Outcome, returns, throws}
use xander.Capabilities.Store.{Capability, Database, record_usage}
use xander.Authorization.Request.{AuthorizationResult}
use xander.Authorization.Enforcement.EnsEac.{Chain}
use xander.Authorization.Enforcement.Service.{EnforcementVerdict, Boundaries, verify_enforcement}
use xander.Payments.Authorizations.{PaymentPayload}
use xander.Payments.Service.{newest_receipt, PaymentWorld}
use xander.Payments.Rows.{
  executed_receipt, settled_row, X402Payment, PaidReceipt, X402Result, X402Error, PaidRequest,
  Verification, Settlement, is_granted, paid_action, claims_nonce, PaymentStatus, settled,
}

-- The intent was allowed or limited.
abbrev pub IsGranted : Option AuthorizationResult → Type 0
IsGranted decision =
    (decision ≡ some AuthorizationResult.allow) ⊎ (decision ≡ some AuthorizationResult.limit)

pub is_granted-IsGranted :
    (decision : Option AuthorizationResult) → is_granted decision ≡ true → IsGranted decision
is_granted-IsGranted (some AuthorizationResult.allow) h = inl refl
is_granted-IsGranted (some AuthorizationResult.limit) h = inr refl
is_granted-IsGranted _ h = absurd (cc h)

head?-In : (r : PaidReceipt) (rs : List PaidReceipt) → head? rs ≡ some r → In r rs
head?-In r [] h = absurd (cc h)
head?-In r (x ∷ rs) h = inl (cc h)

pub unclaimed :
    (nonce : String) (rows : List X402Payment)
    → ltb 0 (count_if (claims_nonce nonce) rows) ≡ false
    → All (λ x. x.nonce ≢ some nonce) rows
unclaimed nonce [] h = tt
unclaimed nonce (x ∷ rows) h = elim (Bool-cases (claims_nonce nonce x)) [
  | inl hit ↦ absurd (ground (arith, hit))
  | inr miss ↦ (
    (λ same.
        let hit : claims_nonce nonce x ≡ true = rw same ((eq_iff nonce nonce).1 refl) in
        cc (sym miss ∙ hit)),
    unclaimed nonce rows (rw miss at h),
  )
]

abbrev pub is_settled : Outcome X402Error X402Result → Bool
is_settled (throws e) = false
is_settled (returns r) = elim r.outcome [ settled ↦ true | _ ↦ false ]

module _ (D : Database) (C : Chain) (P : Table X402Payment) (R : Table PaidReceipt)
    (label_of : String → Option String) (q : PaidRequest) where
  abbrev pub World : Type 0
  World = PaymentWorld D C P R label_of

  -- The request was not settled, and no capability, no use and nothing on the chain changed.
  abbrev pub IsUnserved : World → Outcome X402Error X402Result × World → Type 0
  IsUnserved w (o, v) = (is_settled o ≡ false) × (v.boundaries ≡ w.boundaries)

  -- The payment is on file with its nonce.
  abbrev pub HasClaimed : PaymentPayload → World → Type 0
  HasClaimed p w =
      (x : X402Payment) × In x (P.rows w.payments)
      × (x.id ≡ q.payment_id)
      × (x.nonce ≡ some (to_lower_case p.authorization.nonce))

  -- The payment is on file as settled, with its nonce and the transaction.
  abbrev pub HasPaid : PaymentPayload → String → P.Db → Type 0
  HasPaid p t db =
      (x : X402Payment) × In x (P.rows db)
      × (x.id ≡ q.payment_id)
      × (x.nonce ≡ some (to_lower_case p.authorization.nonce))
      × (x.status ≡ PaymentStatus.settled)
      × (x.transaction ≡ some t)

  -- The newest receipt of the intent, if there is one, is on file as executed, with the transaction.
  abbrev pub HasFinished : String → World → R.Db → Type 0
  HasFinished t w db =
      (x : PaidReceipt)
      → newest_receipt D C P R label_of q.intent_id w ≡ some x
      → (y : PaidReceipt) × In y (R.rows db)
        × (y.id ≡ x.id)
        × (y.execution_status ≡ ExecutionStatus.executed_as_authorized)
        × (y.execution_tx_hash ≡ some t)

  -- One use of the capability was added, and no other use, no capability, no lease and nothing on the
  -- chain changed.
  pub record HasUsed (c : Capability) (w v : Boundaries D C) : Type 0 where
    pub use_added :
        D.usage.rows v.store.usages
        ≡ record {
          capability_id = c.id;
          intent_id = some q.intent_id;
          amount = some q.requirements.amount;
          created_at = q.gate_time;
        }
          ∷ D.usage.rows w.store.usages
    pub capabilities_kept : v.store.capabilities ≡ w.store.capabilities
    pub leases_kept : v.store.leases ≡ w.store.leases
    pub chain_kept : v.chain ≡ w.chain

  -- What the steps from the claim of the nonce on need to settle, and what they leave.
  pub record IsServed (p : PaymentPayload) (c : Capability) (w : World)
      (r : Outcome X402Error X402Result × World) : Type 0 where
    pub unused : All (λ x. x.nonce ≢ some (to_lower_case p.authorization.nonce)) (P.rows w.payments)
    pub verified : q.verification ≡ Verification.valid_payment
    pub enforced :
        (verify_enforcement D C label_of w.boundaries (paid_action q) q.gate_time).enforced ≡ true
    pub transaction : String
    pub payer : Option String
    pub moved : q.settlement ≡ Settlement.successful transaction payer
    pub paid : HasPaid p transaction r.1.payments
    pub finished : HasFinished transaction w r.1.receipts
    pub used : HasUsed c w.boundaries r.1.boundaries

  abbrev pub HasMoved :
      Settlement
      → PaymentPayload
      → Capability
      → World
      → Outcome X402Error X402Result × World
      → Type 0
  HasMoved s p c w r =
      (t : String) × (payer : Option String) × (s ≡ Settlement.successful t payer)
      × HasPaid p t r.1.payments
      × HasFinished t w r.1.receipts
      × HasUsed c w.boundaries r.1.boundaries

  pub use-HasUsed :
      (c : Capability) (b : Boundaries D C)
      → HasUsed c b (record b {
        store =
            record_usage D c.id (some q.intent_id) (some q.requirements.amount) q.gate_time b.store;
      })
  unfolding record_usage
  use-HasUsed c b = record {
    use_added = D.usage.create-rows _ b.store.usages;
    capabilities_kept = refl;
    leases_kept = refl;
    chain_kept = refl;
  }

  pub executed-HasFinished :
      (t : String) (verdict : EnforcementVerdict) (r : PaidReceipt) (w : World)
      → newest_receipt D C P R label_of q.intent_id w ≡ some r
      → HasFinished t w
          (R.update_many (λ k. str_eq k.id r.id) (executed_receipt q verdict t) w.receipts).1
  executed-HasFinished t verdict r w newest x same =
      let is_r : r ≡ x = cc in
      let (there, _) =
        (R.find_many-In (λ k. str_eq k.intent_id q.intent_id) (λ k. k.created_at) w.receipts r).0
          (head?-In r _ newest) in
      let hit : str_eq r.id r.id ≡ true = (eq_iff r.id r.id).1 refl in
      let made : PaidReceipt → PaidReceipt =
        patch (λ k. str_eq k.id r.id) (executed_receipt q verdict t) in
      (
        made r,
        rw (R.update_many-rows (λ k. str_eq k.id r.id) (executed_receipt q verdict t) w.receipts)
            (In-map made (R.rows w.receipts) r there),
        rw hit (ap (λ (k : PaidReceipt). k.id) is_r),
        rw hit refl,
        rw hit refl,
      )

  pub settled-HasPaid :
      (p : PaymentPayload) (t : String) (payer receipt : Option String) (w : World)
      → HasClaimed p w
      → HasPaid p t
          (P.update_many
            (λ x. str_eq x.id q.payment_id)
            (settled_row q p t payer receipt)
            w.payments).1
  settled-HasPaid p t payer receipt w (x, there, named, claimed) =
      let hit : str_eq x.id q.payment_id ≡ true = (eq_iff x.id q.payment_id).1 named in
      let made : X402Payment → X402Payment =
        patch (λ k. str_eq k.id q.payment_id) (settled_row q p t payer receipt) in
      (
        made x,
        rw
            (P.update_many-rows (λ k. str_eq k.id q.payment_id) (settled_row q p t payer receipt)
              w.payments)
            (In-map made (P.rows w.payments) x there),
        rw hit named,
        rw hit claimed,
        rw hit refl,
        rw hit refl,
      )
