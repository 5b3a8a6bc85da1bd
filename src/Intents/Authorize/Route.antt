-- ===== src/Intents/Authorize/Route.antt =====
-- The ways through an authorization: stopped early, or evaluated by policy
-- (`authorize` of backend/src/intent/intent-service.ts).
use xander.Prelude.{
  ◌≡◌, ◌≢◌, ◌<◌, refl, sym, String, true, false, Option, none, some, arith, eq_iff, leb, str_eq,
  Bool-cases, inl, inr,
}
use xander.Capabilities.Types.{AssuranceLease, CapabilityLimits}
use xander.Capabilities.Store.{Database, grant_capability, granted_row}
use xander.Policy.Engine.{Decision, decide}
use xander.Authorization.Request.{AuthorizationOutcome}
use xander.Intents.Rows.{
  Request, TrustContext, DecisionRow, is_expired, early_row, held_row, grant_input, is_authorizing,
}
use xander.Intents.Authorize.{
  Written, Readings, persist, grant_outcome, evaluate_intent, is_pending, with_trust, with_wallet,
  authorize,
}

-- Everything that has to be there before policy is asked at all.
pub record IsAdmitted (D : Database) (request : Request) (r : Readings D) (trust : TrustContext)
    : Type 0 where
  pub in_time : request.now < request.expires_at
  pub active : request.actor.status ≡ "ACTIVE"
  pub has_wallet : r.wallet ≢ none
  pub vouched : (decide r.risk r.thresholds).decision ≢ Decision.pending_review
  pub trusted : r.trust ≡ some trust

module _ (D : Database) (request : Request) (r : Readings D) where
  -- The two ways in which the function ends.
  pub data Route (w : Written D) : Type 0 where
    stopped :
        (row : DecisionRow)
        → is_authorizing row.result ≡ false
        → w ≡ persist D request row r
        → Route w
    evaluated :
        (trust : TrustContext)
        → IsAdmitted D request r trust
        → w ≡ evaluate_intent D request r trust
        → Route w

  trust-Route :
      (trust : Option TrustContext)
      → trust ≡ r.trust
      → request.now < request.expires_at
      → request.actor.status ≡ "ACTIVE"
      → r.wallet ≢ none
      → Route (with_trust D request r (decide r.risk r.thresholds) trust)
  unfolding with_trust held_row
  trust-Route none there t a w = stopped _ refl refl
  trust-Route (some trust) there t a w =
      elim (Bool-cases (is_pending (decide r.risk r.thresholds).decision)) [
        | inl pending ↦ rw pending (stopped _ refl refl)
        | inr vouched ↦ rw vouched (
            evaluated trust
              (record {
                in_time = t;
                active = a;
                has_wallet = w;
                vouched = λ e. cc (rw e at vouched);
                trusted = sym there;
              })
              refl)
      ]

  wallet-Route :
      (wallet : Option String)
      → wallet ≡ r.wallet
      → request.now < request.expires_at
      → request.actor.status ≡ "ACTIVE"
      → Route (with_wallet D request r wallet)
  unfolding with_wallet early_row
  wallet-Route none there t a = stopped _ refl refl
  wallet-Route (some w) there t a = trust-Route r.trust refl t a (λ e. cc)

  pub authorize-Route : Route (authorize D request r)
  unfolding authorize early_row is_expired
  authorize-Route = elim (Bool-cases (leb request.expires_at request.now)) [
    | inl late ↦ rw late (stopped _ refl refl)
    | inr t ↦ elim (Bool-cases (str_eq request.actor.status "ACTIVE")) [
      | inl a ↦
          rw (t, a)
            (wallet-Route r.wallet refl (ground arith) ((eq_iff request.actor.status "ACTIVE").0 a))
      | inr frozen ↦ rw (t, frozen) (stopped _ refl refl)
    ]
  ]

module _ (D : Database) (request : Request) (r : Readings D) (lease : Option AssuranceLease)
    (row : DecisionRow) (outcome : AuthorizationOutcome) where
  pub grant_outcome-decision :
      (limits : Option CapabilityLimits)
      → (grant_outcome D request r lease row outcome limits).decision ≡ row
  unfolding grant_outcome persist
  grant_outcome-decision none = refl
  grant_outcome-decision (some limits) = elim (Bool-cases (is_authorizing outcome.result)) [
    | inl h ↦ rw h refl
    | inr h ↦ rw h refl
  ]

  pub grant_outcome-withheld :
      (limits : Option CapabilityLimits)
      → is_authorizing outcome.result ≡ false
      → ((grant_outcome D request r lease row outcome limits).grant ≡ none)
        × ((grant_outcome D request r lease row outcome limits).store ≡ r.grant_store)
  unfolding grant_outcome persist
  grant_outcome-withheld none h = (refl, refl)
  grant_outcome-withheld (some limits) h = rw h (refl, refl)

  pub grant_outcome-granted :
      (found : Option CapabilityLimits) (limits : CapabilityLimits)
      → found ≡ some limits
      → is_authorizing outcome.result ≡ true
      → let capability =
          granted_row
            (grant_input request limits row.id lease outcome.attenuated)
            r.capability_id
            r.grant_time in
        ((grant_outcome D request r lease row outcome found).grant ≡ some capability)
        × ((grant_outcome D request r lease row outcome found).store ≡ record (r.grant_store) {
          capabilities = D.capability.create capability r.grant_store.capabilities;
        })
  unfolding grant_outcome grant_capability
  grant_outcome-granted none limits e h = absurd (cc)
  grant_outcome-granted (some found) limits e h =
      let same : found ≡ limits = cc in rw same (rw h (refl, refl))
