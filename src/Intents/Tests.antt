-- ===== src/Intents/Tests.antt =====
-- A transfer that the first rule that applies allows, and the same by a frozen actor.
use xander.Prelude.{ap, sym, ◌∙◌, inr, ◌≡◌, refl, inl, false, none, some, ◌∷◌, []}
use xander.Prelude.Sort.{sort_asc}
use xander.Capabilities.Types.{parse_amount, is_lease_live}
use xander.Capabilities.Store.{Capability, get_live_lease, grant_capability}
use xander.Capabilities.Tests.{database, state}
use xander.Policy.Engine.{decide, decide_named, decide_band, band_for}
use xander.Policy.Tests.{thresholds, low_risk}
use xander.Trust.Vector.{bootstrap_vector}
use xander.Authorization.Rules.{
  Rule, select_rule, rule_matches, apply_rule, evaluate_rules, action_ok, band_ok, least_ok,
  most_ok, assurance_ok,
}
use xander.Authorization.Rules.Tests.{plain}
use xander.Authorization.Rules.Selection.{IsFirst}
use xander.Authorization.Rules.Outcome.{Grants}
use xander.Authorization.Request.{AuthorizationResult}
use xander.Intents.Rows.{
  Request, is_expired, early_row, held_row, decided_row, evaluation_request, grant_input,
  is_authorizing, TrustContext,
}
use xander.Intents.Authorize.{
  Readings, authorize, with_wallet, with_trust, evaluate_intent, outcome_for, grant_outcome,
  persist,
}
use xander.Prelude.Memory.{memory, sort}
use xander.Intents.Create.{IntentStatus, IntentRow, IntentInput, create_intent}
use xander.Intents.Create.Laws.{HasUniqueKeys, IsReplayOf, create_intent_replayed}
use xander.Intents.Authorize.Route.{IsAdmitted}
use xander.Intents.Authorize.Granted.{IsGrantOf}
use xander.Intents.Authorize.Laws.{
  lease_seen, request_seen, authorize-IsAdmitted, authorize_withholds,
}

abbrev transfer_request : Request
transfer_request = record {
  intent_id = "intent-1";
  actor = record { id = "alice"; actor_type = "AGENT"; status = "ACTIVE" };
  expires_at = 200000;
  now = 100000;
  resource_type = "wallet";
  resource_id = "w1";
  action_type = "TRANSFER";
  amount = some "700";
  asset = none;
  chain_id = none;
  target_address = none;
}

abbrev trust : TrustContext
trust = record { band = "VERIFIED_LOW"; vector = bootstrap_vector; snapshot_id = "snap-1" }

abbrev allowing : Rule
allowing = record plain { max_coordination_risk = none }

abbrev readings : Readings database
readings = record {
  wallet = some "0xab";
  risk = low_risk;
  thresholds = thresholds;
  trust = some trust;
  lease_store = state;
  lease_time = 100000;
  listed_store = state;
  rules = allowing ∷ [];
  context = record { policy_id = some "p1"; policy_version = "v2.0"; now = 100000 };
  decision_id = "decision-1";
  grant_store = state;
  capability_id = "cap-2";
  grant_time = 100001;
}

-- An authorization with all that it calls open.
run_authorize : Request → AuthorizationResult
unfolding authorize with_wallet with_trust evaluate_intent outcome_for grant_outcome persist
    is_expired early_row held_row decided_row evaluation_request grant_input grant_capability
    get_live_lease is_lease_live decide decide_named decide_band band_for evaluate_rules select_rule
    rule_matches apply_rule action_ok band_ok least_ok most_ok assurance_ok parse_amount sort
    sort_asc bootstrap_vector
run_authorize request = (authorize database request readings).decision.result

allowed : (authorize database transfer_request readings).decision.result ≡ AuthorizationResult.allow
unfolding run_authorize
allowed = refl

authorize-IsAdmitted_example :
    (t : TrustContext) × (rule : Rule) × IsAdmitted database transfer_request readings t
    × IsFirst (allowing ∷ []) (request_seen database transfer_request readings t) (some rule)
    × Grants rule.effect
    × ((c : Capability) × ((authorize database transfer_request readings).grant ≡ some c)
        × IsGrantOf transfer_request rule readings.context.now
            (lease_seen database transfer_request readings t)
            readings.decision_id
            c
        × ((authorize database transfer_request readings).store.capabilities
            ≡ c ∷ readings.grant_store.capabilities)
        × ((authorize database transfer_request readings).store.usages
            ≡ readings.grant_store.usages)
        × ((authorize database transfer_request readings).store.leases
            ≡ readings.grant_store.leases))
authorize-IsAdmitted_example = authorize-IsAdmitted database transfer_request readings (inl allowed)

abbrev frozen_request : Request
frozen_request = record transfer_request {
  actor = record { id = "alice"; actor_type = "AGENT"; status = "FROZEN" };
}

frozen : is_authorizing (authorize database frozen_request readings).decision.result ≡ false
unfolding run_authorize
frozen = refl

authorize_withholds_example :
    ((authorize database frozen_request readings).grant ≡ none)
    × ((authorize database frozen_request readings).store ≡ state)
authorize_withholds_example = authorize_withholds database frozen_request readings frozen

abbrev input : IntentInput
input = record {
  actor = record { id = "alice"; actor_type = "AGENT"; status = "ACTIVE" };
  resource_type = "wallet";
  resource_id = "w1";
  action_type = "TRANSFER";
  chain_id = none;
  target_address = none;
  amount = some "700";
  asset = none;
  protocol = none;
  parameters_hash = "0xhash";
  expires_at = none;
  idempotency_key = "key-1";
}

-- An intent that another submission of the same key put there after the read.
abbrev winner : IntentRow
winner = record {
  id = "intent-0";
  actor_id = "alice";
  resource_type = "wallet";
  resource_id = "w1";
  action_type = "TRANSFER";
  chain_id = none;
  target_address = none;
  amount = some "700";
  asset = none;
  protocol = none;
  parameters_hash = "0xhash";
  expires_at = 400000;
  idempotency_key = "key-1";
  status = IntentStatus.decided;
}

one_key : HasUniqueKeys (winner ∷ [])
one_key a b (inl ea) (inl eb) same = ap (λ (i : IntentRow). i.id) (ea ∙ sym eb)
one_key a b (inr none_left) m same = absurd none_left
one_key a b (inl ea) (inr none_left) same = absurd none_left

create_intent_replayed_example :
    IsReplayOf database memory input "intent-1" 100000 300 readings
      (winner ∷ [])
      winner
      (create_intent database memory input "intent-1" 100000 300 readings [] (winner ∷ []))
create_intent_replayed_example =
    create_intent_replayed database memory input "intent-1" 100000 300 readings [] (winner ∷ [])
      winner one_key (λ i m. absurd m) (inl refl) refl
