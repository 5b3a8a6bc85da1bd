-- ===== src/Payments/Service/Tests.antt =====
-- A paid request with its payment, and the theorem at it.
use xander.Prelude.{inl, inr, ◌≡◌, ◌⊎◌, refl, true, false, none, some, [], ◌∷◌}
use xander.Prelude.Memory.{memory, sort, insert}
use xander.Prelude.Text.{to_lower_case, parse_digits}
use xander.Prelude.Decimal.{big_int}
use xander.Capabilities.Types.{is_capability_live, within_amount_limit, target_allowed}
use xander.Capabilities.Store.{
  Capability, check_capability, candidates, check_from, refusal, assurance_holds, frequency_holds,
}
use xander.Authorization.Enforcement.Local.{local_inspect}
use xander.Authorization.Enforcement.Service.{
  verify_enforcement, all_confirm, inspect_all, adapters_for_actor, local_adapter, names,
}
use xander.Capabilities.Tests.{database, transfer, state}
use xander.Authorization.Request.{AuthorizationResult}
use xander.Authorization.Enforcement.Tests.{chain, label_of}
use xander.Payments.Authorizations.{
  PaymentRequirements, PaymentPayload, payment_mismatch, form_mismatch, amount_mismatch,
  authorization_window, window_mismatch, is_nonce, is_hex_of, is_signature, is_hex,
}
use xander.Payments.Service.{PaymentWorld, authorize_paid_request}
use xander.Payments.Rows.{
  X402Payment, PaidReceipt, PaidRequest, Verification, Settlement, Outcome402, status_of,
  paid_action, payment_refusal,
}
use xander.Prelude.Table.{Table}
use xander.Payments.Guards.{payment_refusal-none}
use xander.Capabilities.Check.{Permits}
use xander.Capabilities.Check.Guards.{refusal-Bounds}
use xander.Authorization.Enforcement.Service.Laws.{verify_enforcement_iff}
use xander.Payments.Service.Served.{authorize_paid_request_complete}
use xander.Payments.Service.Laws.{IsPaidFor, IsEnforced, authorize_paid_request-cases}
use xander.Payments.Service.Paid.{IsUnserved, is_settled}

abbrev payments : Table X402Payment
payments = memory

abbrev receipts : Table PaidReceipt
receipts = memory

abbrev requirements : PaymentRequirements
requirements = record {
  scheme = "exact";
  network = "eip155:84532";
  amount = "100";
  asset = "0xAA";
  pay_to = "0xBB";
}

abbrev payload : PaymentPayload
payload = record {
  x402_version = 2;
  accepted = requirements;
  signature = "0xab";
  authorization = record {
    from = "0xCC";
    to = "0xbb";
    value = "100";
    valid_after = "0";
    valid_before = "1000";
    nonce = "0x0000000000000000000000000000000000000000000000000000000000000001";
  };
}

abbrev request : PaidRequest
request = record {
  wallet = "0xcc";
  payload = some payload;
  requirements = requirements;
  actor_id = "bob";
  intent_id = "intent-1";
  decision = some AuthorizationResult.limit;
  now = 2000;
  gate_time = 2100;
  payment_id = "payment-1";
  verification = Verification.valid_payment;
  settlement = Settlement.successful "0x1" none;
}

-- A capability for payments, without a ceiling, a rate or a lease.
abbrev paying : Capability
paying = record transfer {
  id = "cap-9";
  actor_id = "bob";
  action_type = "X402_PAYMENT";
  amount_limit = none;
  frequency_limit = none;
  frequency_window_seconds = none;
  allowed_targets = [];
  expires_at = none;
  assurance_lease_id = none;
}

abbrev world : PaymentWorld database chain payments receipts label_of
world = record {
  boundaries = record { store = record state { capabilities = paying ∷ [] }; chain = true };
  payments = [];
  receipts = [];
}

well_formed : is_nonce payload.authorization.nonce ≡ true
unfolding is_nonce is_hex_of
well_formed = refl

too_short : is_nonce "0x01" ≡ false
unfolding is_nonce is_hex_of
too_short = refl

signed : is_signature payload.signature ≡ true
unfolding is_signature is_hex
signed = refl

no_invitation : status_of Outcome402.refused ≡ 403
unfolding status_of
no_invitation = refl

authorize_paid_request-cases_example :
    IsUnserved database chain payments receipts label_of request world
      (authorize_paid_request database chain payments receipts label_of request world)
    ⊎ IsPaidFor database chain payments receipts label_of request world
        (authorize_paid_request database chain payments receipts label_of request world)
authorize_paid_request-cases_example =
    authorize_paid_request-cases database chain payments receipts label_of request world

usable : refusal database world.boundaries.store (paid_action request) 2000 paying ≡ none
unfolding refusal is_capability_live assurance_holds within_amount_limit target_allowed
    frequency_holds
usable = refl

permitted : Permits database world.boundaries.store (paid_action request) 2000 paying
permitted = record {
  stored = inl refl;
  actor = refl;
  action = refl;
  bounds = refusal-Bounds database world.boundaries.store 2000 (paid_action request) paying usable;
}

fitting : payment_refusal request payload ≡ none
unfolding payment_refusal payment_mismatch form_mismatch amount_mismatch authorization_window
    window_mismatch to_lower_case big_int parse_digits is_nonce is_hex_of is_signature is_hex
fitting = refl

enforced : IsEnforced database chain payments receipts label_of request world
unfolding verify_enforcement all_confirm inspect_all adapters_for_actor local_adapter names
    local_inspect check_capability candidates check_from refusal is_capability_live assurance_holds
    within_amount_limit target_allowed frequency_holds sort insert
enforced = refl

authorize_paid_request_complete_example :
    (is_settled (authorize_paid_request database chain payments receipts label_of request world).0
      ≡ true)
    × IsPaidFor database chain payments receipts label_of request world
        (authorize_paid_request database chain payments receipts label_of request world)
authorize_paid_request_complete_example =
    authorize_paid_request_complete database chain payments receipts label_of request paying payload
      "0x1" none world (inr refl) permitted refl (payment_refusal-none request payload fitting) tt
      refl
      ((verify_enforcement_iff database chain label_of world.boundaries (paid_action request)
          2100).0
        enforced)
      refl
