-- ===== src/Payments/Guards.antt =====
-- A payment passes the guards of backend/src/x402/x402-types.ts and of
-- backend/src/x402/x402-service.ts exactly if it matches.
use xander.Prelude.{
  ℕ, ◌≡◌, ◌/◌, refl, Bool, true, false, not, Option, none, some, ◌==◌, eq_iff, str_eq, Bool-cases,
  Option-cases, inl, inr, arith, if◌then◌else◌,
}
use xander.Prelude.Text.{to_lower_case}
use xander.Prelude.Decimal.{big_int}
use xander.Payments.Authorizations.{
  PaymentPayload, Mismatch, x402_version, is_nonce, is_signature, is_below, payment_mismatch,
  amount_mismatch, form_mismatch, window_mismatch, authorization_window,
}
use xander.Payments.Rows.{PaidRequest, payment_refusal}
use xander.Payments.Matching.{
  IsAtLeast, Exceeds, IsMatching, below-IsAtLeast, IsAtLeast-below, below-Exceeds, Exceeds-below,
  nonce-IsHexText, IsHexText-nonce, signature-IsHexText, IsHexText-signature,
}

-- A guard that was passed.
passed :
    (b : Bool) (m : Mismatch) (rest : Option Mismatch)
    → (if not b then some m else rest) ≡ none
    → (b ≡ true) × (rest ≡ none)
passed true m rest h = (refl, h)
passed false m rest h = absurd (cc h)

amount_mismatch-none :
    (value required : Option (Bool × ℕ))
    → amount_mismatch value required ≡ none
    → (a : Bool × ℕ) × (b : Bool × ℕ) × (value ≡ some a) × (required ≡ some b) × IsAtLeast a b
unfolding amount_mismatch
amount_mismatch-none none required h = absurd (cc h)
amount_mismatch-none (some a) none h = absurd (cc h)
amount_mismatch-none (some a) (some b) h = elim (Bool-cases (is_below a b)) [
  | inl below ↦ absurd (cc (rw below at h))
  | inr enough ↦ (a, b, refl, refl, below-IsAtLeast a b enough)
]

window_mismatch-none :
    (seconds : ℕ) (after before : Option (Bool × ℕ))
    → window_mismatch seconds after before ≡ none
    → (a : Bool × ℕ) × (b : Bool × ℕ) × (after ≡ some a)
      × (before ≡ some b)
      × IsAtLeast (false, seconds) a
      × Exceeds b seconds
unfolding window_mismatch
window_mismatch-none seconds none before h = absurd (cc h)
window_mismatch-none seconds (some a) none h = absurd (cc h)
window_mismatch-none seconds (some a) (some b) h = elim (Bool-cases (is_below (false, seconds) a)) [
  | inl early ↦ absurd (cc (rw early at h))
  | inr begun ↦
      let (over, _) = passed (is_below (false, seconds) b) Mismatch.expired none (rw begun at h) in
      (a, b, refl, refl, below-IsAtLeast (false, seconds) a begun, below-Exceeds b seconds over)
]

form_mismatch-none :
    (p : PaymentPayload) (m : Option Mismatch)
    → form_mismatch p m ≡ none
    → (m ≡ none) × (is_nonce p.authorization.nonce ≡ true) × (is_signature p.signature ≡ true)
unfolding form_mismatch
form_mismatch-none p none h =
    let (nonce, rest) = passed (is_nonce p.authorization.nonce) Mismatch.bad_nonce _ h in
    (refl, nonce, (passed (is_signature p.signature) Mismatch.bad_signature none rest).0)
form_mismatch-none p (some m) h = absurd (cc h)

-- The part of the description that the first of the two functions decides.
Fits : PaidRequest → PaymentPayload → Type 0
Fits q p =
    (p.x402_version ≡ 2)
    × (p.accepted.scheme ≡ q.requirements.scheme)
    × (p.accepted.network ≡ q.requirements.network)
    × (to_lower_case p.accepted.asset ≡ to_lower_case q.requirements.asset)
    × (to_lower_case p.accepted.pay_to ≡ to_lower_case q.requirements.pay_to)
    × (to_lower_case p.authorization.to ≡ to_lower_case q.requirements.pay_to)
    × (amount_mismatch (big_int p.authorization.value) (big_int q.requirements.amount) ≡ none)
    × (is_nonce p.authorization.nonce ≡ true)
    × (is_signature p.signature ≡ true)

payment_mismatch-none :
    (q : PaidRequest) (p : PaymentPayload) → payment_mismatch p q.requirements ≡ none → Fits q p
unfolding payment_mismatch Fits
payment_mismatch-none q p h =
    let r = q.requirements in
    let (version, h1) = passed (p.x402_version == x402_version) Mismatch.unsupported_version _ h in
    let (scheme, h2) = passed (str_eq p.accepted.scheme r.scheme) Mismatch.scheme_mismatch _ h1 in
    let (network, h3) =
      passed (str_eq p.accepted.network r.network) Mismatch.network_mismatch _ h2 in
    let (asset, h4) =
      passed (str_eq (to_lower_case p.accepted.asset) (to_lower_case r.asset))
        Mismatch.asset_mismatch _ h3 in
    let (pay_to, h5) =
      passed (str_eq (to_lower_case p.accepted.pay_to) (to_lower_case r.pay_to))
        Mismatch.pay_to_mismatch _ h4 in
    let (to, h6) =
      passed (str_eq (to_lower_case p.authorization.to) (to_lower_case r.pay_to))
        Mismatch.wrong_recipient _ h5 in
    let (amount, nonce, signature) = form_mismatch-none p _ h6 in
    (
      ground (arith, version),
      (eq_iff p.accepted.scheme r.scheme).0 scheme,
      (eq_iff p.accepted.network r.network).0 network,
      (eq_iff (to_lower_case p.accepted.asset) (to_lower_case r.asset)).0 asset,
      (eq_iff (to_lower_case p.accepted.pay_to) (to_lower_case r.pay_to)).0 pay_to,
      (eq_iff (to_lower_case p.authorization.to) (to_lower_case r.pay_to)).0 to,
      amount,
      nonce,
      signature,
    )

Fits-IsMatching :
    (q : PaidRequest) (p : PaymentPayload)
    → Fits q p
    → authorization_window p.authorization q.now ≡ none
    → to_lower_case p.authorization.from ≡ to_lower_case q.wallet
    → IsMatching q p
unfolding authorization_window Fits
Fits-IsMatching q p (version, scheme, network, asset, pay_to, to, amount, nonce, signature) window
      payer =
    let (value, required, value_read, required_read, enough) = amount_mismatch-none _ _ amount in
    let (after, before, after_read, before_read, begun, not_over) =
      window_mismatch-none _ _ _ window in
    record {
      version = version;
      scheme = scheme;
      network = network;
      asset = asset;
      pay_to = pay_to;
      recipient = to;
      value = value;
      required = required;
      value_read = value_read;
      required_read = required_read;
      enough = enough;
      nonce = nonce-IsHexText p.authorization.nonce nonce;
      signature = signature-IsHexText p.signature signature;
      after = after;
      before = before;
      after_read = after_read;
      before_read = before_read;
      begun = begun;
      not_over = not_over;
      payer = payer;
    }

pub payment_refusal-none :
    (q : PaidRequest) (p : PaymentPayload) → payment_refusal q p ≡ none → IsMatching q p
unfolding payment_refusal
payment_refusal-none q p h = elim (Option-cases (payment_mismatch p q.requirements)) [
  | inr (m, wrong) ↦ absurd (cc (rw (wrong, payment_refusal) at h))
  | inl fits ↦ elim (Option-cases (authorization_window p.authorization q.now)) [
    | inr (m, late) ↦ absurd (cc (rw (fits, late, payment_refusal) at h))
    | inl current ↦
        elim (Bool-cases (str_eq (to_lower_case p.authorization.from) (to_lower_case q.wallet))) [
          | inr other ↦ absurd (cc (rw (fits, current, other, payment_refusal) at h))
          | inl same ↦
              Fits-IsMatching q p (payment_mismatch-none q p fits) current
                ((eq_iff (to_lower_case p.authorization.from) (to_lower_case q.wallet)).0 same)
        ]
  ]
]

IsMatching-fits :
    (q : PaidRequest) (p : PaymentPayload)
    → IsMatching q p
    → payment_mismatch p q.requirements ≡ none
unfolding payment_mismatch form_mismatch amount_mismatch
IsMatching-fits q p m =
    let r = q.requirements in
    let (t, nonce, size) = m.nonce in
    let (s, signature, long) = m.signature in
    let version : (p.x402_version == x402_version) ≡ true = rw (m.version) refl in
    rw
      (
        version,
        (eq_iff p.accepted.scheme r.scheme).1 m.scheme,
        (eq_iff p.accepted.network r.network).1 m.network,
        (eq_iff (to_lower_case p.accepted.asset) (to_lower_case r.asset)).1 m.asset,
        (eq_iff (to_lower_case p.accepted.pay_to) (to_lower_case r.pay_to)).1 m.pay_to,
        (eq_iff (to_lower_case p.authorization.to) (to_lower_case r.pay_to)).1 m.recipient,
        m.value_read,
        m.required_read,
        amount_mismatch,
        IsAtLeast-below m.value m.required m.enough,
        form_mismatch,
        IsHexText-nonce p.authorization.nonce t nonce size,
        IsHexText-signature p.signature s signature long,
      )
      refl

-- Whatever matches passes.
pub IsMatching-payment_refusal :
    (q : PaidRequest) (p : PaymentPayload) → IsMatching q p → payment_refusal q p ≡ none
unfolding payment_refusal authorization_window window_mismatch
IsMatching-payment_refusal q p m =
    rw
      (
        IsMatching-fits q p m,
        payment_refusal,
        m.after_read,
        m.before_read,
        window_mismatch,
        IsAtLeast-below (false, q.now / 1000) m.after m.begun,
        Exceeds-below m.before (q.now / 1000) m.not_over,
        (eq_iff (to_lower_case p.authorization.from) (to_lower_case q.wallet)).1 m.payer,
      )
      refl
