-- ===== src/Payments/Authorizations.antt =====
-- Whether a payment answers what was asked: `paymentMatchesRequirements` and
-- `authorizationIsCurrent` of backend/src/x402/x402-types.ts. A field has the type that the interface
-- gives it. A validity that is too large for a float is compared exactly: rounding keeps the order,
-- and the seconds of a clock are exact.
use Prim.Native.Char.{Char, code}
use xander.Prelude.{
  ℕ, zero, suc, ◌+◌, ◌/◌, String, Bool, true, false, ◌&&◌, ◌||◌, not, Option, none, some, ltb, leb,
  ◌==◌, str_eq, if◌then◌else◌,
}
use xander.Prelude.Text.{is_digit, to_lower_case}
use xander.Prelude.Decimal.{big_int}

pub record PaymentRequirements : Type 0 where
  pub scheme : String
  pub network : String
  pub amount : String
  pub asset : String
  pub pay_to : String

pub record Eip3009Authorization : Type 0 where
  pub from : String
  pub to : String
  pub value : String
  pub valid_after : String
  pub valid_before : String
  pub nonce : String

pub record PaymentPayload : Type 0 where
  pub x402_version : ℕ
  pub accepted : PaymentRequirements
  pub signature : String
  pub authorization : Eip3009Authorization

-- The reasons of the two functions, `ok` as none.
pub data Mismatch : Type 0 where
  unsupported_version scheme_mismatch network_mismatch asset_mismatch pay_to_mismatch
        wrong_recipient unparseable_amount below_required bad_nonce bad_signature unparseable_window
        not_yet_valid expired payer_mismatch :
      Mismatch

abbrev pub is_hex_digit : Char → Bool
is_hex_digit c =
    is_digit c
    || ((leb b'a' (code c) && leb (code c) b'f') || (leb b'A' (code c) && leb (code c) b'F'))

-- `[0-9a-fA-F]{n}` to the end of the text.
unfoldable pub is_hex_of : ℕ → String → Bool
is_hex_of zero String.[] = true
is_hex_of zero (String.◌∷◌ c s) = false
is_hex_of (suc n) String.[] = false
is_hex_of (suc n) (String.◌∷◌ c s) = is_hex_digit c && is_hex_of n s

-- `[0-9a-fA-F]*` to the end of the text.
unfoldable pub is_hex : String → Bool
is_hex String.[] = true
is_hex (String.◌∷◌ c s) = is_hex_digit c && is_hex s

-- `/^0x[0-9a-fA-F]{64}$/`
unfoldable pub is_nonce : String → Bool
is_nonce String.[] = false
is_nonce (String.◌∷◌ c String.[]) = false
is_nonce (String.◌∷◌ c (String.◌∷◌ d s)) = (code c == b'0') && ((code d == b'x') && is_hex_of 64 s)

-- `/^0x[0-9a-fA-F]+$/`
unfoldable pub is_signature : String → Bool
is_signature String.[] = false
is_signature (String.◌∷◌ c String.[]) = false
is_signature (String.◌∷◌ c (String.◌∷◌ d String.[])) = false
is_signature (String.◌∷◌ c (String.◌∷◌ d (String.◌∷◌ e s))) =
    (code c == b'0') && ((code d == b'x') && (is_hex_digit e && is_hex s))

-- Order of two bigints, each a sign and a size.
abbrev pub is_below : Bool × ℕ → Bool × ℕ → Bool
is_below (false, n) (false, m) = ltb n m
is_below (false, n) (true, m) = false
is_below (true, n) (false, m) = ltb 0 (n + m)
is_below (true, n) (true, m) = ltb m n

unfoldable pub amount_mismatch : Option (Bool × ℕ) → Option (Bool × ℕ) → Option Mismatch
amount_mismatch none _ = some Mismatch.unparseable_amount
amount_mismatch (some value) none = some Mismatch.unparseable_amount
amount_mismatch (some value) (some required) =
    if is_below value required then some Mismatch.below_required else none

-- What comes after the amount.
unfoldable pub form_mismatch : PaymentPayload → Option Mismatch → Option Mismatch
form_mismatch p (some m) = some m
form_mismatch p none =
    if not (is_nonce p.authorization.nonce)
    then some Mismatch.bad_nonce
    else if not (is_signature p.signature)
    then some Mismatch.bad_signature
    else none

abbrev pub x402_version : ℕ
x402_version = 2

-- `paymentMatchesRequirements`: why it does not match, if it does not
unfoldable pub payment_mismatch : PaymentPayload → PaymentRequirements → Option Mismatch
payment_mismatch p r =
    if not (p.x402_version == x402_version)
    then some Mismatch.unsupported_version
    else if not (str_eq p.accepted.scheme r.scheme)
    then some Mismatch.scheme_mismatch
    else if not (str_eq p.accepted.network r.network)
    then some Mismatch.network_mismatch
    else if not (str_eq (to_lower_case p.accepted.asset) (to_lower_case r.asset))
    then some Mismatch.asset_mismatch
    else if not (str_eq (to_lower_case p.accepted.pay_to) (to_lower_case r.pay_to))
    then some Mismatch.pay_to_mismatch
    else if not (str_eq (to_lower_case p.authorization.to) (to_lower_case r.pay_to))
    then some Mismatch.wrong_recipient
    else form_mismatch p (amount_mismatch (big_int p.authorization.value) (big_int r.amount))

unfoldable pub window_mismatch : ℕ → Option (Bool × ℕ) → Option (Bool × ℕ) → Option Mismatch
window_mismatch seconds none _ = some Mismatch.unparseable_window
window_mismatch seconds (some after) none = some Mismatch.unparseable_window
window_mismatch seconds (some after) (some before) =
    if is_below (false, seconds) after
    then some Mismatch.not_yet_valid
    else if not (is_below (false, seconds) before)
    then some Mismatch.expired
    else none

-- `authorizationIsCurrent`: why it is not, if it is not
unfoldable pub authorization_window : Eip3009Authorization → ℕ → Option Mismatch
authorization_window a now =
    window_mismatch (now / 1000) (big_int a.valid_after) (big_int a.valid_before)
