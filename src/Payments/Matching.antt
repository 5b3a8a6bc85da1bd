-- ===== src/Payments/Matching.antt =====
-- What a payment that answers a request is: the guards of backend/src/x402/x402-types.ts and of
-- backend/src/x402/x402-service.ts, described without them.
use Prim.Native.Char.{Char, code}
use xander.Prelude.{
  ℕ, ◌≡◌, ◌≤◌, ◌<◌, ◌⊎◌, ◌+◌, ◌/◌, refl, ap, String, Bool, true, false, some, ◌==◌, zero, suc,
  Bool-cases, inl, inr, arith,
}
use xander.Prelude.Text.{to_lower_case}
use xander.Prelude.Decimal.{big_int}
use xander.Payments.Authorizations.{
  PaymentPayload, is_hex_digit, is_hex_of, is_hex, is_nonce, is_signature, is_below,
}
use xander.Payments.Rows.{PaidRequest}

-- Order of two bigints, each a sign (true below zero) and a size.
abbrev pub IsAtLeast : Bool × ℕ → Bool × ℕ → Type 0
IsAtLeast (false, n) (false, m) = m ≤ n
IsAtLeast (false, n) (true, m) = Unit
IsAtLeast (true, n) (false, m) = n + m ≡ 0
IsAtLeast (true, n) (true, m) = n ≤ m

-- A bigint that is more than a number.
abbrev pub Exceeds : Bool × ℕ → ℕ → Type 0
Exceeds (false, m) n = n < m
Exceeds (true, m) n = ⊥

abbrev pub IsHexDigit : Char → Type 0
IsHexDigit c =
    ((b'0' ≤ code c) × (code c ≤ b'9'))
    ⊎ (((b'a' ≤ code c) × (code c ≤ b'f')) ⊎ ((b'A' ≤ code c) × (code c ≤ b'F')))

abbrev pub AllHex : String → Type 0
AllHex String.[] = Unit
AllHex (String.◌∷◌ c s) = IsHexDigit c × AllHex s

abbrev pub text_length : String → ℕ
text_length String.[] = 0
text_length (String.◌∷◌ c s) = suc (text_length s)

-- `0x` and what comes after it, hexadecimal.
abbrev pub IsHexText : String → String → Type 0
IsHexText s t =
    (c : Char) × (d : Char) × (s ≡ String.◌∷◌ c (String.◌∷◌ d t))
    × (code c ≡ b'0')
    × (code d ≡ b'x')
    × AllHex t

-- A payment that answers what was asked, at the time of the request, and comes from the caller.
pub record IsMatching (q : PaidRequest) (p : PaymentPayload) : Type 0 where
  pub version : p.x402_version ≡ 2
  pub scheme : p.accepted.scheme ≡ q.requirements.scheme
  pub network : p.accepted.network ≡ q.requirements.network
  pub asset : to_lower_case p.accepted.asset ≡ to_lower_case q.requirements.asset
  pub pay_to : to_lower_case p.accepted.pay_to ≡ to_lower_case q.requirements.pay_to
  pub recipient : to_lower_case p.authorization.to ≡ to_lower_case q.requirements.pay_to
  pub value : Bool × ℕ
  pub required : Bool × ℕ
  pub value_read : big_int p.authorization.value ≡ some value
  pub required_read : big_int q.requirements.amount ≡ some required
  pub enough : IsAtLeast value required
  pub nonce : (t : String) × IsHexText p.authorization.nonce t × (text_length t ≡ 64)
  pub signature : (t : String) × IsHexText p.signature t × (0 < text_length t)
  pub after : Bool × ℕ
  pub before : Bool × ℕ
  pub after_read : big_int p.authorization.valid_after ≡ some after
  pub before_read : big_int p.authorization.valid_before ≡ some before
  pub begun : IsAtLeast (false, q.now / 1000) after
  pub not_over : Exceeds before (q.now / 1000)
  pub payer : to_lower_case p.authorization.from ≡ to_lower_case q.wallet

pub below-IsAtLeast : (a b : Bool × ℕ) → is_below a b ≡ false → IsAtLeast a b
below-IsAtLeast (false, n) (false, m) h = ground arith
below-IsAtLeast (false, n) (true, m) h = tt
below-IsAtLeast (true, n) (false, m) h = ground arith
below-IsAtLeast (true, n) (true, m) h = ground arith

pub IsAtLeast-below : (a b : Bool × ℕ) → IsAtLeast a b → is_below a b ≡ false
IsAtLeast-below (false, n) (false, m) h = ground arith
IsAtLeast-below (false, n) (true, m) h = refl
IsAtLeast-below (true, n) (false, m) h = ground arith
IsAtLeast-below (true, n) (true, m) h = ground arith

pub below-Exceeds : (b : Bool × ℕ) (n : ℕ) → is_below (false, n) b ≡ true → Exceeds b n
below-Exceeds (false, m) n h = ground arith
below-Exceeds (true, m) n h = absurd (cc h)

pub Exceeds-below : (b : Bool × ℕ) (n : ℕ) → Exceeds b n → is_below (false, n) b ≡ true
Exceeds-below (false, m) n h = ground arith
Exceeds-below (true, m) n h = absurd h

digit-IsHexDigit : (c : Char) → is_hex_digit c ≡ true → IsHexDigit c
digit-IsHexDigit c h = ground arith

IsHexDigit-digit : (c : Char) → IsHexDigit c → is_hex_digit c ≡ true
IsHexDigit-digit c h = ground arith

hex_of-AllHex : (n : ℕ) (s : String) → is_hex_of n s ≡ true → AllHex s × (text_length s ≡ n)
unfolding is_hex_of
hex_of-AllHex zero String.[] h = (tt, refl)
hex_of-AllHex zero (String.◌∷◌ c s) h = absurd (cc h)
hex_of-AllHex (suc n) String.[] h = absurd (cc h)
hex_of-AllHex (suc n) (String.◌∷◌ c s) h = elim (Bool-cases (is_hex_digit c)) [
  | inr other ↦ absurd (cc (rw other at h))
  | inl digit ↦
      let (rest, size) = hex_of-AllHex n s (rw digit at h) in
      ((digit-IsHexDigit c digit, rest), ap (λ k. suc k) size)
]

AllHex-hex_of : (n : ℕ) (s : String) → AllHex s → text_length s ≡ n → is_hex_of n s ≡ true
unfolding is_hex_of
AllHex-hex_of zero String.[] h e = refl
AllHex-hex_of zero (String.◌∷◌ c s) h e = absurd (omega arith)
AllHex-hex_of (suc n) String.[] h e = absurd (omega arith)
AllHex-hex_of (suc n) (String.◌∷◌ c s) (digit, rest) e =
    rw (IsHexDigit-digit c digit) (AllHex-hex_of n s rest (omega arith))

hex-AllHex : (s : String) → is_hex s ≡ true → AllHex s
unfolding is_hex
hex-AllHex String.[] h = tt
hex-AllHex (String.◌∷◌ c s) h = elim (Bool-cases (is_hex_digit c)) [
  | inr other ↦ absurd (cc (rw other at h))
  | inl digit ↦ (digit-IsHexDigit c digit, hex-AllHex s (rw digit at h))
]

AllHex-hex : (s : String) → AllHex s → is_hex s ≡ true
unfolding is_hex
AllHex-hex String.[] h = refl
AllHex-hex (String.◌∷◌ c s) (digit, rest) = rw (IsHexDigit-digit c digit) (AllHex-hex s rest)

pub nonce-IsHexText :
    (s : String) → is_nonce s ≡ true → (t : String) × IsHexText s t × (text_length t ≡ 64)
unfolding is_nonce
nonce-IsHexText String.[] h = absurd (cc h)
nonce-IsHexText (String.◌∷◌ c String.[]) h = absurd (cc h)
nonce-IsHexText (String.◌∷◌ c (String.◌∷◌ d t)) h = elim (Bool-cases (code c == b'0')) [
  | inr other ↦ absurd (cc (rw other at h))
  | inl zero_first ↦ elim (Bool-cases (code d == b'x')) [
    | inr other ↦ absurd (cc (rw (zero_first, other) at h))
    | inl then_x ↦
        let (hex, size) = hex_of-AllHex 64 t (rw (zero_first, then_x) at h) in
        (t, (c, d, refl, ground (arith, zero_first), ground (arith, then_x), hex), size)
  ]
]

pub IsHexText-nonce : (s t : String) → IsHexText s t → text_length t ≡ 64 → is_nonce s ≡ true
unfolding is_nonce
IsHexText-nonce s t (c, d, e, first, second, hex) size =
    let zero_first : (code c == b'0') ≡ true = ground arith in
    let then_x : (code d == b'x') ≡ true = ground arith in
    rw (e, is_nonce, zero_first, then_x) (AllHex-hex_of 64 t hex size)

pub signature-IsHexText :
    (s : String) → is_signature s ≡ true → (t : String) × IsHexText s t × (0 < text_length t)
unfolding is_signature
signature-IsHexText String.[] h = absurd (cc h)
signature-IsHexText (String.◌∷◌ c String.[]) h = absurd (cc h)
signature-IsHexText (String.◌∷◌ c (String.◌∷◌ d String.[])) h = absurd (cc h)
signature-IsHexText (String.◌∷◌ c (String.◌∷◌ d (String.◌∷◌ e t))) h =
    elim (Bool-cases (code c == b'0')) [
      | inr other ↦ absurd (cc (rw other at h))
      | inl zero_first ↦ elim (Bool-cases (code d == b'x')) [
        | inr other ↦ absurd (cc (rw (zero_first, other) at h))
        | inl then_x ↦ elim (Bool-cases (is_hex_digit e)) [
          | inr other ↦ absurd (cc (rw (zero_first, then_x, other) at h))
          | inl digit ↦
              let hex = hex-AllHex t (rw (zero_first, then_x, digit) at h) in
              (
                String.◌∷◌ e t,
                (
                  c,
                  d,
                  refl,
                  ground (arith, zero_first),
                  ground (arith, then_x),
                  (digit-IsHexDigit e digit, hex),
                ),
                omega arith,
              )
        ]
      ]
    ]

pub IsHexText-signature : (s t : String) → IsHexText s t → 0 < text_length t → is_signature s ≡ true
unfolding is_signature
IsHexText-signature s String.[] h long = absurd (omega arith)
IsHexText-signature s (String.◌∷◌ e t) (c, d, same, first, second, (digit, hex)) long =
    let zero_first : (code c == b'0') ≡ true = ground arith in
    let then_x : (code d == b'x') ≡ true = ground arith in
    rw (same, is_signature, zero_first, then_x, IsHexDigit-digit e digit) (AllHex-hex t hex)
