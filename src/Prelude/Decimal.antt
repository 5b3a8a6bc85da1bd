-- ===== src/Prelude/Decimal.antt =====
-- Numbers as texts: `toString` of a bigint, and `BigInt` of any text.
use Prim.Native.Char.{Char, code}
use Prim.Native.Nat.{ℕ, zero, suc, ◌+◌, ◌-◌, ◌*◌, ◌/◌, ◌%◌, ◌<◌}
use Prim.Native.String.{String}
use mathlib.Core.Path.{◌≡◌, refl, ◌∙◌, ap}
use mathlib.Core.Bool.{Bool, true, false, ◌&&◌, ◌||◌}
use mathlib.Core.Option.{Option, none, some}
use native.Mathlib.Omega.{arith}
use xander.Prelude.Tests.{leb, ltb, ◌==◌, if◌then◌else◌, Bool-cases}
use xander.Prelude.Text.{is_digit, digits_from, parse_digits}
use mathlib.Core.Logic.{inl, inr}

-- The digit of a number below ten.
abbrev digit : ℕ → Char
digit zero = "0"
digit (suc zero) = "1"
digit (suc (suc zero)) = "2"
digit (suc (suc (suc zero))) = "3"
digit (suc (suc (suc (suc zero)))) = "4"
digit (suc (suc (suc (suc (suc zero))))) = "5"
digit (suc (suc (suc (suc (suc (suc zero)))))) = "6"
digit (suc (suc (suc (suc (suc (suc (suc zero))))))) = "7"
digit (suc (suc (suc (suc (suc (suc (suc (suc zero)))))))) = "8"
digit (suc (suc (suc (suc (suc (suc (suc (suc (suc _))))))))) = "9"

-- The digits of a number before a text, on fuel.
decimal_from : ℕ → ℕ → String → String
decimal_from zero n s = s
decimal_from (suc fuel) n s =
    let t = String.◌∷◌ (digit (n % 10)) s in
    let rest = decimal_from fuel (n / 10) t in if ltb n 10 then t else rest

-- `value.toString()` of a value that is not negative
unfoldable pub to_decimal : ℕ → String
unfolding decimal_from
to_decimal n = decimal_from (suc n) n ""

to_decimal_runs : to_decimal 1050 ≡ "1050"
unfolding to_decimal
to_decimal_runs = refl

digit-step :
    (k acc : ℕ) (s : String)
    → k < 10
    → digits_from acc (String.◌∷◌ (digit k) s) ≡ digits_from (acc * 10 + k) s
unfolding digits_from
digit-step zero acc s h = refl
digit-step (suc zero) acc s h = refl
digit-step (suc (suc zero)) acc s h = refl
digit-step (suc (suc (suc zero))) acc s h = refl
digit-step (suc (suc (suc (suc zero)))) acc s h = refl
digit-step (suc (suc (suc (suc (suc zero))))) acc s h = refl
digit-step (suc (suc (suc (suc (suc (suc zero)))))) acc s h = refl
digit-step (suc (suc (suc (suc (suc (suc (suc zero))))))) acc s h = refl
digit-step (suc (suc (suc (suc (suc (suc (suc (suc zero)))))))) acc s h = refl
digit-step (suc (suc (suc (suc (suc (suc (suc (suc (suc zero))))))))) acc s h = refl
digit-step (suc (suc (suc (suc (suc (suc (suc (suc (suc (suc k)))))))))) acc s h =
    absurd (omega arith)

decimal_from-digits :
    (fuel n : ℕ) (s : String) → n < fuel → digits_from 0 (decimal_from fuel n s) ≡ digits_from n s
unfolding decimal_from
decimal_from-digits zero n s h = absurd (omega arith)
decimal_from-digits (suc fuel) n s h = elim (Bool-cases (ltb n 10)) [
  | inl small ↦
      rw small (digit-step (n % 10) 0 s (omega arith) ∙ ap (λ k. digits_from k s) (ground arith))
  | inr large ↦ rw large (
      decimal_from-digits fuel (n / 10) (String.◌∷◌ (digit (n % 10)) s) (ground arith)
      ∙ (digit-step (n % 10) (n / 10) s (omega arith) ∙ ap (λ k. digits_from k s) (omega arith)))
]

decimal_from-cons :
    (fuel n : ℕ) (c : Char) (s : String)
    → parse_digits (decimal_from fuel n (String.◌∷◌ c s))
      ≡ digits_from 0 (decimal_from fuel n (String.◌∷◌ c s))
unfolding decimal_from parse_digits
decimal_from-cons zero n c s = refl
decimal_from-cons (suc fuel) n c s = elim (Bool-cases (ltb n 10)) [
  | inl small ↦ rw small refl
  | inr large ↦ rw large (decimal_from-cons fuel (n / 10) (digit (n % 10)) (String.◌∷◌ c s))
]

written :
    (fuel n : ℕ) (s : String)
    → parse_digits (decimal_from (suc fuel) n s) ≡ digits_from 0 (decimal_from (suc fuel) n s)
unfolding decimal_from parse_digits
written fuel n s = elim (Bool-cases (ltb n 10)) [
  | inl small ↦ rw small refl
  | inr large ↦ rw large (decimal_from-cons fuel (n / 10) (digit (n % 10)) s)
]

-- A number that was written is read back.
pub parse_digits-to_decimal : (n : ℕ) → parse_digits (to_decimal n) ≡ some n
unfolding to_decimal digits_from
parse_digits-to_decimal n = written n n "" ∙ decimal_from-digits (suc n) n "" (omega arith)

-- The characters that `BigInt` and `trim` skip at both ends.
abbrev is_space : Char → Bool
is_space c =
    (leb 9 (code c) && leb (code c) 13)
    || (code c == 32
        || (code c == 160
            || (code c == 5760
                || ((leb 8192 (code c) && leb (code c) 8202)
                    || (code c == 8232
                        || (code c == 8233
                            || (code c == 8239
                                || (code c == 8287 || (code c == 12288 || code c == 65279)))))))))

drop_spaces : String → String
drop_spaces String.[] = String.[]
drop_spaces (String.◌∷◌ c s) =
    let rest = drop_spaces s in if is_space c then rest else String.◌∷◌ c s

reverse_onto : String → String → String
reverse_onto acc String.[] = acc
reverse_onto acc (String.◌∷◌ c s) = reverse_onto (String.◌∷◌ c acc) s

trim : String → String
unfolding drop_spaces reverse_onto
trim s = reverse_onto "" (drop_spaces (reverse_onto "" (drop_spaces s)))

-- The value of a digit of a base up to sixteen, if it is one.
digit_value : ℕ → Char → Option ℕ
digit_value base c =
    let value =
      if is_digit c
      then code c - b'0'
      else if leb b'a' (code c) && leb (code c) b'f'
      then code c - b'a' + 10
      else if leb b'A' (code c) && leb (code c) b'F'
      then code c - b'A' + 10
      else base in
    if ltb value base then some value else none

base_from : ℕ → ℕ → String → Option ℕ
base_from base acc String.[] = some acc
base_from base acc (String.◌∷◌ c s) = elim (digit_value base c) [
  | none ↦ none
  | some d ↦ base_from base (acc * base + d) s
]

in_base : ℕ → String → Option (Bool × ℕ)
in_base base String.[] = none
in_base base (String.◌∷◌ c s) = elim (base_from base 0 (String.◌∷◌ c s)) [
  | none ↦ none
  | some n ↦ some (false, n)
]

signed : Bool → String → Option (Bool × ℕ)
signed negative s = elim (parse_digits s) [ none ↦ none | some n ↦ some (negative, n) ]

-- The base that the letter after a leading zero stands for.
prefixed : Char → Char → String → Option (Bool × ℕ)
unfolding in_base signed
prefixed c d s =
    if code c == b'-'
    then signed true (String.◌∷◌ d s)
    else if code c == b'+'
    then signed false (String.◌∷◌ d s)
    else if not_zero
    then none
    else if code d == b'x' || code d == b'X'
    then in_base 16 s
    else if code d == b'o' || code d == b'O'
    then in_base 8 s
    else if code d == b'b' || code d == b'B'
    then in_base 2 s
    else none
  where
    not_zero : Bool
    not_zero = ltb (code c) b'0' || ltb b'0' (code c)

other_form : String → Option (Bool × ℕ)
unfolding prefixed
other_form String.[] = some (false, 0)
other_form (String.◌∷◌ c String.[]) = none
other_form (String.◌∷◌ c (String.◌∷◌ d s)) = prefixed c d s

trimmed : String → Option (Bool × ℕ)
unfolding other_form base_from in_base digit_value
trimmed t = elim (parse_digits t) [ some n ↦ some (false, n) | none ↦ other_form t ]

-- `BigInt(value)` of a text, as a sign and a magnitude; none where it throws. An empty text is
-- zero, spaces at the ends do not count, a sign may stand before decimal digits, and a prefix
-- chooses another base.
unfoldable pub big_int : String → Option (Bool × ℕ)
unfolding trimmed trim
big_int s = elim (parse_digits s) [ some n ↦ some (false, n) | none ↦ trimmed (trim s) ]

big_int_runs : big_int " -12" ≡ some (true, 12)
unfolding big_int parse_digits other_form prefixed signed drop_spaces reverse_onto digits_from
big_int_runs = refl

big_int_hex : big_int "0x1F" ≡ some (false, 31)
unfolding big_int parse_digits other_form prefixed signed drop_spaces reverse_onto digits_from
    in_base base_from digit_value
big_int_hex = refl

pub big_int-digits : (s : String) (n : ℕ) → parse_digits s ≡ some n → big_int s ≡ some (false, n)
unfolding big_int
big_int-digits s n h = rw (h, big_int) refl
