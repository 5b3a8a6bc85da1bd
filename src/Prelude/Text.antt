-- ===== src/Prelude/Text.antt =====
-- Texts as the program reads them: decimal digits.
use Prim.Native.Char.{Char, code}
use Prim.Native.Nat.{ℕ, zero, suc, ◌+◌, ◌-◌, ◌*◌}
use Prim.Native.String.{String}
use mathlib.Core.Path.{◌≡◌, refl}
use mathlib.Core.Bool.{Bool, true, ◌&&◌, ◌||◌}
use mathlib.Core.Option.{Option, none, some}
use xander.Prelude.Tests.{leb, ◌==◌, if◌then◌else◌}

-- `\d` of a regular expression: the ASCII digits.
abbrev pub is_digit : Char → Bool
is_digit c = leb b'0' (code c) && leb (code c) b'9'

-- The number that a run of decimal digits stands for, after the digits read so far.
unfoldable pub digits_from : ℕ → String → Option ℕ
digits_from acc String.[] = some acc
digits_from acc (String.◌∷◌ c s) =
    let rest = digits_from (acc * 10 + (code c - b'0')) s in if is_digit c then rest else none

-- `BigInt(value)` where `/^\d+$/` matches, and nothing elsewhere.
unfoldable pub parse_digits : String → Option ℕ
unfolding digits_from
parse_digits String.[] = none
parse_digits (String.◌∷◌ c s) = digits_from 0 (String.◌∷◌ c s)

parse_digits_runs : parse_digits "5000" ≡ some 5000
unfolding parse_digits
parse_digits_runs = refl

parse_digits_refuses : parse_digits "5e3" ≡ none
unfolding parse_digits
parse_digits_refuses = refl

abbrev lower_letters : String
lower_letters = "abcdefghijklmnopqrstuvwxyz"

-- The character at a place, or another one past the end.
letter_at : ℕ → String → Char → Char
letter_at i String.[] d = d
letter_at zero (String.◌∷◌ c s) d = c
letter_at (suc i) (String.◌∷◌ c s) d = letter_at i s d

lower_char : Char → Char
unfolding letter_at
lower_char c =
    if leb b'A' (code c) && leb (code c) b'Z' then letter_at (code c - b'A') lower_letters c else c

-- `toLowerCase` on ASCII text; no other letter stands in an address or an identifier.
unfoldable pub to_lower_case : String → String
unfolding lower_char
to_lower_case String.[] = String.[]
to_lower_case (String.◌∷◌ c s) = String.◌∷◌ (lower_char c) (to_lower_case s)

to_lower_case_runs : to_lower_case "0xAbC9" ≡ "0xabc9"
unfolding to_lower_case
to_lower_case_runs = refl

-- The second text after the first, as in a template literal.
unfoldable pub append : String → String → String
append String.[] t = t
append (String.◌∷◌ c s) t = String.◌∷◌ c (append s t)

-- The white space that `trim` removes.
abbrev is_space : ℕ → Bool
is_space c =
    (leb 9 c && leb c 13)
    || (c == 32
        || (c == 160
            || (c == 5760
                || ((leb 8192 c && leb c 8202)
                    || (c == 8232
                        || (c == 8233
                            || (c == 8239 || (c == 8287 || (c == 12288 || c == 65279)))))))))

-- `!text.trim()`
unfoldable pub is_blank : String → Bool
is_blank String.[] = true
is_blank (String.◌∷◌ c s) = is_space (code c) && is_blank s

-- The character with code 0, which separates the parts of a text that is hashed.
abbrev pub nul : String
nul = "\0"
