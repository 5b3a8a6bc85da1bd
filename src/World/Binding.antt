-- ===== src/World/Binding.antt =====
-- Whether a proof is for this wallet and this claim: backend/src/world/wallet-binding.ts. The hash of
-- the signal is a third party's.
pub mod Laws
use xander.Prelude.{ℕ, String, Bool, true, false, ◌&&◌, ◌||◌, not, Option, none, some, ◌==◌}
use xander.Prelude.Decimal.{big_int}
use xander.Prelude.Text.{append, to_lower_case}

-- `buildSignal`
unfoldable pub build_signal : String → String → String
build_signal wallet claim_id = append (to_lower_case wallet) (append ":" claim_id)

-- `expectedSignalHash`
abbrev pub expected_signal_hash : (String → String) → String → String → String
expected_signal_hash hash_signal wallet claim_id = hash_signal (build_signal wallet claim_id)

abbrev pub same_sign : Bool → Bool → Bool
same_sign true b = b
same_sign false b = not b

-- Equality of two bigints, each a sign and a size; there is one zero.
abbrev pub same_value : Option (Bool × ℕ) → Option (Bool × ℕ) → Bool
same_value none _ = false
same_value (some _) none = false
same_value (some (s, n)) (some (t, m)) = (n == m) && (same_sign s t || (n == 0))

-- `sameFieldElement`: a text that is no number equals nothing.
unfoldable pub same_field_element : String → String → Bool
same_field_element a b = same_value (big_int a) (big_int b)

-- `assertSignalBinding`, as a test
abbrev pub is_bound : (String → String) → String → String → String → Bool
is_bound hash_signal wallet claim_id signal_hash =
    same_field_element (expected_signal_hash hash_signal wallet claim_id) signal_hash
