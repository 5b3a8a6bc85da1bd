-- ===== src/Ens/Roles.antt =====
-- Role bitmaps of the registry: backend/src/ens/eac-roles.ts. A bitmap is a 256-bit word.
pub mod Laws
mod Tests
use Prim.Native.Nat.{bit_and, bit_or, ◌^◌}
use mathlib.Core.List.{foldl}
use xander.Prelude.{
  ℕ, ◌+◌, ◌-◌, ◌*◌, String, Bool, Option, none, some, List, [], ◌∷◌, map, ltb, ◌==◌, filter,
  if◌then◌else◌, str_eq,
}

abbrev pub admin_role_offset : ℕ
admin_role_offset = 128

abbrev pub max_regular_roles : ℕ
max_regular_roles = 32

-- `1n << n`
abbrev pub shift_one : ℕ → ℕ
shift_one n = 2 ^ n

-- `roleBit`: a role takes four bits; an index out of range throws.
unfoldable pub role_bit : ℕ → Option ℕ
role_bit index = if ltb index max_regular_roles then some (shift_one (index * 4)) else none

-- `adminRoleBit`; its callers give it constants that are in range
unfoldable pub admin_role_bit : ℕ → ℕ
admin_role_bit index = shift_one (index * 4) * shift_one admin_role_offset

-- `combineRoles`
unfoldable pub combine_roles : List ℕ → ℕ
combine_roles bitmaps = foldl bit_or 0 bitmaps

-- `hasAllRoles`
unfoldable pub has_all_roles : ℕ → ℕ → Bool
has_all_roles bitmap required = bit_and bitmap required == required

abbrev word_mod : ℕ
word_mod = 2 ^ 256

-- `bitmap & ~remove`, in a word of 256 bits
unfoldable pub without_roles : ℕ → ℕ → ℕ
without_roles bitmap remove = bit_and bitmap (word_mod - 1 - remove)

-- The keys of `AGENT_ROLE_INDEX`
pub data AgentRole : Type 0 where
  claim trade transfer borrow api_request vote x402_payment : AgentRole

abbrev pub agent_role_index : AgentRole → ℕ
agent_role_index AgentRole.claim = 8
agent_role_index AgentRole.trade = 9
agent_role_index AgentRole.transfer = 10
agent_role_index AgentRole.borrow = 11
agent_role_index AgentRole.api_request = 12
agent_role_index AgentRole.vote = 13
agent_role_index AgentRole.x402_payment = 14

abbrev pub role_name : AgentRole → String
role_name AgentRole.claim = "CLAIM"
role_name AgentRole.trade = "TRADE"
role_name AgentRole.transfer = "TRANSFER"
role_name AgentRole.borrow = "BORROW"
role_name AgentRole.api_request = "API_REQUEST"
role_name AgentRole.vote = "VOTE"
role_name AgentRole.x402_payment = "X402_PAYMENT"

abbrev pub agent_roles : List AgentRole
agent_roles =
    AgentRole.claim ∷ AgentRole.trade ∷ AgentRole.transfer ∷ AgentRole.borrow
    ∷ AgentRole.api_request ∷ AgentRole.vote ∷ AgentRole.x402_payment ∷ []

-- The bit of an agent's role
abbrev pub agent_bit : AgentRole → ℕ
agent_bit role = shift_one (agent_role_index role * 4)

role_named : String → List AgentRole → Option AgentRole
role_named action [] = none
role_named action (r ∷ rs) = if str_eq (role_name r) action then some r else role_named action rs

role_bit_of : Option AgentRole → Option ℕ
role_bit_of none = none
role_bit_of (some role) = role_bit (agent_role_index role)

-- `agentRoleForAction`. An action that spells an inherited property, such as `constructor`, makes the
-- code throw a range error; here it has no role.
unfoldable pub agent_role_for_action : String → Option ℕ
unfolding role_named role_bit_of
agent_role_for_action action = role_bit_of (role_named action agent_roles)

-- `REGISTRATION_ROLE_BITMAP`
unfoldable pub registration_role_bitmap : ℕ
unfolding combine_roles admin_role_bit
registration_role_bitmap =
    combine_roles
      (shift_one 0 ∷ admin_role_bit 0 ∷ shift_one 4 ∷ admin_role_bit 1 ∷ admin_role_bit 2 ∷ [])

-- `AGENT_REGISTRATION_ROLE_BITMAP`
unfoldable pub agent_registration_role_bitmap : ℕ
unfolding registration_role_bitmap
agent_registration_role_bitmap =
    combine_roles
      (registration_role_bitmap ∷ map (λ role. admin_role_bit (agent_role_index role)) agent_roles)

-- `ALL_AGENT_ROLES`
unfoldable pub all_agent_roles : ℕ
unfolding combine_roles
all_agent_roles = combine_roles (map agent_bit agent_roles)

-- `actionsFromBitmap`
unfoldable pub actions_from_bitmap : ℕ → List AgentRole
unfolding has_all_roles
actions_from_bitmap bitmap = filter (λ role. has_all_roles bitmap (agent_bit role)) agent_roles
