-- ===== src/Capabilities/Types.antt =====
-- The pure half of the capabilities: backend/src/capabilities/capability-types.ts.
-- An amount is a text of base units, as the source keeps it; a time is a number of milliseconds.
use xander.Prelude.{
  ℕ, String, Bool, true, false, Option, none, some, List, [], ◌∷◌, ltb, leb, if◌then◌else◌, any,
  is_none, str_eq,
}
use xander.Prelude.Text.{parse_digits, to_lower_case}

-- A status column is free text: what the program has no name for is `other`.
pub data CapabilityStatus : Type 0 where
  active expired revoked suspended : CapabilityStatus
  other : String → CapabilityStatus

pub data CapabilityType : Type 0 where
  grant attenuated_grant : CapabilityType

pub record CapabilityLimits : Type 0 where
  pub amount_limit : Option String
  pub frequency_limit : Option ℕ
  pub frequency_window_seconds : Option ℕ
  pub allowed_targets : List String
  pub expires_at : Option ℕ

pub data CapabilityDenial : Type 0 where
  not_found capability_expired capability_revoked capability_suspended : CapabilityDenial
  amount_exceeded frequency_exceeded target_not_allowed assurance_expired : CapabilityDenial

unfoldable pub parse_amount : Option String → Option ℕ
unfolding parse_digits
parse_amount none = none
parse_amount (some value) = parse_digits value

-- `requestedValue <= ceilingValue ? requested : ceiling`, once both have parsed.
attenuate_parsed : Option String → String → Option ℕ → Option ℕ → Option String
attenuate_parsed requested ceiling none r = requested
attenuate_parsed requested ceiling (some c) none = some ceiling
attenuate_parsed requested ceiling (some c) (some r) = if leb r c then requested else some ceiling

unfoldable pub attenuate_amount : Option String → Option String → Option String
unfolding attenuate_parsed
attenuate_amount requested none = requested
attenuate_amount requested (some ceiling) =
    attenuate_parsed requested ceiling (parse_amount (some ceiling)) (parse_amount requested)

within_parsed : Option String → Option ℕ → Option ℕ → Bool
within_parsed requested none r = true
within_parsed requested (some c) none = is_none requested
within_parsed requested (some c) (some r) = leb r c

unfoldable pub within_amount_limit : Option String → Option String → Bool
unfolding within_parsed
within_amount_limit requested none = true
within_amount_limit requested (some ceiling) =
    within_parsed requested (parse_amount (some ceiling)) (parse_amount requested)

-- An empty list of targets means that any target is allowed.
unfoldable pub target_allowed : Option String → List String → Bool
target_allowed target [] = true
target_allowed none (_ ∷ _) = false
target_allowed (some target) (a ∷ allowed) = any (str_eq (to_lower_case target)) (a ∷ allowed)

abbrev pub is_active : CapabilityStatus → Bool
is_active CapabilityStatus.active = true
is_active _ = false

unfoldable pub is_capability_live : CapabilityStatus → Option ℕ → ℕ → Bool
is_capability_live status none now = is_active status
is_capability_live status (some expires_at) now =
    if is_active status then ltb now expires_at else false

pub record AssuranceLease : Type 0 where
  pub id : String
  pub actor_id : String
  pub level : String
  pub status : CapabilityStatus
  pub expires_at : ℕ

unfoldable pub is_lease_live : Option AssuranceLease → ℕ → Bool
is_lease_live none now = false
is_lease_live (some lease) now = if is_active lease.status then ltb now lease.expires_at else false
