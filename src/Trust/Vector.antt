-- ===== src/Trust/Vector.antt =====
-- The trust vector and the band that it gives: backend/src/trust/trust-types.ts and
-- backend/src/trust/trust-vector.ts. A measured value is a number of millionths; the texts that
-- explain a value (`basis`) are left out.
use Prim.Native.Nat.{min}
use xander.Prelude.{
  ℕ, Bool, true, false, ◌&&◌, Option, none, some, List, [], ◌∷◌, ltb, leb, count_if, if◌then◌else◌,
}

-- A number of millionths, which may be negative before it is clamped.
pub data ℤ : Type 0 where
  pos negsuc : ℕ → ℤ

pub data DimensionState : Type 0 where
  known unknown not_applicable : DimensionState

pub record TrustDimensionValue : Type 0 where
  pub value : Option ℕ
  pub state : DimensionState

-- `Math.min(1, Math.max(0, value))`
abbrev pub clamped : ℤ → ℕ
clamped (ℤ.negsuc _) = 0
clamped (ℤ.pos n) = min n 1000000

unfoldable pub dimension : ℤ → TrustDimensionValue
dimension value = record { value = some (clamped value); state = DimensionState.known }

abbrev pub unknown_dimension : TrustDimensionValue
unknown_dimension = record { value = none; state = DimensionState.unknown }

abbrev pub not_applicable_dimension : TrustDimensionValue
not_applicable_dimension = record { value = none; state = DimensionState.not_applicable }

pub record TrustVector : Type 0 where
  pub behavior_integrity : TrustDimensionValue
  pub coordination_risk : TrustDimensionValue
  pub history_strength : TrustDimensionValue
  pub human_assurance : TrustDimensionValue
  pub agent_reputation : TrustDimensionValue
  pub evidence_freshness : TrustDimensionValue
  pub investigation_confidence : TrustDimensionValue

pub data TrustBand : Type 0 where
  verified_low established_low uncertain high_risk critical insufficient_evidence : TrustBand

pub record TrustBandOptions : Type 0 where
  pub critical_coordination_risk : ℕ
  pub high_coordination_risk : ℕ
  pub low_coordination_risk : ℕ
  pub established_history_strength : ℕ
  pub verified_human_assurance : ℕ
  pub min_known_dimensions : ℕ

pub data FreshnessClass : Type 0 where
  fresh aging stale expired : FreshnessClass

pub record FreshnessOptions : Type 0 where
  pub aging_after_seconds : ℕ
  pub stale_after_seconds : ℕ
  pub expired_after_seconds : ℕ

-- `classifyFreshness`
unfoldable pub classify_freshness : ℕ → FreshnessOptions → FreshnessClass
classify_freshness age opts =
    if leb opts.expired_after_seconds age
    then FreshnessClass.expired
    else if leb opts.stale_after_seconds age
    then FreshnessClass.stale
    else if leb opts.aging_after_seconds age
    then FreshnessClass.aging
    else FreshnessClass.fresh

abbrev pub by_class : FreshnessClass → ℕ
by_class FreshnessClass.fresh = 1000000
by_class FreshnessClass.aging = 660000
by_class FreshnessClass.stale = 330000
by_class FreshnessClass.expired = 0

-- `freshnessToDimension`
unfoldable pub freshness_to_dimension : FreshnessClass → TrustDimensionValue
freshness_to_dimension cls = dimension (ℤ.pos (by_class cls))

abbrev pub is_known : TrustDimensionValue → Bool
is_known d = elim d.state [ known ↦ true | unknown ↦ false | not_applicable ↦ false ]

abbrev pub dimensions : TrustVector → List TrustDimensionValue
dimensions v =
    v.behavior_integrity ∷ v.coordination_risk ∷ v.history_strength ∷ v.human_assurance
    ∷ v.agent_reputation ∷ v.evidence_freshness ∷ v.investigation_confidence ∷ []

-- `knownDimensionCount`
unfoldable pub known_dimension_count : TrustVector → ℕ
known_dimension_count v = count_if is_known (dimensions v)

-- `value ?? 0`
abbrev pub or_zero : Option ℕ → ℕ
or_zero none = 0
or_zero (some n) = n

-- Whether a dimension is measured at a level or above it.
abbrev pub reaches : ℕ → TrustDimensionValue → Bool
reaches level d = is_known d && leb level (or_zero d.value)

-- `deriveBand`, once the coordination risk is known
unfoldable pub band_of_risk : TrustVector → TrustBandOptions → ℕ → TrustBand
band_of_risk v opts risk =
    let low = ltb risk opts.low_coordination_risk in
    if leb opts.critical_coordination_risk risk
    then TrustBand.critical
    else if leb opts.high_coordination_risk risk
    then TrustBand.high_risk
    else if low && reaches opts.verified_human_assurance v.human_assurance
    then TrustBand.verified_low
    else if low && reaches opts.established_history_strength v.history_strength
    then TrustBand.established_low
    else TrustBand.uncertain

-- The risk to go by: of a dimension that is known and has a value.
abbrev pub risk_of : TrustDimensionValue → Option ℕ
risk_of d = if is_known d then d.value else none

-- `deriveBand`
unfoldable pub derive_band : TrustVector → TrustBandOptions → TrustBand
derive_band v opts =
    if ltb (known_dimension_count v) opts.min_known_dimensions
    then TrustBand.insufficient_evidence
    else elim (risk_of v.coordination_risk) [
      | none ↦ TrustBand.insufficient_evidence
      | some risk ↦ band_of_risk v opts risk
    ]

-- `bootstrapVector`
unfoldable pub bootstrap_vector : TrustVector
bootstrap_vector = record {
  behavior_integrity = unknown_dimension;
  coordination_risk = unknown_dimension;
  history_strength = unknown_dimension;
  human_assurance = unknown_dimension;
  agent_reputation = unknown_dimension;
  evidence_freshness = unknown_dimension;
  investigation_confidence = unknown_dimension;
}
