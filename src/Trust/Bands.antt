-- ===== src/Trust/Bands.antt =====
-- What a band says of the vector it was derived from (`deriveBand` of
-- backend/src/trust/trust-vector.ts).
use xander.Prelude.{
  ℕ, ◌≡◌, ◌≤◌, ◌<◌, ◌⊎◌, refl, true, some, arith, ltb, Bool-cases, inl, inr, Option-cases,
}
use xander.Trust.Vector.{
  DimensionState, TrustVector, TrustBand, TrustBandOptions, known_dimension_count, reaches, risk_of,
  band_of_risk, derive_band,
}

-- The bands from the best to the worst, those of an actor that was measured.
abbrev pub gravity : TrustBand → ℕ
gravity TrustBand.verified_low = 0
gravity TrustBand.established_low = 1
gravity TrustBand.uncertain = 2
gravity TrustBand.insufficient_evidence = 3
gravity TrustBand.high_risk = 4
gravity TrustBand.critical = 5

band_of_risk-le :
    (v : TrustVector) (opts : TrustBandOptions) (a b : ℕ)
    → a ≤ b
    → gravity (band_of_risk v opts a) ≤ gravity (band_of_risk v opts b)
unfolding band_of_risk
band_of_risk-le v opts a b h = ground arith

-- The vector with another measured coordination risk.
abbrev pub with_risk : ℕ → TrustVector → TrustVector
with_risk n v = record v {
  coordination_risk = record { value = some n; state = DimensionState.known };
}

count-with_risk :
    (v : TrustVector) (a b : ℕ)
    → known_dimension_count (with_risk a v) ≡ known_dimension_count (with_risk b v)
unfolding known_dimension_count
count-with_risk v a b = refl

-- More coordination risk, with every other dimension the same, never gives a better band, whatever
-- the thresholds are.
pub derive_band-le :
    (v : TrustVector) (opts : TrustBandOptions) (a b : ℕ)
    → a ≤ b
    → gravity (derive_band (with_risk a v) opts) ≤ gravity (derive_band (with_risk b v) opts)
unfolding derive_band band_of_risk
derive_band-le v opts a b h =
    elim (Bool-cases (ltb (known_dimension_count (with_risk b v)) opts.min_known_dimensions)) [
      | inl few ↦ rw (count-with_risk v a b, few) (omega arith)
      | inr enough ↦ rw (count-with_risk v a b, enough) (band_of_risk-le v opts a b h)
    ]

-- What a band that is low rests on.
pub record IsMeasuredLow (v : TrustVector) (opts : TrustBandOptions) (risk : ℕ) : Type 0 where
  pub measured : risk_of v.coordination_risk ≡ some risk
  pub enough : opts.min_known_dimensions ≤ known_dimension_count v
  pub below : risk < opts.low_coordination_risk
  pub not_high : risk < opts.high_coordination_risk
  pub not_critical : risk < opts.critical_coordination_risk
  pub backed :
      (reaches opts.verified_human_assurance v.human_assurance ≡ true)
      ⊎ (reaches opts.established_history_strength v.history_strength ≡ true)

low-IsMeasuredLow :
    (v : TrustVector) (opts : TrustBandOptions) (risk : ℕ)
    → risk_of v.coordination_risk ≡ some risk
    → opts.min_known_dimensions ≤ known_dimension_count v
    → gravity (band_of_risk v opts risk) ≤ 1
    → IsMeasuredLow v opts risk
unfolding band_of_risk
low-IsMeasuredLow v opts risk e enough h = record {
  measured = e;
  enough = enough;
  below = ground arith;
  not_high = ground arith;
  not_critical = ground arith;
  backed = ground arith;
}

-- An actor is in one of the two low bands only if enough dimensions were measured, the coordination
-- risk among them and below every threshold, and a verified human or an established history backs
-- it.
pub derive_band-IsMeasuredLow :
    (v : TrustVector) (opts : TrustBandOptions)
    → gravity (derive_band v opts) ≤ 1
    → (risk : ℕ) × IsMeasuredLow v opts risk
unfolding derive_band
derive_band-IsMeasuredLow v opts h =
    elim (Bool-cases (ltb (known_dimension_count v) opts.min_known_dimensions)) [
      | inl few ↦ absurd (omega (arith, rw few at h))
      | inr enough ↦ elim (Option-cases (risk_of v.coordination_risk)) [
        | inl unmeasured ↦ absurd (omega (arith, rw (enough, unmeasured) at h))
        | inr (risk, e) ↦
            (risk, low-IsMeasuredLow v opts risk e (ground arith) (rw (enough, e) at h))
      ]
    ]
