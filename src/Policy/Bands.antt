-- ===== src/Policy/Bands.antt =====
-- The band of a score under thresholds that tile the scores (`bandFor`, `decide` of
-- backend/src/policy/policy-engine.ts).
use xander.Prelude.{
  true, ℕ, ◌≡◌, ◌≤◌, ◌<◌, ◌⊎◌, refl, ap, String, Option, none, some, List, [], ◌∷◌, arith, In,
  eq_iff, inl, inr, Bool-cases,
}
use xander.Policy.Engine.{
  Decision, RiskStatus, ClusterRisk, Threshold, one, is_within, band_for, decide_band, decide_named,
  decide,
}

-- The thresholds follow each other without a gap or an overlap, from a score up to one.
abbrev pub Tiles : ℕ → List Threshold → Type 0
Tiles from [] = from ≡ one
Tiles from (t ∷ thresholds) =
    (t.min_score ≡ from) × (t.min_score < t.max_score) × Tiles t.max_score thresholds

-- The row of a score: half open, but the last is closed.
abbrev pub Covers : Threshold → ℕ → Type 0
Covers t score =
    (t.min_score ≤ score) × ((score < t.max_score) ⊎ ((score ≡ one) × (t.max_score ≡ one)))

pub Tiles-le : (from : ℕ) (ts : List Threshold) → Tiles from ts → from ≤ one
Tiles-le from [] h = omega arith
Tiles-le from (t ∷ ts) h = let rest = Tiles-le t.max_score ts h.2 in ground arith

pub band_for-Covers :
    (score from : ℕ) (ts : List Threshold)
    → Tiles from ts
    → from < one
    → from ≤ score
    → score ≤ one
    → (t : Threshold) × In t ts × Covers t score × (band_for score ts ≡ some t.band)
unfolding band_for
band_for-Covers score from [] h below start end = absurd (omega arith)
band_for-Covers score from (t ∷ ts) h below start end =
    let top = Tiles-le t.max_score ts h.2 in
    elim (Bool-cases (is_within score t)) [
      | inl hit ↦ (t, inl refl, ground arith, rw hit refl)
      | inr miss ↦
          let (k, m, c, e) =
            band_for-Covers score t.max_score ts h.2 (ground arith) (ground arith) end in
          (k, inr m, c, rw miss e)
    ]

status-cases : (s : RiskStatus) → (s ≡ RiskStatus.ok) ⊎ (s ≡ RiskStatus.pending_review)
status-cases RiskStatus.ok = inl refl
status-cases RiskStatus.pending_review = inr refl

-- Under thresholds that tile the scores from zero to one, a risk that is not held is decided by the
-- one row that its score falls in: no score is left without a band.
pub decide-Tiles :
    (risk : ClusterRisk) (ts : List Threshold)
    → risk.status ≡ RiskStatus.ok
    → Tiles 0 ts
    → risk.risk_score ≤ one
    → (t : Threshold) × In t ts
      × Covers t risk.risk_score
      × (decide risk ts ≡ decide_named risk (some t.band))
unfolding decide decide_named decide_band
decide-Tiles risk ts fine h end =
    let (t, m, c, e) = band_for-Covers risk.risk_score 0 ts h (omega arith) (omega arith) end in
    (t, m, c, rw (fine, decide) (ap (decide_named risk) e))

-- A score is in a row: from its start to before its end, and the end is in it where it is the
-- highest score or above.
abbrev pub Spans : Threshold → ℕ → Type 0
Spans t score =
    (t.min_score ≤ score) × ((score < t.max_score) ⊎ ((one ≤ t.max_score) × (score ≤ one)))

within-Spans : (score : ℕ) (t : Threshold) → is_within score t ≡ true → Spans t score
within-Spans score t h = ground arith

band_for-In :
    (score : ℕ) (ts : List Threshold) (band : String)
    → band_for score ts ≡ some band
    → (t : Threshold) × In t ts × (t.band ≡ band) × Spans t score
unfolding band_for
band_for-In score [] band h = absurd (cc)
band_for-In score (t ∷ ts) band h = elim (Bool-cases (is_within score t)) [
  | inl hit ↦ (t, inl refl, (cc (rw hit at h)), within-Spans score t hit)
  | inr miss ↦
      let (k, m, e, spans) = band_for-In score ts band (rw miss at h) in (k, inr m, e, spans)
]

decide_named-allow :
    (risk : ClusterRisk) (band : Option String)
    → (decide_named risk band).decision ≡ Decision.allow
    → band ≡ some "ALLOW"
unfolding decide_named decide_band
decide_named-allow risk none h = absurd (cc)
decide_named-allow risk (some band) h = ground (arith, eq_iff band "ALLOW")

-- A claim is allowed only if the evidence could be vouched for, whatever the score, and the score
-- lies in a row of the thresholds whose band is ALLOW: at its start or above, and below its end,
-- which is in the row only where it is the highest score or above.
pub decide_allow :
    (risk : ClusterRisk) (ts : List Threshold)
    → (decide risk ts).decision ≡ Decision.allow
    → (risk.status ≡ RiskStatus.ok)
      × (t : Threshold) × In t ts
      × (t.band ≡ "ALLOW")
      × Spans t risk.risk_score
unfolding decide
decide_allow risk ts h = elim (status-cases risk.status) [
  | inl fine ↦
      let (t, m, e, spans) =
        band_for-In risk.risk_score ts "ALLOW"
          (decide_named-allow risk (band_for risk.risk_score ts) (rw (fine, decide) at h)) in
      (fine, t, m, e, spans)
  | inr pending ↦ absurd (cc (rw (pending, decide) at h))
]
