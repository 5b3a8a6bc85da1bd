-- ===== src/Risk/Thresholds/Laws.antt =====
-- The two ways to band a score agree (`bandFor` of backend/src/risk/scoring.ts and of
-- backend/src/policy/policy-engine.ts).
use xander.Prelude.{
  ℕ, ◌≡◌, ◌≢◌, ◌≤◌, ◌<◌, refl, ◌∙◌, String, none, some, List, [], ◌∷◌, arith, All, Bool-cases, ltb,
  inl, inr,
}
use xander.Prelude.Sort.{All-sort_asc}
use xander.Policy.Engine.{Threshold, one, band_for}
use xander.Policy.Bands.{Tiles, Tiles-le, band_for-Covers}
use xander.Risk.Thresholds.{
  sorted, last_end, neighbours_error, sorted_error, validate_thresholds, sorted_band, scored_band,
}

-- A row that some score falls in.
abbrev pub HasWidth : Threshold → Type 0
HasWidth t = t.min_score < t.max_score

neighbours-Tiles :
    (t : Threshold) (ts : List Threshold)
    → neighbours_error t ts ≡ none
    → last_end t ts ≡ one
    → All HasWidth ts
    → Tiles t.max_score ts
unfolding neighbours_error
neighbours-Tiles t [] h end w = end
neighbours-Tiles t (u ∷ ts) h end w =
    let rest = neighbours-Tiles u ts (ground arith) end w.1 in (ground arith, w.0, rest)

sorted-Tiles : (ts : List Threshold) → sorted_error ts ≡ none → All HasWidth ts → Tiles 0 ts
unfolding sorted_error
sorted-Tiles [] h w = absurd (cc)
sorted-Tiles (t ∷ ts) h w =
    let rest = neighbours-Tiles t ts (ground arith) (ground arith) w.1 in (ground arith, w.0, rest)

sorted_band-band_for :
    (score from : ℕ) (ts : List Threshold)
    → Tiles from ts
    → ts ≢ []
    → from ≤ score
    → score ≤ one
    → sorted_band score ts ≡ band_for score ts
unfolding sorted_band band_for
sorted_band-band_for score from [] h some_row start end = absurd (some_row refl)
sorted_band-band_for score from (t ∷ []) h some_row start end = ground arith
sorted_band-band_for score from (t ∷ u ∷ ts) h some_row start end =
    let top = Tiles-le u.max_score ts h.2.2 in
    elim (Bool-cases (ltb score t.max_score)) [
      | inl hit ↦ ground arith
      | inr miss ↦
          let rest =
            sorted_band-band_for score t.max_score (u ∷ ts) h.2 (λ e. cc) (ground arith) end in
          ground arith
    ]

validated-some_row : (ts : List Threshold) → sorted_error ts ≡ none → ts ≢ []
unfolding sorted_error
validated-some_row [] h e = cc
validated-some_row (t ∷ ts) h e = cc

-- Thresholds that pass the validation, each row with some width, give every score up to one a band,
-- and the policy engine, which reads the rows by ascending start and does not validate them, gives
-- it the same one.
pub scored_band-band_for :
    (ts : List Threshold) (score : ℕ)
    → validate_thresholds ts ≡ none
    → All HasWidth ts
    → score ≤ one
    → (band : String) × (scored_band score ts ≡ some band)
      × (band_for score (sorted ts) ≡ some band)
unfolding validate_thresholds scored_band
scored_band-band_for ts score ok w end =
    let tiles = sorted-Tiles (sorted ts) ok (All-sort_asc (λ t. t.min_score) HasWidth ts w) in
    let (t, m, c, e) = band_for-Covers score 0 (sorted ts) tiles (omega arith) (omega arith) end in
    (
      t.band,
      rw (ok, scored_band)
          (sorted_band-band_for score 0 (sorted ts) tiles (validated-some_row (sorted ts) ok)
              (omega arith) end
            ∙ e),
      e,
    )
