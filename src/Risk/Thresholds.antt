-- ===== src/Risk/Thresholds.antt =====
-- The thresholds of a policy and the band of a score: `validateThresholds` and `bandFor` of
-- backend/src/risk/scoring.ts. Scores are numbers of millionths, between which a difference of
-- 1e-9 is none, so `EPSILON` leaves no trace.
pub mod Laws
use xander.Prelude.{
  ℕ, String, Bool, true, false, ◌&&◌, not, Option, none, some, List, [], ◌∷◌, ltb, leb, ◌==◌,
  if◌then◌else◌,
}
use xander.Prelude.Sort.{sort_asc}
use xander.Policy.Engine.{Threshold, one}

-- What `PolicyError` says.
pub data PolicyError : Type 0 where
  not_seeded wrong_start wrong_end gap_or_overlap no_band : PolicyError

-- `[...thresholds].sort((a, b) => a.minScore - b.minScore)`
abbrev pub sorted : List Threshold → List Threshold
sorted thresholds = sort_asc (λ t. t.min_score) thresholds

-- The end of the last row, after a row.
abbrev pub last_end : Threshold → List Threshold → ℕ
last_end t [] = t.max_score
last_end t (u ∷ thresholds) = last_end u thresholds

-- The loop over neighbours.
unfoldable pub neighbours_error : Threshold → List Threshold → Option PolicyError
neighbours_error t [] = none
neighbours_error t (u ∷ thresholds) =
    let rest = neighbours_error u thresholds in
    if u.min_score == t.max_score then rest else some PolicyError.gap_or_overlap

unfoldable pub sorted_error : List Threshold → Option PolicyError
sorted_error [] = some PolicyError.not_seeded
sorted_error (t ∷ thresholds) =
    if not (t.min_score == 0)
    then some PolicyError.wrong_start
    else if not (last_end t thresholds == one)
    then some PolicyError.wrong_end
    else neighbours_error t thresholds

-- `validateThresholds`: none where it returns.
unfoldable pub validate_thresholds : List Threshold → Option PolicyError
validate_thresholds thresholds = sorted_error (sorted thresholds)

-- The loop of `bandFor` over the sorted rows; the last is closed at its end.
unfoldable pub sorted_band : ℕ → List Threshold → Option String
sorted_band score [] = none
sorted_band score (t ∷ []) =
    if leb t.min_score score && leb score t.max_score then some t.band else none
sorted_band score (t ∷ u ∷ thresholds) =
    let rest = sorted_band score (u ∷ thresholds) in
    if leb t.min_score score && ltb score t.max_score then some t.band else rest

-- `bandFor` of scoring; none where it throws.
unfoldable pub scored_band : ℕ → List Threshold → Option String
scored_band score thresholds = elim (validate_thresholds thresholds) [
  | some error ↦ none
  | none ↦ sorted_band score (sorted thresholds)
]
