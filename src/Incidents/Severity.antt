-- ===== src/Incidents/Severity.antt =====
-- How serious an incident is and what that alone justifies: `severityRank`, `initialMitigation` and
-- `deterministicAction` of backend/src/incidents/incident-types.ts.
pub mod Laws
use xander.Prelude.{String, List, [], ◌∷◌, ℕ, str_eq, if◌then◌else◌}
use xander.Prelude.Dictionary.{Rank, read, rank_or}

pub data RecommendedAction : Type 0 where
  allow limit review block : RecommendedAction

pub data Mitigation : Type 0 where
  none_taken restore restrict revoke : Mitigation

abbrev pub severity_ranks : List (String × ℕ)
severity_ranks = ("LOW", 0) ∷ ("MEDIUM", 1) ∷ ("HIGH", 2) ∷ ("CRITICAL", 3) ∷ []

-- `severityRank`
unfoldable pub severity_rank : String → Rank
severity_rank severity = rank_or 3 (read severity_ranks severity)

-- `initialMitigation`
unfoldable pub initial_mitigation : String → Mitigation
initial_mitigation severity =
    if str_eq severity "LOW"
    then Mitigation.none_taken
    else if str_eq severity "MEDIUM"
    then Mitigation.none_taken
    else if str_eq severity "HIGH"
    then Mitigation.restrict
    else Mitigation.revoke

-- `deterministicAction`
unfoldable pub deterministic_action : String → RecommendedAction
deterministic_action severity =
    if str_eq severity "LOW"
    then RecommendedAction.allow
    else if str_eq severity "MEDIUM"
    then RecommendedAction.limit
    else if str_eq severity "HIGH"
    then RecommendedAction.review
    else RecommendedAction.block
