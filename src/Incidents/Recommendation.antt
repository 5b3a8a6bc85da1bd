-- ===== src/Incidents/Recommendation.antt =====
-- An investigator's recommendation against the deterministic decision: `actionRank`,
-- `atLeastAsRestrictive` and `reconcileRecommendation` of
-- backend/src/incidents/incident-types.ts. The reason as text is left out.
pub mod Laws
use xander.Prelude.{
  ℕ, String, Bool, true, false, Option, none, some, List, [], ◌∷◌, find, ◌==◌, if◌then◌else◌,
}
use xander.Prelude.Dictionary.{Rank, number, not_a_number, read, rank_or, is_above, is_at_least}
use xander.Incidents.Severity.{RecommendedAction}

abbrev pub recommended_actions : List RecommendedAction
recommended_actions =
    RecommendedAction.allow ∷ RecommendedAction.limit ∷ RecommendedAction.review
    ∷ RecommendedAction.block ∷ []

-- `ACTION_RANK`, by the action and by its name
abbrev pub rank_of : RecommendedAction → ℕ
rank_of RecommendedAction.allow = 0
rank_of RecommendedAction.limit = 1
rank_of RecommendedAction.review = 2
rank_of RecommendedAction.block = 3

abbrev pub action_ranks : List (String × ℕ)
action_ranks = ("ALLOW", 0) ∷ ("LIMIT", 1) ∷ ("REVIEW", 2) ∷ ("BLOCK", 3) ∷ []

-- `actionRank`
unfoldable pub action_rank : String → Rank
action_rank action = rank_or 3 (read action_ranks action)

-- `atLeastAsRestrictive`
unfoldable pub at_least_as_restrictive : String → String → Bool
at_least_as_restrictive a b = is_at_least (action_rank a) (action_rank b)

pub record Reconciliation : Type 0 where
  pub action : RecommendedAction
  pub ai_changed_outcome : Bool
  pub ai_attempted_to_widen : Bool

abbrev pub or_block : Option RecommendedAction → RecommendedAction
or_block none = RecommendedAction.block
or_block (some action) = action

-- `RECOMMENDED_ACTIONS.find((a) => ACTION_RANK[a] === rank) ?? 'BLOCK'`
unfoldable pub action_at : Rank → RecommendedAction
action_at not_a_number = RecommendedAction.block
action_at (number n) = or_block (find (λ a. rank_of a == n) recommended_actions)

abbrev pub stands : Rank → Bool → Reconciliation
stands floor widen = record {
  action = action_at floor;
  ai_changed_outcome = false;
  ai_attempted_to_widen = widen;
}

-- `reconcileRecommendation`, once both ranks are there
unfoldable pub reconcile_ranks : Rank → Rank → Reconciliation
reconcile_ranks floor ai =
    if is_above ai floor
    then record { action = action_at ai; ai_changed_outcome = true; ai_attempted_to_widen = false }
    else stands floor (is_above floor ai)

-- `reconcileRecommendation`
unfoldable pub reconcile_recommendation : String → Option String → Reconciliation
reconcile_recommendation deterministic none = stands (action_rank deterministic) false
reconcile_recommendation deterministic (some recommendation) =
    reconcile_ranks (action_rank deterministic) (action_rank recommendation)
