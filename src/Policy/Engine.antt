-- ===== src/Policy/Engine.antt =====
-- From a risk score to the assurance that a claim needs: `resolveThresholds`, `bandFor` and
-- `decide` of backend/src/policy/policy-engine.ts. A score is a number of millionths; the features,
-- the sources and the reason as text are passed on or written for people, and are left out.
use xander.Prelude.{
  ℕ, String, Bool, ◌&&◌, ◌||◌, Option, none, some, List, [], ◌∷◌, ltb, leb, str_eq, if◌then◌else◌,
}

pub data Decision : Type 0 where
  allow challenge block pending_review : Decision

-- `status` of the risk, as the interface types it
pub data RiskStatus : Type 0 where
  ok pending_review : RiskStatus

pub record ClusterRisk : Type 0 where
  pub status : RiskStatus
  pub risk_score : ℕ
  pub cluster_id : Option String
  pub confidence : String
  pub policy_version : String

pub record Threshold : Type 0 where
  pub band : String
  pub min_score : ℕ
  pub max_score : ℕ

pub record PolicyDecision : Type 0 where
  pub decision : Decision
  pub required_assurance : Option String
  pub risk_score : ℕ
  pub cluster_id : Option String
  pub confidence : String
  pub policy_version : String

abbrev pub one : ℕ
one = 1000000

-- `resolveThresholds`: of the version that scored, of the active version, or of the live rows
unfoldable pub resolve_thresholds :
    Option (List Threshold) → Option (List Threshold) → List Threshold → List Threshold
resolve_thresholds (some named) active live = named
resolve_thresholds none (some active) live = active
resolve_thresholds none none live = live

abbrev pub is_within : ℕ → Threshold → Bool
is_within score t =
    leb t.min_score score && (ltb score t.max_score || (leb one t.max_score && leb score one))

-- `bandFor`
unfoldable pub band_for : ℕ → List Threshold → Option String
band_for score [] = none
band_for score (t ∷ thresholds) =
    let rest = band_for score thresholds in if is_within score t then some t.band else rest

-- What every decision passes on of the risk.
abbrev pub with_decision : ClusterRisk → Decision → Option String → PolicyDecision
with_decision risk decision assurance = record {
  decision = decision;
  required_assurance = assurance;
  risk_score = risk.risk_score;
  cluster_id = risk.cluster_id;
  confidence = risk.confidence;
  policy_version = risk.policy_version;
}

-- `HELD`
abbrev pub held : ClusterRisk → PolicyDecision
held risk = with_decision risk Decision.pending_review none

-- The `switch` of `decide`, on the band
unfoldable pub decide_band : ClusterRisk → String → PolicyDecision
decide_band risk band =
    if str_eq band "ALLOW"
    then with_decision risk Decision.allow none
    else if str_eq band "CHALLENGE"
    then with_decision risk Decision.challenge (some "SELFIE_CHECK")
    else if str_eq band "BLOCK"
    then with_decision risk Decision.block none
    else held risk

-- `if (!band)` holds the claim, for no band and for an empty name.
unfoldable pub decide_named : ClusterRisk → Option String → PolicyDecision
decide_named risk none = held risk
decide_named risk (some band) = if str_eq band "" then held risk else decide_band risk band

-- `decide`, with the thresholds that were resolved
unfoldable pub decide : ClusterRisk → List Threshold → PolicyDecision
decide risk thresholds = elim risk.status [
  | pending_review ↦ held risk
  | ok ↦ decide_named risk (band_for risk.risk_score thresholds)
]
