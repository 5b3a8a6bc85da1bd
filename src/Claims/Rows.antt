-- ===== src/Claims/Rows.antt =====
-- The rows and results of backend/src/claim/orchestrator.ts, and what its steps write.
use xander.Prelude.{ℕ, String, Bool, true, false, Option, none, some, if◌then◌else◌}
use xander.Prelude.Table.{Table}
use xander.Prelude.Text.{to_lower_case}
use xander.Policy.Engine.{Decision, PolicyDecision}
use xander.Policy.Challenges.{Clocks}
use xander.World.Replay.{Challenge, ChallengeStatus}

pub record Claim : Type 0 where
  pub id : String
  pub wallet : String
  pub campaign_id : String
  pub risk_decision : Decision
  pub cluster_id : Option String
  pub policy_version : Option String
  pub created_at : ℕ
  pub decided_at : Option ℕ

pub record EvidenceReceipt : Type 0 where
  pub id : String
  pub claim_id : String
  pub wallet : String
  pub cluster_id : Option String
  pub decision : Decision
  pub risk_score : ℕ
  pub confidence : String
  pub policy_version : String
  pub required_assurance : Option String
  pub world_challenge_id : Option String

pub record ScreenClaimResult : Type 0 where
  pub claim_id : String
  pub decision : Decision
  pub cluster_id : Option String
  pub risk_score : ℕ
  pub required_assurance : Option String
  pub evidence_receipt_id : Option String
  pub verification_challenge_id : Option String

-- The messages of `ClaimError`, and what the runtime throws.
pub data ClaimError : Type 0 where
  no_claim no_open_challenge no_challenge_row outstanding not_challenged row_gone : ClaimError

-- The clock, the configuration, the ids of new rows, the action of World and the hash of a signal.
pub record ClaimSetting : Type 0 where
  pub now : ℕ
  pub clocks : Clocks
  pub claim_id : String
  pub receipt_id : String
  pub challenge_id : String
  pub action_for : String → String
  pub hash_signal : String → String

pub record ClaimTables : Type 1 where
  pub claim : Table Claim
  pub receipt : Table EvidenceReceipt
  pub challenge : Table Challenge

-- `STICKY_DECISIONS`
abbrev pub is_sticky : Decision → Bool
is_sticky Decision.allow = true
is_sticky Decision.block = true
is_sticky Decision.challenge = true
is_sticky Decision.pending_review = false

abbrev pub is_challenge : Decision → Bool
is_challenge Decision.challenge = true
is_challenge _ = false

abbrev pub is_final : Decision → Bool
is_final Decision.allow = true
is_final Decision.block = true
is_final _ = false

abbrev pub new_claim : ClaimSetting → String → String → Claim
new_claim setting wallet campaign = record {
  id = setting.claim_id;
  wallet = wallet;
  campaign_id = campaign;
  risk_decision = Decision.pending_review;
  cluster_id = none;
  policy_version = none;
  created_at = setting.now;
  decided_at = none;
}

-- What the screening and the finalization write on a claim.
abbrev pub screened : ℕ → PolicyDecision → Claim → Claim
screened now d c = record c {
  risk_decision = d.decision;
  cluster_id = d.cluster_id;
  policy_version = some d.policy_version;
  decided_at = if is_final d.decision then some now else none;
}

abbrev pub finalized : ℕ → Decision → Claim → Claim
finalized now d c = record c { risk_decision = d; decided_at = some now }

-- The columns of `writeEvidenceReceipt`.
abbrev pub receipt_row : String → Claim → PolicyDecision → Option String → EvidenceReceipt
receipt_row id c d challenge = record {
  id = id;
  claim_id = c.id;
  wallet = to_lower_case c.wallet;
  cluster_id = d.cluster_id;
  decision = d.decision;
  risk_score = d.risk_score;
  confidence = d.confidence;
  policy_version = d.policy_version;
  required_assurance = d.required_assurance;
  world_challenge_id = challenge;
}

abbrev pub decided_receipt : Decision → String → EvidenceReceipt → EvidenceReceipt
decided_receipt d challenge r = record r { decision = d; world_challenge_id = some challenge }

abbrev pub failed_at : ℕ → Challenge → Challenge
failed_at now c = record c { status = ChallengeStatus.failed; resolved_at = some now }

-- What World answers of a proof; `malformed` is a body without the fields.
pub data ProofOutcome : Type 0 where
  unavailable refused malformed : ProofOutcome
  verified : String → String → ProofOutcome

pub data VerifyStatus : Type 0 where
  passed failed retryable : VerifyStatus

abbrev pub or_text : Option String → String → String
or_text none t = t
or_text (some s) t = s
