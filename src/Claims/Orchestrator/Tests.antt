-- ===== src/Claims/Orchestrator/Tests.antt =====
-- A claim that is challenged, and the theorems at it.
use xander.Prelude.{◌≡◌, refl, none, some, [], ◌∷◌}
use xander.Prelude.Memory.{memory, sort, insert}
use xander.Prelude.Decimal.{big_int}
use xander.Prelude.Text.{parse_digits}
use xander.Prelude.Effects.{returns, throws}
use xander.Policy.Engine.{Decision, PolicyDecision}
use xander.World.Replay.{
  Challenge, ChallengeStatus, nullifier_value, record_nullifier, record_value, check_and_redeem,
  redeem,
}
use xander.World.Binding.{same_field_element}
use xander.Claims.Orchestrator.{
  ClaimWorld, newest_open, write_evidence_receipt, challenge_if_due, decide_claim, settle_claim,
  conclude_recording, redeem_proof, conclude_proof, verify_claim, close_claim, finalize_claim,
  reissue_challenge,
}
use xander.Claims.Rows.{
  Claim, EvidenceReceipt, ScreenClaimResult, ClaimError, ClaimSetting, ClaimTables, ProofOutcome,
  VerifyStatus,
}
use xander.Claims.Orchestrator.Laws.{
  HasDecision, settle_claim_once, IsFinalized, finalize_claim_sound, final_stands,
}
use xander.Claims.Orchestrator.Proofs.{IsRedeemed, verify_claim_sound}

abbrev tables : ClaimTables
tables = record { claim = memory; receipt = memory; challenge = memory }

abbrev setting : ClaimSetting
setting = record {
  now = 100;
  clocks = record { validity = 1000; ttl = 1000 };
  claim_id = "claim-1";
  receipt_id = "receipt-1";
  challenge_id = "challenge-1";
  action_for = λ campaign. campaign;
  hash_signal = λ signal. "12";
}

abbrev claim_in : Decision → Claim
claim_in d = record {
  id = "claim-1";
  wallet = "0xab";
  campaign_id = "campaign-1";
  risk_decision = d;
  cluster_id = none;
  policy_version = none;
  created_at = 10;
  decided_at = none;
}

abbrev challenge_in : ChallengeStatus → Challenge
challenge_in status = record {
  id = "challenge-1";
  claim_id = "claim-1";
  created_at = 20;
  world_action_id = "campaign-1";
  nullifier = none;
  rp_id = none;
  status = status;
  resolved_at = none;
}

abbrev receipt : EvidenceReceipt
receipt = record {
  id = "receipt-1";
  claim_id = "claim-1";
  wallet = "0xab";
  cluster_id = none;
  decision = Decision.challenge;
  risk_score = 500000;
  confidence = "HIGH";
  policy_version = "v1";
  required_assurance = some "SELFIE_CHECK";
  world_challenge_id = some "challenge-1";
}

abbrev world : Decision → ChallengeStatus → ClaimWorld tables
world d status = record {
  claims = claim_in d ∷ [];
  receipts = receipt ∷ [];
  challenges = challenge_in status ∷ [];
}

abbrev decided : Decision → PolicyDecision
decided d = record {
  decision = d;
  required_assurance = none;
  risk_score = 900000;
  cluster_id = none;
  confidence = "HIGH";
  policy_version = "v1";
}

abbrev undecided : ClaimWorld tables
undecided = world Decision.pending_review ChallengeStatus.issued

after_screening : ClaimWorld tables
unfolding settle_claim decide_claim challenge_if_due write_evidence_receipt
after_screening = (settle_claim tables setting "claim-1" (decided Decision.block) undecided).1

abbrev blocked : ScreenClaimResult
blocked = record {
  claim_id = "claim-1";
  decision = Decision.block;
  cluster_id = none;
  risk_score = 900000;
  required_assurance = none;
  evidence_receipt_id = some "receipt-1";
  verification_challenge_id = none;
}

screened_first :
    settle_claim tables setting "claim-1" (decided Decision.block) undecided
    ≡ (returns blocked, after_screening)
unfolding settle_claim decide_claim challenge_if_due write_evidence_receipt after_screening
screened_first = refl

settle_claim_once_example :
    (q : ScreenClaimResult) × (settle_claim tables setting "claim-1"
        (decided Decision.allow)
        after_screening
      ≡ (returns q, after_screening))
    × (q.decision ≡ Decision.block)
settle_claim_once_example =
    settle_claim_once tables setting setting "claim-1" (decided Decision.block)
      (decided Decision.allow) undecided after_screening blocked screened_first refl

after_finalizing : ClaimWorld tables
unfolding finalize_claim close_claim sort insert
after_finalizing =
    (finalize_claim tables setting "claim-1" (world Decision.challenge ChallengeStatus.passed)).1

finalized_then :
    finalize_claim tables setting "claim-1" (world Decision.challenge ChallengeStatus.passed)
    ≡ (returns Decision.allow, after_finalizing)
unfolding finalize_claim close_claim sort insert after_finalizing
finalized_then = refl

finalize_claim_sound_example :
    IsFinalized tables "claim-1"
      (world Decision.challenge ChallengeStatus.passed)
      after_finalizing
      Decision.allow
finalize_claim_sound_example =
    finalize_claim_sound tables setting "claim-1" (world Decision.challenge ChallengeStatus.passed)
      after_finalizing (claim_in Decision.challenge) Decision.allow refl refl finalized_then

allowed_on_file :
    HasDecision tables "claim-1" Decision.allow (world Decision.allow ChallengeStatus.passed)
allowed_on_file = (claim_in Decision.allow, refl, refl)

final_stands_example :
    (finalize_claim tables setting "claim-1" (world Decision.allow ChallengeStatus.passed)
      ≡ (returns Decision.allow, world Decision.allow ChallengeStatus.passed))
    × ((r : ScreenClaimResult) × (settle_claim tables setting "claim-1"
            (decided Decision.block)
            (world Decision.allow ChallengeStatus.passed)
          ≡ (returns r, world Decision.allow ChallengeStatus.passed))
        × (r.decision ≡ Decision.allow))
    × (reissue_challenge tables setting "claim-1" (world Decision.allow ChallengeStatus.passed)
        ≡ (throws ClaimError.not_challenged, world Decision.allow ChallengeStatus.passed))
final_stands_example =
    final_stands tables setting "claim-1" (decided Decision.block)
      (world Decision.allow ChallengeStatus.passed) Decision.allow allowed_on_file refl

abbrev waiting : ClaimWorld tables
waiting = world Decision.challenge ChallengeStatus.issued

after_verifying : ClaimWorld tables
unfolding verify_claim conclude_proof redeem_proof conclude_recording record_nullifier record_value
    check_and_redeem redeem sort insert same_field_element big_int nullifier_value parse_digits
after_verifying =
    (verify_claim tables setting "claim-1" none (ProofOutcome.verified "7" "0xC") waiting).1

verified_then :
    verify_claim tables setting "claim-1" none (ProofOutcome.verified "7" "0xC") waiting
    ≡ (returns VerifyStatus.passed, after_verifying)
unfolding verify_claim conclude_proof redeem_proof conclude_recording record_nullifier record_value
    check_and_redeem redeem sort insert same_field_element big_int nullifier_value parse_digits
    after_verifying
verified_then = refl

verify_claim_sound_example :
    (claim : Claim) × (challenge : Challenge) × (some (claim_in Decision.challenge) ≡ some claim)
    × (newest_open tables claim.id waiting ≡ some challenge)
    × IsRedeemed tables setting claim challenge none
        (ProofOutcome.verified "7" "0xC")
        waiting
        after_verifying
verify_claim_sound_example =
    verify_claim_sound tables setting "claim-1" none (ProofOutcome.verified "7" "0xC") waiting
      after_verifying verified_then
