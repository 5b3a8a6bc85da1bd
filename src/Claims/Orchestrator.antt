-- ===== src/Claims/Orchestrator.antt =====
-- A claim from its screening to its final decision: backend/src/claim/orchestrator.ts, with
-- `writeEvidenceReceipt` of backend/src/policy/evidence-receipt.ts. A request runs with no other
-- between its steps; the risk, the clusters of the campaign and World's answer come from other
-- modules. The request for the client and the reasons as text are left out.
pub mod Laws
pub mod Proofs
mod Tests
use mathlib.Core.List.{head?}
use xander.Prelude.{
  ℕ, String, Bool, true, false, ◌&&◌, not, Option, none, some, List, str_eq, if◌then◌else◌,
}
use xander.Prelude.Table.{Table}
use xander.Prelude.Text.{to_lower_case}
use xander.Prelude.Effects.{Program, pure, throw, reads, writes, expect, require, ◌>>=◌, ◌>>◌}
use xander.Policy.Engine.{Decision, PolicyDecision}
use xander.Policy.Challenges.{
  Clocks, ChallengeParams, is_open, is_issued, is_passed, issue_or_reuse_challenge,
}
use xander.World.Replay.{
  Challenge, ChallengeStatus, Rejection, Recording, recorded, rejected, record_nullifier,
}
use xander.World.Binding.{is_bound}
use xander.Claims.Rows.{
  Claim, ClaimError, ClaimSetting, ClaimTables, EvidenceReceipt, ProofOutcome, ScreenClaimResult,
  VerifyStatus, decided_receipt, failed_at, finalized, is_challenge, is_final, is_sticky, new_claim,
  or_text, receipt_row, screened,
}

module _ (T : ClaimTables) where
  pub record ClaimWorld : Type 0 where
    pub claims : T.claim.Db
    pub receipts : T.receipt.Db
    pub challenges : T.challenge.Db

  abbrev pub ClaimProgram : Type 0 → Type 0
  ClaimProgram X = Program ClaimWorld ClaimError X

  abbrev pub is_claim_of : String → String → Claim → Bool
  is_claim_of wallet campaign c = str_eq c.wallet wallet && str_eq c.campaign_id campaign

  -- `getOrCreateClaim`: with no other request in between, the insert is never refused.
  unfoldable pub get_or_create_claim : ClaimSetting → String → String → ClaimProgram Claim
  get_or_create_claim setting wallet campaign = do
    found ← reads (λ w. T.claim.find_unique (is_claim_of wallet campaign) w.claims)
    elim found [
      | some c ↦ pure c
      | none ↦ (do
        writes
            (λ w. record w { claims = T.claim.create (new_claim setting wallet campaign) w.claims })
        pure (new_claim setting wallet campaign))
    ]

  abbrev pub receipt_of_claim : String → ClaimWorld → Option EvidenceReceipt
  receipt_of_claim id w = T.receipt.find_unique (λ r. str_eq r.claim_id id) w.receipts

  -- The newest challenge of a claim, and the newest that is open.
  abbrev pub newest_challenge : String → ClaimWorld → Option Challenge
  newest_challenge id w =
      head? (T.challenge.find_many (λ c. str_eq c.claim_id id) (λ c. c.created_at) w.challenges)

  abbrev pub newest_open : String → ClaimWorld → Option Challenge
  newest_open id w = head? (T.challenge.find_many (is_open id) (λ c. c.created_at) w.challenges)

  -- What was decided before, from what is on file.
  abbrev pub replayed_result : Claim → Option EvidenceReceipt → Option Challenge → ScreenClaimResult
  replayed_result c receipt challenge = record {
    claim_id = c.id;
    decision = c.risk_decision;
    cluster_id = c.cluster_id;
    risk_score = elim receipt [ none ↦ 0 | some r ↦ r.risk_score ];
    required_assurance = elim receipt [ none ↦ none | some r ↦ r.required_assurance ];
    evidence_receipt_id = elim receipt [ none ↦ none | some r ↦ some r.id ];
    verification_challenge_id = elim challenge [ none ↦ none | some x ↦ some x.id ];
  }

  unfoldable pub replay_claim : Claim → ClaimProgram ScreenClaimResult
  replay_claim c =
      reads (λ w. replayed_result c (receipt_of_claim c.id w) (newest_challenge c.id w))

  -- `writeEvidenceReceipt`, with the id of the row
  unfoldable pub write_evidence_receipt :
      ClaimSetting → Claim → PolicyDecision → Option String → ClaimProgram String
  write_evidence_receipt setting c d challenge = do
    found ← reads (receipt_of_claim c.id)
    elim found [
      | none ↦ (do
        writes (λ w. record w {
          receipts = T.receipt.create (receipt_row setting.receipt_id c d challenge) w.receipts;
        })
        pure setting.receipt_id)
      | some r ↦ (do
        writes (λ w. record w {
          receipts =
              (T.receipt.update_many (λ x. str_eq x.claim_id c.id)
                (λ x. receipt_row x.id c d challenge) w.receipts).1;
        })
        pure r.id)
    ]

  -- A challenge for a claim, with its id and whether it was there before.
  unfoldable pub challenge_claim : ClaimSetting → Claim → ClaimProgram (String × Bool)
  challenge_claim setting c = do
    issued ← reads (λ w.
        issue_or_reuse_challenge T.challenge setting.clocks
          (record { claim_id = c.id; world_action_id = setting.action_for c.campaign_id })
          setting.challenge_id setting.now w.challenges)
    writes (λ w. record w { challenges = issued.1 })
    pure issued.0

  unfoldable pub challenge_if_due :
      ClaimSetting → Claim → PolicyDecision → ClaimProgram (Option String)
  challenge_if_due setting c d =
      if is_challenge d.decision
      then challenge_claim setting c >>= (λ issued. pure (some issued.0))
      else pure none

  -- The part of the transaction that decides.
  unfoldable pub decide_claim :
      ClaimSetting → Claim → PolicyDecision → ClaimProgram ScreenClaimResult
  decide_claim setting c d = do
    challenge ← challenge_if_due setting c d
    receipt ← write_evidence_receipt setting c d challenge
    writes (λ w. record w {
      claims = (T.claim.update_many (λ x. str_eq x.id c.id) (screened setting.now d) w.claims).1;
    })
    pure (record {
      claim_id = c.id;
      decision = d.decision;
      cluster_id = d.cluster_id;
      risk_score = d.risk_score;
      required_assurance = d.required_assurance;
      evidence_receipt_id = some receipt;
      verification_challenge_id = challenge;
    })

  -- The transaction of `screenClaim`, under the lock of the claim: what is there by then stands.
  unfoldable pub settle_claim :
      ClaimSetting → String → PolicyDecision → ClaimProgram ScreenClaimResult
  settle_claim setting id d = do
    fresh ← λ w. expect (T.claim.find_unique (λ c. str_eq c.id id) w.claims) ClaimError.row_gone w
    (if is_sticky fresh.risk_decision then replay_claim fresh else decide_claim setting fresh d)

  -- `screenClaim`; the decision is the one that the policy makes of the claimant's risk.
  unfoldable pub screen_claim :
      ClaimSetting → String → String → PolicyDecision → ClaimProgram ScreenClaimResult
  screen_claim setting wallet campaign d = do
    claim ← get_or_create_claim setting (to_lower_case wallet) campaign
    (if is_sticky claim.risk_decision then replay_claim claim else settle_claim setting claim.id d)

  -- A challenge that did not pass.
  unfoldable pub fail_challenge : ClaimSetting → String → ClaimProgram VerifyStatus
  fail_challenge setting id = do
    writes (λ w. record w {
      challenges =
          (T.challenge.update_many (λ c. str_eq c.id id) (failed_at setting.now) w.challenges).1;
    })
    pure VerifyStatus.failed

  -- What the replay protection made of the nullifier: its errors fail the challenge.
  unfoldable pub conclude_recording :
      ClaimSetting → String → Recording T.challenge.Db → ClaimProgram VerifyStatus
  conclude_recording setting id (recorded db) = do
    writes (λ w. record w { challenges = db })
    pure VerifyStatus.passed
  conclude_recording setting id (rejected Rejection.row_gone) = throw ClaimError.row_gone
  conclude_recording setting id (rejected _) = fail_challenge setting id

  unfoldable pub redeem_proof :
      ClaimSetting → Claim → Challenge → Option String → String → String → ClaimProgram VerifyStatus
  redeem_proof setting claim challenge rp_id nullifier signal_hash =
      if is_bound setting.hash_signal claim.wallet claim.id signal_hash
      then reads (λ w.
        record_nullifier T.challenge challenge.id nullifier
          (or_text rp_id (or_text challenge.rp_id "")) setting.now w.challenges w.challenges)
        >>= conclude_recording setting challenge.id
      else fail_challenge setting challenge.id

  unfoldable pub conclude_proof :
      ClaimSetting → Claim → Challenge → Option String → ProofOutcome → ClaimProgram VerifyStatus
  conclude_proof setting claim challenge rp_id ProofOutcome.unavailable =
      pure VerifyStatus.retryable
  conclude_proof setting claim challenge rp_id ProofOutcome.refused =
      fail_challenge setting challenge.id
  conclude_proof setting claim challenge rp_id ProofOutcome.malformed =
      fail_challenge setting challenge.id
  conclude_proof setting claim challenge rp_id (ProofOutcome.verified nullifier signal_hash) =
      redeem_proof setting claim challenge rp_id nullifier signal_hash

  abbrev pub find_claim : String → ClaimProgram Claim
  find_claim id w =
      expect (T.claim.find_unique (λ c. str_eq c.id id) w.claims) ClaimError.no_claim w

  -- `verifyClaim`, with World's answer
  unfoldable pub verify_claim :
      ClaimSetting → String → Option String → ProofOutcome → ClaimProgram VerifyStatus
  verify_claim setting id rp_id outcome = do
    claim ← find_claim id
    challenge ← λ w. expect (newest_open claim.id w) ClaimError.no_open_challenge w
    conclude_proof setting claim challenge rp_id outcome

  -- The transaction of `finalizeClaim`.
  unfoldable pub close_claim : ClaimSetting → Claim → Challenge → ClaimProgram Decision
  close_claim setting claim challenge = do
    let decision = if is_passed challenge.status then Decision.allow else Decision.block
    receipt ← λ w. expect (receipt_of_claim claim.id w) ClaimError.row_gone w
    writes (λ w. record w {
      claims =
          (T.claim.update_many (λ c. str_eq c.id claim.id) (finalized setting.now decision)
            w.claims).1;
      receipts =
          (T.receipt.update_many (λ r. str_eq r.claim_id claim.id)
            (decided_receipt decision challenge.id) w.receipts).1;
    })
    pure decision

  -- `finalizeClaim`, with the decision
  unfoldable pub finalize_claim : ClaimSetting → String → ClaimProgram Decision
  finalize_claim setting id = do
    claim ← find_claim id
    (if not (is_challenge claim.risk_decision) then pure claim.risk_decision else (do
      challenge ← λ w. expect (newest_challenge claim.id w) ClaimError.no_challenge_row w
      require (not (is_issued challenge.status)) ClaimError.outstanding
      close_claim setting claim challenge))

  -- `reissueChallenge`, with the id of the challenge and whether it was there before
  unfoldable pub reissue_challenge : ClaimSetting → String → ClaimProgram (String × Bool)
  reissue_challenge setting id = do
    claim ← find_claim id
    require (is_challenge claim.risk_decision) ClaimError.not_challenged
    challenge_claim setting claim
