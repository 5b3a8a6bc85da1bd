-- ===== src/Claims/Orchestrator/Proofs.antt =====
-- Which proofs pass a challenge (`verifyClaim` of backend/src/claim/orchestrator.ts).
use xander.Prelude.{
  ℕ, List, map, In, In-map, eq_iff, ◌≡◌, ◌≢◌, refl, sym, ap, String, true, Option, some, str_eq,
  Bool-cases, Option-cases, inl, inr,
}
use xander.Prelude.Effects.{Outcome, returns}
use xander.World.Replay.{
  ChallengeStatus, nullifier_value, Challenge, invalid_nullifier, challenge_not_found, already_used,
  used_on_write, row_gone, Recording, recorded, rejected, record_nullifier,
}
use xander.Prelude.Decimal.{big_int}
use xander.Prelude.Text.{append, to_lower_case}
use xander.World.Replay.Rows.{written}
use xander.World.Replay.Laws.{record_nullifier-Redeemed}
use xander.Policy.Challenges.{is_open}
use xander.Policy.Challenges.Laws.{head-In}
use xander.World.Binding.{is_bound}
use xander.Claims.Orchestrator.{
  ClaimWorld, newest_open, fail_challenge, conclude_recording, redeem_proof, conclude_proof,
  verify_claim,
}
use xander.Claims.Rows.{
  Claim, ClaimError, ClaimSetting, ClaimTables, ProofOutcome, VerifyStatus, or_text,
}
use xander.World.Binding.Laws.{IsSameNumber, is_bound-IsSameNumber}

-- A challenge with this id is on file as passed, with the nullifier.
abbrev pub HasRecorded : String → ℕ → List Challenge → Type 0
HasRecorded id n rows =
    (c : Challenge) × In c rows
    × (c.id ≡ id)
    × (c.nullifier ≡ some n)
    × (c.status ≡ ChallengeStatus.passed)

written-HasRecorded :
    (c : Challenge) (rows : List Challenge) (id rp_id : String) (now n : ℕ)
    → In c rows
    → c.id ≡ id
    → HasRecorded id n (map (written id n rp_id now) rows)
written-HasRecorded c rows id rp_id now n there named =
    let hit : str_eq c.id id ≡ true = (eq_iff c.id id).1 named in
    (
      written id n rp_id now c,
      In-map (written id n rp_id now) rows c there,
      rw hit named,
      rw hit refl,
      rw hit refl,
    )

module _ (T : ClaimTables) where
  -- What a proof that passed is: it answers the newest open challenge of the claim, its signal is the
  -- wallet and the claim, and its nullifier was recorded under the rules of the replay protection and
  -- stands on the challenge, which is passed.
  pub record IsRedeemed (setting : ClaimSetting) (claim : Claim) (challenge : Challenge)
      (rp_id : Option String) (outcome : ProofOutcome) (w v : ClaimWorld T) : Type 0 where
    pub nullifier : String
    pub signal_hash : String
    pub answered : outcome ≡ ProofOutcome.verified nullifier signal_hash
    pub bound :
        IsSameNumber
          (big_int
            (setting.hash_signal (append (to_lower_case claim.wallet) (append ":" claim.id))))
          (big_int signal_hash)
    pub value : ℕ
    pub read : nullifier_value nullifier ≡ some value
    pub stored : HasRecorded challenge.id value (T.challenge.rows v.challenges)
    pub accepted :
        record_nullifier T.challenge challenge.id nullifier
          (or_text rp_id (or_text challenge.rp_id ""))
          setting.now
          w.challenges
          w.challenges
        ≡ recorded v.challenges
    pub claims_kept : v.claims ≡ w.claims

  fail_challenge-fails :
      (setting : ClaimSetting) (id : String) (w v : ClaimWorld T)
      → fail_challenge T setting id w ≢ (returns VerifyStatus.passed, v)
  unfolding fail_challenge
  fail_challenge-fails setting id w v h =
      let e : ◌≡◌ {A = Outcome ClaimError VerifyStatus} (returns VerifyStatus.failed)
          (returns VerifyStatus.passed) =
        ap (λ p. p.0) h in
      cc e

  conclude_recording-passed :
      (setting : ClaimSetting) (id : String) (r : Recording T.challenge.Db) (w v : ClaimWorld T)
      → conclude_recording T setting id r w ≡ (returns VerifyStatus.passed, v)
      → (r ≡ recorded v.challenges) × (v.claims ≡ w.claims)
  unfolding conclude_recording
  conclude_recording-passed setting id (recorded db) w v h = (
    ap (λ (p : Outcome ClaimError VerifyStatus × ClaimWorld T). recorded p.1.challenges) h,
    ap (λ (p : Outcome ClaimError VerifyStatus × ClaimWorld T). p.1.claims) (sym h),
  )
  conclude_recording-passed setting id (rejected row_gone) w v h = absurd (cc h)
  conclude_recording-passed setting id (rejected invalid_nullifier) w v h =
      absurd (fail_challenge-fails setting id w v h)
  conclude_recording-passed setting id (rejected challenge_not_found) w v h =
      absurd (fail_challenge-fails setting id w v h)
  conclude_recording-passed setting id (rejected already_used) w v h =
      absurd (fail_challenge-fails setting id w v h)
  conclude_recording-passed setting id (rejected used_on_write) w v h =
      absurd (fail_challenge-fails setting id w v h)

  conclude_proof-passed :
      (setting : ClaimSetting) (claim : Claim) (challenge : Challenge) (rp_id : Option String)
      → (outcome : ProofOutcome) (w v : ClaimWorld T)
      → conclude_proof T setting claim challenge rp_id outcome w ≡ (returns VerifyStatus.passed, v)
      → In challenge (T.challenge.rows w.challenges)
      → IsRedeemed setting claim challenge rp_id outcome w v
  unfolding conclude_proof redeem_proof
  conclude_proof-passed setting claim challenge rp_id ProofOutcome.unavailable w v h there =
      let e : ◌≡◌ {A = Outcome ClaimError VerifyStatus} (returns VerifyStatus.retryable)
          (returns VerifyStatus.passed) =
        ap (λ p. p.0) h in
      absurd (cc e)
  conclude_proof-passed setting claim challenge rp_id ProofOutcome.refused w v h there =
      absurd (fail_challenge-fails setting challenge.id w v h)
  conclude_proof-passed setting claim challenge rp_id ProofOutcome.malformed w v h there =
      absurd (fail_challenge-fails setting challenge.id w v h)
  conclude_proof-passed setting claim challenge rp_id (ProofOutcome.verified n s) w v h there =
      elim (Bool-cases (is_bound setting.hash_signal claim.wallet claim.id s)) [
        | inr unbound ↦ absurd (fail_challenge-fails setting challenge.id w v (rw unbound at h))
        | inl bound ↦
            let (redeemed, kept) =
              conclude_recording-passed setting challenge.id _ w v (rw bound at h) in
            let rp = or_text rp_id (or_text challenge.rp_id "") in
            let (value, read, (rows, _)) =
              record_nullifier-Redeemed T.challenge challenge.id n rp setting.now w.challenges
                w.challenges v.challenges redeemed in
            record {
              nullifier = n;
              signal_hash = s;
              answered = refl;
              bound = is_bound-IsSameNumber setting.hash_signal claim.wallet claim.id s bound;
              value = value;
              read = read;
              stored = rw rows (
                  written-HasRecorded challenge (T.challenge.rows w.challenges) challenge.id rp
                    setting.now value there refl);
              accepted = redeemed;
              claims_kept = kept;
            }
      ]

  -- A request to verify says that the proof passed only if World verified it, it answers the newest
  -- open challenge of the claim, its signal hash is, as a number, the hash of the claim's wallet in
  -- lower case, a colon and the claim's id, and afterwards a challenge of that id is on file as
  -- passed with the number of the proof's nullifier; the claims are left as they are.
  pub verify_claim_sound :
      (setting : ClaimSetting) (id : String) (rp_id : Option String) (outcome : ProofOutcome)
      → (w v : ClaimWorld T)
      → verify_claim T setting id rp_id outcome w ≡ (returns VerifyStatus.passed, v)
      → (claim : Claim) × (challenge : Challenge) × (T.claim.find_unique
            (λ c. str_eq c.id id)
            w.claims
          ≡ some claim)
        × (newest_open T claim.id w ≡ some challenge)
        × IsRedeemed setting claim challenge rp_id outcome w v
  unfolding verify_claim
  verify_claim_sound setting id rp_id outcome w v h =
      elim (Option-cases (T.claim.find_unique (λ c. str_eq c.id id) w.claims)) [
        | inl missing ↦ absurd (cc (rw missing at h))
        | inr (claim, found) ↦ elim (Option-cases (newest_open T claim.id w)) [
          | inl closed ↦ absurd (cc (rw (found, closed) at h))
          | inr (challenge, waits) ↦ (
            claim,
            challenge,
            found,
            waits,
            conclude_proof-passed setting claim challenge rp_id outcome w v (rw (found, waits) at h)
                ((T.challenge.find_many-In (is_open claim.id) (λ c. c.created_at) w.challenges
                    challenge).0
                  (head-In challenge _ waits)).0,
          )
        ]
      ]

  -- While World does not answer, a request to verify writes nothing, whatever it is about: the
  -- challenge stays open and the claim undecided.
  pub verify_claim_unavailable :
      (setting : ClaimSetting) (id : String) (rp_id : Option String) (w : ClaimWorld T)
      → (verify_claim T setting id rp_id ProofOutcome.unavailable w).1 ≡ w
  unfolding verify_claim conclude_proof
  verify_claim_unavailable setting id rp_id w =
      elim (Option-cases (T.claim.find_unique (λ c. str_eq c.id id) w.claims)) [
        | inl missing ↦ rw missing refl
        | inr (claim, found) ↦ elim (Option-cases (newest_open T claim.id w)) [
          | inl closed ↦ rw (found, closed) refl
          | inr (challenge, waits) ↦ rw (found, waits) refl
        ]
      ]
