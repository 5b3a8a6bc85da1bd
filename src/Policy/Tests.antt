-- ===== src/Policy/Tests.antt =====
-- The seeded bands, and a held risk of score zero.
use xander.Prelude.{inl, inr, ◌∙◌, sym, ◌≡◌, refl, none, List, [], ◌∷◌, In}
use xander.Policy.Engine.{
  Decision, RiskStatus, ClusterRisk, Threshold, band_for, decide_band, decide_named, decide,
}
use xander.Policy.Challenges.{Clocks}
use xander.Policy.Challenges.Laws.{IsSingle}
use xander.World.Replay.{Challenge, ChallengeStatus}
use xander.Policy.Bands.{Spans, decide_allow}

abbrev pub thresholds : List Threshold
thresholds =
    record { band = "ALLOW"; min_score = 0; max_score = 400000 }
    ∷ record { band = "CHALLENGE"; min_score = 400000; max_score = 750000 }
    ∷ record { band = "BLOCK"; min_score = 750000; max_score = 1000000 }
    ∷ []

abbrev pub low_risk : ClusterRisk
low_risk = record {
  status = RiskStatus.ok;
  risk_score = 120000;
  cluster_id = none;
  confidence = "HIGH";
  policy_version = "v1.0";
}

held_at_zero :
    (decide
      (record low_risk { status = RiskStatus.pending_review; risk_score = 0 })
      thresholds).decision
    ≡ Decision.pending_review
unfolding decide
held_at_zero = refl

allowed : (decide low_risk thresholds).decision ≡ Decision.allow
unfolding decide decide_named decide_band band_for
allowed = refl

decide_allow_example :
    (low_risk.status ≡ RiskStatus.ok)
    × (t : Threshold) × In t thresholds
    × (t.band ≡ "ALLOW")
    × Spans t 120000
decide_allow_example = decide_allow low_risk thresholds allowed

abbrev waiting : Challenge
waiting = record {
  id = "c1";
  claim_id = "claim-1";
  created_at = 1000;
  world_action_id = "claim-airdrop";
  nullifier = none;
  rp_id = none;
  status = ChallengeStatus.issued;
  resolved_at = none;
}

abbrev clocks : Clocks
clocks = record { validity = 7776000000; ttl = 900000 }

only_waiting : IsSingle "claim-1" (waiting ∷ [])
only_waiting c d (inl a) (inl b) oc od = a ∙ sym b
only_waiting c d (inr a) m oc od = absurd a
only_waiting c d (inl a) (inr b) oc od = absurd b
