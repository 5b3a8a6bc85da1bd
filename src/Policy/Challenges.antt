-- ===== src/Policy/Challenges.antt =====
-- Issuing a challenge for a claim, or reusing a live one: `issueOrReuseChallenge`, `validitySince`
-- and `isTimedOut` of backend/src/policy/policy-engine.ts. The caller holds the lock of the claim,
-- so the calls see one state. The action and the hash of the signal come from other modules.
pub mod Laws
use mathlib.Core.List.{head?}
use xander.Prelude.{
  ℕ, ◌-◌, String, Bool, true, false, ◌&&◌, Option, none, some, List, [], ◌∷◌, ltb, leb, str_eq,
  if◌then◌else◌,
}
use xander.Prelude.Table.{Table}
use xander.World.Replay.{Challenge, ChallengeStatus}

-- The two clocks of the configuration, in milliseconds: how long a passed proof counts, and how
-- long an unanswered prompt stays open.
pub record Clocks : Type 0 where
  pub validity : ℕ
  pub ttl : ℕ

pub record ChallengeParams : Type 0 where
  pub claim_id : String
  pub world_action_id : String

abbrev pub is_passed : ChallengeStatus → Bool
is_passed ChallengeStatus.passed = true
is_passed _ = false

abbrev pub is_issued : ChallengeStatus → Bool
is_issued ChallengeStatus.issued = true
is_issued _ = false

abbrev pub resolved_from : ℕ → Option ℕ → Bool
resolved_from since none = false
resolved_from since (some t) = leb since t

abbrev pub resolution : Challenge → ℕ
resolution c = elim c.resolved_at [ none ↦ 0 | some t ↦ t ]

-- `validitySince`
abbrev pub validity_since : Clocks → ℕ → ℕ
validity_since clocks now = now - clocks.validity

-- `isTimedOut`
abbrev pub is_timed_out : Clocks → ℕ → ℕ → Bool
is_timed_out clocks now created_at = ltb clocks.ttl (now - created_at)

-- The `where` clauses of the two reads.
abbrev pub is_still_passed : String → ℕ → Challenge → Bool
is_still_passed claim_id since c =
    str_eq c.claim_id claim_id && (is_passed c.status && resolved_from since c.resolved_at)

abbrev pub is_open : String → Challenge → Bool
is_open claim_id c = str_eq c.claim_id claim_id && is_issued c.status

abbrev pub expire : ℕ → Challenge → Challenge
expire now c = record c { status = ChallengeStatus.expired; resolved_at = some now }

-- The row that is created, with the id and the time that the database gives it.
abbrev pub issued_row : ChallengeParams → String → ℕ → Challenge
issued_row params id now = record {
  id = id;
  claim_id = params.claim_id;
  created_at = now;
  world_action_id = params.world_action_id;
  nullifier = none;
  rp_id = none;
  status = ChallengeStatus.issued;
  resolved_at = none;
}

module _ (D : Table Challenge) where
  -- The id of the challenge, whether it was there before, and the table.
  unfoldable pub issue : ChallengeParams → String → ℕ → D.Db → (String × Bool) × D.Db
  issue params id now db = ((id, false), D.create (issued_row params id now) db)

  -- From the open challenge on: live, timed out, or none.
  unfoldable pub reuse_open :
      Clocks → ChallengeParams → String → ℕ → D.Db → Option Challenge → (String × Bool) × D.Db
  reuse_open clocks params id now db none = issue params id now db
  reuse_open clocks params id now db (some open_row) =
      if is_timed_out clocks now open_row.created_at
      then issue params id now (D.update_many (λ c. str_eq c.id open_row.id) (expire now) db).1
      else ((open_row.id, true), db)

  unfoldable pub reuse_passed :
      Clocks → ChallengeParams → String → ℕ → D.Db → Option Challenge → (String × Bool) × D.Db
  reuse_passed clocks params id now db (some passed) = ((passed.id, true), db)
  reuse_passed clocks params id now db none =
      reuse_open clocks params id now db
        (head? (D.find_many (is_open params.claim_id) (λ c. c.created_at) db))

  -- `issueOrReuseChallenge`
  unfoldable pub issue_or_reuse_challenge :
      Clocks → ChallengeParams → String → ℕ → D.Db → (String × Bool) × D.Db
  issue_or_reuse_challenge clocks params id now db = reuse_passed clocks params id now db (
      head?
        (D.find_many (is_still_passed params.claim_id (validity_since clocks now)) resolution db))
