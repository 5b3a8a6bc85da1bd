-- ===== src/World/Replay.antt =====
-- A nullifier is used once per action: backend/src/world/replay-protection.ts. The database keeps
-- `@@unique([nullifier, worldActionId])` and the primary key; a write that would break the first is
-- refused, as documented. The reads see one state and the write another.
pub mod Rows
pub mod Laws
use xander.Prelude.{
  ℕ, String, Bool, true, false, ◌&&◌, not, Option, none, some, ltb, ◌==◌, str_eq, if◌then◌else◌,
}
use xander.Prelude.Decimal.{big_int}
use xander.Prelude.Table.{Table}

-- A status column is free text: what the program has no name for is `other`.
pub data ChallengeStatus : Type 0 where
  issued passed failed expired : ChallengeStatus
  other : String → ChallengeStatus

-- The columns of `VerificationChallenge` that the functions here read or write.
pub record Challenge : Type 0 where
  pub id : String
  pub claim_id : String
  pub created_at : ℕ
  pub world_action_id : String
  pub nullifier : Option ℕ
  pub rp_id : Option String
  pub status : ChallengeStatus
  pub resolved_at : Option ℕ

-- Why a proof is turned away; `row_gone` is an update of a row that is no longer there.
pub data Rejection : Type 0 where
  invalid_nullifier challenge_not_found already_used used_on_write row_gone : Rejection

pub data Recording (Db : Type 0) : Type 0 where
  recorded : Db → Recording Db
  rejected : Rejection → Recording Db

-- `nullifierToDecimalString`: the number that the text stands for, in whatever base it is written.
unfoldable pub nullifier_value : String → Option ℕ
nullifier_value text = elim (big_int text) [
  | none ↦ none
  | some (negative, n) ↦ if negative && not (n == 0) then none else some n
]

abbrev pub has_nullifier : ℕ → Option ℕ → Bool
has_nullifier n none = false
has_nullifier n (some m) = m == n

-- The row of a nullifier and an action.
abbrev pub is_use_of : ℕ → String → Challenge → Bool
is_use_of n action c = has_nullifier n c.nullifier && str_eq c.world_action_id action

-- What the write does to the row.
abbrev pub redeemed : ℕ → String → ℕ → Challenge → Challenge
redeemed n rp_id now c = record c {
  nullifier = some n;
  rp_id = some rp_id;
  status = ChallengeStatus.passed;
  resolved_at = some now;
}

abbrev pub is_other : String → Option Challenge → Bool
is_other id none = false
is_other id (some c) = not (str_eq c.id id)

module _ (D : Table Challenge) where
  -- `update`, under the constraint on the nullifier and the action
  unfoldable pub redeem : String → ℕ → String → ℕ → D.Db → Recording D.Db
  redeem id n rp_id now db = elim (D.find_unique (λ c. str_eq c.id id) db) [
    | none ↦ rejected Rejection.row_gone
    | some row ↦
        if ltb 0 (D.count (λ c. is_use_of n row.world_action_id c && not (str_eq c.id id)) db)
        then rejected Rejection.used_on_write
        else recorded (D.update_many (λ c. str_eq c.id id) (redeemed n rp_id now) db).1
  ]

  -- From the challenge on: the action is the one of its row.
  unfoldable pub check_and_redeem :
      String → ℕ → String → ℕ → D.Db → D.Db → Option Challenge → Recording D.Db
  check_and_redeem id n rp_id now read written none = rejected Rejection.challenge_not_found
  check_and_redeem id n rp_id now read written (some challenge) =
      if is_other id (D.find_unique (is_use_of n challenge.world_action_id) read)
      then rejected Rejection.already_used
      else redeem id n rp_id now written

  unfoldable pub record_value : String → Option ℕ → String → ℕ → D.Db → D.Db → Recording D.Db
  record_value id none rp_id now read written = rejected Rejection.invalid_nullifier
  record_value id (some n) rp_id now read written =
      check_and_redeem id n rp_id now read written (D.find_unique (λ c. str_eq c.id id) read)

  -- `recordNullifier`, of the state that it reads and the state that it writes
  unfoldable pub record_nullifier : String → String → String → ℕ → D.Db → D.Db → Recording D.Db
  record_nullifier id nullifier rp_id now read written =
      record_value id (nullifier_value nullifier) rp_id now read written
