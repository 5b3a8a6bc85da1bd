-- ===== src/Control/Sessions.antt =====
-- The sessions of operators: `deriveSecretHash` of backend/src/control/operator-auth.ts and
-- `openSession`, `authenticate` and `closeSession` of backend/src/control/control-service.ts. The
-- hash is a parameter, and what is drawn at random is an argument.
pub mod Laws
mod Tests
use xander.Prelude.{
  ℕ, zero, suc, ◌+◌, ◌*◌, String, Bool, true, false, ◌&&◌, not, Option, none, some, List, leb,
  str_eq, if◌then◌else◌,
}
use xander.Prelude.Table.{Table}
use xander.Prelude.Text.{append}
use xander.Prelude.Effects.{Program, pure, throw, reads, writes, expect, ◌>>=◌, ◌>>◌}
use xander.Control.Auth.{Session, SessionCheck, check_session}
use xander.Control.Rows.{AuthenticatedOperator, AuditEntry, AuditOutcome}

pub record Operator : Type 0 where
  pub id : String
  pub external_id : String
  pub status : String
  pub secret_hash : String
  pub secret_salt : String
  pub actor_scope : List String
  pub action_scope : List String

pub record OperatorSession : Type 0 where
  pub id : String
  pub operator_id : String
  pub token_hash : String
  pub device_id : String
  pub status : String
  pub expires_at : ℕ
  pub last_used_at : Option ℕ

pub record OpenSessionInput : Type 0 where
  pub external_id : String
  pub secret : String
  pub device_id : String

pub record SessionGrant : Type 0 where
  pub token : String
  pub session_id : String
  pub operator_id : String
  pub expires_at : ℕ

-- The hash, the clock, the configuration, and what is new: the token and the id of the row.
pub record SessionSetting : Type 0 where
  pub sha256 : String → String
  pub now : ℕ
  pub session_ttl_seconds : ℕ
  pub token : String
  pub session_id : String

pub data SessionError : Type 0 where
  invalid_credentials not_authenticated expired row_gone : SessionError

pub record SessionTables : Type 1 where
  pub operator : Table Operator
  pub session : Table OperatorSession
  pub audit : Table AuditEntry

abbrev pub digest_again : (String → String) → ℕ → String → String
digest_again sha256 zero digest = digest
digest_again sha256 (suc n) digest = digest_again sha256 n (sha256 digest)

-- `SECRET_ITERATIONS`
abbrev pub secret_iterations : ℕ
secret_iterations = 100000

-- `deriveSecretHash`
unfoldable pub derive_secret_hash : (String → String) → String → String → String
derive_secret_hash sha256 secret salt =
    digest_again sha256 secret_iterations (append salt (append ":" secret))

-- What `checkSession` reads of a row.
abbrev pub session_of : OperatorSession → Session
session_of s = record {
  id = s.id;
  operator_id = s.operator_id;
  status = s.status;
  expires_at = s.expires_at;
  device_id = s.device_id;
}

abbrev pub is_valid : SessionCheck → Bool
is_valid SessionCheck.valid = true
is_valid _ = false

abbrev pub new_session : SessionSetting → OpenSessionInput → Operator → OperatorSession
new_session setting input operator = record {
  id = setting.session_id;
  operator_id = operator.id;
  token_hash = setting.sha256 setting.token;
  device_id = input.device_id;
  status = "ACTIVE";
  expires_at = setting.now + setting.session_ttl_seconds * 1000;
  last_used_at = none;
}

abbrev pub with_session_status : String → OperatorSession → OperatorSession
with_session_status status s = record s { status = status }

abbrev pub used_at : ℕ → OperatorSession → OperatorSession
used_at now s = record s { last_used_at = some now }

abbrev pub operator_of : OperatorSession → Operator → AuthenticatedOperator
operator_of s o = record {
  operator_id = s.operator_id;
  session_id = s.id;
  device_id = s.device_id;
  actor_scope = o.actor_scope;
  action_scope = o.action_scope;
}

-- What goes on file about a session.
abbrev pub session_entry :
    Option String → Option String → String → String → Option String → AuditOutcome → AuditEntry
session_entry operator session device action subject outcome = record {
  operator_id = operator;
  session_id = session;
  device_id = some device;
  action = action;
  subject = subject;
  outcome = outcome;
  nonce = none;
}

abbrev pub opened_grant : SessionSetting → Operator → SessionGrant
opened_grant setting operator = record {
  token = setting.token;
  session_id = setting.session_id;
  operator_id = operator.id;
  expires_at = setting.now + setting.session_ttl_seconds * 1000;
}

module _ (T : SessionTables) where
  pub record SessionWorld : Type 0 where
    pub operators : T.operator.Db
    pub sessions : T.session.Db
    pub audits : T.audit.Db

  abbrev pub SessionProgram : Type 0 → Type 0
  SessionProgram X = Program SessionWorld SessionError X

  -- An entry without a nonce.
  abbrev pub file : AuditEntry → SessionWorld → SessionWorld
  file entry w = record w { audits = T.audit.create entry w.audits }

  abbrev pub update_session :
      String → (OperatorSession → OperatorSession) → SessionWorld → SessionWorld
  update_session id f w = record w {
    sessions = (T.session.update_many (λ s. str_eq s.id id) f w.sessions).1;
  }

  unfoldable pub refuse_session : OpenSessionInput → Option String → SessionProgram SessionGrant
  refuse_session input operator = do
    writes (
        file (
          session_entry operator none input.device_id "OPEN_SESSION" (some input.external_id)
            AuditOutcome.denied))
    throw SessionError.invalid_credentials

  unfoldable pub grant_session :
      SessionSetting → OpenSessionInput → Operator → SessionProgram SessionGrant
  grant_session setting input operator = do
    writes (λ w. record w {
      sessions = T.session.create (new_session setting input operator) w.sessions;
    })
    writes (
        file (
          session_entry (some operator.id) (some setting.session_id) input.device_id "OPEN_SESSION"
            (some operator.external_id) AuditOutcome.allowed))
    pure (opened_grant setting operator)

  -- `openSession`
  unfoldable pub open_session : SessionSetting → OpenSessionInput → SessionProgram SessionGrant
  open_session setting input = do
    found ←
        reads
          (λ w. T.operator.find_unique (λ o. str_eq o.external_id input.external_id) w.operators)
    elim found [
      | none ↦ refuse_session input none
      | some operator ↦
          if str_eq (derive_secret_hash setting.sha256 input.secret operator.secret_salt)
              operator.secret_hash
            && str_eq operator.status "ACTIVE"
          then grant_session setting input operator
          else refuse_session input (some operator.id)
    ]

  -- A session that does not hold is put on file and refused.
  unfoldable pub refuse_authentication :
      Option String → Option String → String → SessionProgram AuthenticatedOperator
  refuse_authentication operator session device = do
    writes (file (session_entry operator session device "AUTHENTICATE" none AuditOutcome.denied))
    throw SessionError.not_authenticated

  -- The rest of `authenticate`, once the session was checked.
  unfoldable pub admit : String → ℕ → OperatorSession → SessionProgram AuthenticatedOperator
  admit device now s =
      if leb s.expires_at now
      then writes (update_session s.id (with_session_status "EXPIRED"))
        >> throw SessionError.expired
      else (do
        writes (update_session s.id (used_at now))
        operator ← λ w.
            expect (T.operator.find_unique (λ o. str_eq o.id s.operator_id) w.operators)
              SessionError.row_gone w
        pure (operator_of s operator))

  -- `authenticate`
  unfoldable pub authenticate :
      (String → String) → String → String → ℕ → SessionProgram AuthenticatedOperator
  authenticate sha256 token device now = do
    found ← reads (λ w. T.session.find_unique (λ s. str_eq s.token_hash (sha256 token)) w.sessions)
    elim found [
      | none ↦ refuse_authentication none none device
      | some s ↦
          if is_valid (check_session (some (session_of s)) device now)
          then admit device now s
          else refuse_authentication (some s.operator_id) (some s.id) device
    ]

  -- `closeSession`
  unfoldable pub close_session : String → SessionWorld → SessionWorld
  close_session id w = record w {
    sessions =
        (T.session.update_many (λ s. str_eq s.id id && str_eq s.status "ACTIVE")
          (with_session_status "REVOKED") w.sessions).1;
  }
