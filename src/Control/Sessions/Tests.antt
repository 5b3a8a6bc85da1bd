-- ===== src/Control/Sessions/Tests.antt =====
-- An operator with one session, and the theorems at it.
use xander.Prelude.{◌≡◌, refl, String, none, [], ◌∷◌, In, arith}
use xander.Prelude.Memory.{memory}
use xander.Prelude.Effects.{returns}
use xander.Control.Auth.{check_session}
use xander.Control.Sessions.{
  Operator, OperatorSession, SessionTables, SessionWorld, operator_of, admit, authenticate,
  close_session,
}
use xander.Control.Sessions.Laws.{IsLiveSession, authenticate_sound, authenticate_complete}

abbrev tables : SessionTables
tables = record { operator = memory; session = memory; audit = memory }

-- An operator who was suspended after the session was opened.
abbrev operator : Operator
operator = record {
  id = "op-1";
  external_id = "olga";
  status = "SUSPENDED";
  secret_hash = "hash";
  secret_salt = "salt";
  actor_scope = [];
  action_scope = [];
}

abbrev session : String → OperatorSession
session id = record {
  id = id;
  operator_id = "op-1";
  token_hash = "token";
  device_id = "phone";
  status = "ACTIVE";
  expires_at = 1000;
  last_used_at = none;
}

abbrev world : SessionWorld tables
world = record { operators = operator ∷ []; sessions = session "session-1" ∷ []; audits = [] }

live : IsLiveSession "token" "phone" 10 (session "session-1")
live = record { token = refl; active = refl; in_time = ground arith; same_device = refl }

after : SessionWorld tables
unfolding authenticate admit check_session
after = (authenticate tables (λ t. t) "token" "phone" 10 world).1

admitted :
    authenticate tables (λ t. t) "token" "phone" 10 world
    ≡ (returns (operator_of (session "session-1") operator), after)
unfolding authenticate admit check_session after
admitted = refl

after_closing : SessionWorld tables
unfolding authenticate admit check_session close_session
after_closing =
    (authenticate tables (λ t. t) "token" "phone" 10 (close_session tables "session-2" world)).1

admitted_after_closing :
    authenticate tables (λ t. t) "token" "phone" 10 (close_session tables "session-2" world)
    ≡ (returns (operator_of (session "session-1") operator), after_closing)
unfolding authenticate admit check_session close_session after_closing
admitted_after_closing = refl

authenticate_sound_example :
    (s : OperatorSession) × In s world.sessions
    × IsLiveSession "token" "phone" 10 s
    × ("session-1" ≡ s.id)
    × ("op-1" ≡ s.operator_id)
authenticate_sound_example =
    authenticate_sound tables (λ t. t) "token" "phone" 10 world after
      (operator_of (session "session-1") operator) admitted

authenticate_complete_example :
    (authenticate tables (λ t. t) "token" "phone" 10 world).0
    ≡ returns (operator_of (session "session-1") operator)
authenticate_complete_example =
    authenticate_complete tables (λ t. t) "token" "phone" 10 world (session "session-1") operator
      refl refl live
