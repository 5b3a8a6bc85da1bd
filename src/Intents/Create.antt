-- ===== src/Intents/Create.antt =====
-- Submitting an intent, once per idempotency key: `createIntent` and `findByIdempotencyKey` of
-- backend/src/intent/intent-service.ts. The actor is resolved and the parameters are hashed before;
-- the read and the write each see a state of their own, and the database keeps the key unique.
pub mod Laws
use xander.Prelude.{
  ℕ, ◌+◌, ◌*◌, String, Bool, true, false, Option, none, some, List, str_eq, if◌then◌else◌,
}
use xander.Prelude.Table.{Table}
use xander.Capabilities.Store.{Database}
use xander.Intents.Rows.{Actor, Request}
use xander.Intents.Authorize.{Readings, Written, authorize}

pub data IntentStatus : Type 0 where
  pending decided expired cancelled : IntentStatus

pub record IntentRow : Type 0 where
  pub id : String
  pub actor_id : String
  pub resource_type : String
  pub resource_id : String
  pub action_type : String
  pub chain_id : Option ℕ
  pub target_address : Option String
  pub amount : Option String
  pub asset : Option String
  pub protocol : Option String
  pub parameters_hash : String
  pub expires_at : ℕ
  pub idempotency_key : String
  pub status : IntentStatus

-- The input, once its actor is resolved and its parameters are normalized and hashed.
pub record IntentInput : Type 0 where
  pub actor : Actor
  pub resource_type : String
  pub resource_id : String
  pub action_type : String
  pub chain_id : Option ℕ
  pub target_address : Option String
  pub amount : Option String
  pub asset : Option String
  pub protocol : Option String
  pub parameters_hash : String
  pub expires_at : Option ℕ
  pub idempotency_key : String

-- `input.expiresAt ?? defaultExpiry(now, ttl)`
unfoldable pub expiry_for : Option ℕ → ℕ → ℕ → ℕ
expiry_for none now ttl_seconds = now + ttl_seconds * 1000
expiry_for (some expires_at) now ttl_seconds = expires_at

-- The row that is created, with the id that the database gives it.
unfoldable pub pending_row : IntentInput → String → ℕ → IntentRow
pending_row input id expires_at = record {
  id = id;
  actor_id = input.actor.id;
  resource_type = input.resource_type;
  resource_id = input.resource_id;
  action_type = input.action_type;
  chain_id = input.chain_id;
  target_address = input.target_address;
  amount = input.amount;
  asset = input.asset;
  protocol = input.protocol;
  parameters_hash = input.parameters_hash;
  expires_at = expires_at;
  idempotency_key = input.idempotency_key;
  status = IntentStatus.pending;
}

-- The arguments of `authorize`.
unfoldable pub request_for : IntentInput → String → ℕ → ℕ → Request
request_for input id expires_at now = record {
  intent_id = id;
  actor = input.actor;
  expires_at = expires_at;
  now = now;
  resource_type = input.resource_type;
  resource_id = input.resource_id;
  action_type = input.action_type;
  amount = input.amount;
  asset = input.asset;
  chain_id = input.chain_id;
  target_address = input.target_address;
}

abbrev pub decide_row : IntentRow → IntentRow
decide_row row = record row { status = IntentStatus.decided }

module _ (D : Database) (T : Table IntentRow) where
  -- The intent that the caller gets, whether it was there before, the intents, and what the
  -- authorization wrote if there was one.
  pub record Submission : Type 0 where
    pub intent_id : String
    pub replayed : Bool
    pub intents : T.Db
    pub written : Option (Written D)

  unfoldable pub find_by_key : String → T.Db → Option IntentRow
  find_by_key key db = T.find_unique (λ i. str_eq i.idempotency_key key) db

  abbrev pub replay : IntentRow → T.Db → Submission
  replay row db = record { intent_id = row.id; replayed = true; intents = db; written = none }

  -- The new intent, authorized and then marked as decided.
  unfoldable pub submit_new : IntentInput → String → ℕ → ℕ → Readings D → T.Db → Submission
  submit_new input id now ttl_seconds r db =
      let expires_at = expiry_for input.expires_at now ttl_seconds in
      let created = T.create (pending_row input id expires_at) db in
      record {
        intent_id = id;
        replayed = false;
        intents = (T.update_many (λ i. str_eq i.id id) decide_row created).1;
        written = some (authorize D (request_for input id expires_at now) r);
      }

  -- `create`, under the constraint on the key: the winner's intent is the answer.
  unfoldable pub insert_or_replay :
      IntentInput → String → ℕ → ℕ → Readings D → T.Db → Option IntentRow → Submission
  insert_or_replay input id now ttl_seconds r db none = submit_new input id now ttl_seconds r db
  insert_or_replay input id now ttl_seconds r db (some winner) = replay winner db

  unfoldable pub submit :
      IntentInput → String → ℕ → ℕ → Readings D → T.Db → Option IntentRow → Submission
  submit input id now ttl_seconds r db (some existing) = replay existing db
  submit input id now ttl_seconds r db none =
      insert_or_replay input id now ttl_seconds r db (find_by_key input.idempotency_key db)

  -- `createIntent`, of the state that it reads and the state that it writes
  unfoldable pub create_intent :
      IntentInput → String → ℕ → ℕ → Readings D → T.Db → T.Db → Submission
  create_intent input id now ttl_seconds r read db =
      submit input id now ttl_seconds r db (find_by_key input.idempotency_key read)
