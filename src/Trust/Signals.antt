-- ===== src/Trust/Signals.antt =====
-- The ledger of trust events: `recordTrustSignal` of backend/src/trust/trust-history.ts and
-- `isPositiveSignal` of backend/src/trust/trust-types.ts. A weight is a number of millionths.
use Prim.Native.Nat.{min}
use xander.Prelude.{ℕ, String, Bool, true, false}
use xander.Prelude.Table.{Table}

pub data TrustSignalKind : Type 0 where
  successful_action clean_behavior successful_challenge trusted_attestation : TrustSignalKind
  confirmed_coordinated_cluster policy_violation failed_assurance behavior_drift : TrustSignalKind
  repeated_abnormal_action invalidated_attestation : TrustSignalKind

-- `isPositiveSignal`
unfoldable pub is_positive_signal : TrustSignalKind → Bool
is_positive_signal TrustSignalKind.successful_action = true
is_positive_signal TrustSignalKind.clean_behavior = true
is_positive_signal TrustSignalKind.successful_challenge = true
is_positive_signal TrustSignalKind.trusted_attestation = true
is_positive_signal _ = false

pub record TrustSignal : Type 0 where
  pub actor_id : String
  pub kind : TrustSignalKind
  pub positive : Bool
  pub weight : ℕ
  pub source : String

-- `recordTrustSignal`
unfoldable pub record_trust_signal :
    (S : Table TrustSignal) → String → TrustSignalKind → ℕ → String → S.Db → S.Db
record_trust_signal S actor_id kind weight source db =
    S.create
      (record {
        actor_id = actor_id;
        kind = kind;
        positive = is_positive_signal kind;
        weight = min 1000000 weight;
        source = source;
      })
      db
