-- ===== src/Trust/Mutation.antt =====
-- What a change of trust does to the authority an actor holds:
-- backend/src/trust/trust-mutation.ts. The rebuilt trust context enters as the band it gives; the
-- signal on the actor's history and the signals to running workflows are left out.
pub mod Laws
use Prim.Native.Nat.{max}
use xander.Prelude.{
  ℕ, suc, ◌/◌, String, Bool, true, false, ◌&&◌, ◌||◌, not, Option, none, some, List, [], ◌∷◌,
  is_none, str_eq, if◌then◌else◌, ◌==◌,
}
use xander.Prelude.Decimal.{to_decimal, big_int}
use xander.Prelude.Dictionary.{Rank, read, rank_or, is_above}
use xander.Capabilities.Types.{CapabilityStatus, CapabilityType, is_active}
use xander.Capabilities.Store.{Capability, Database, State, with_status}
use xander.Authorization.Enforcement.Local.{is_suspended}

abbrev pub band_severities : List (String × ℕ)
band_severities =
    ("VERIFIED_LOW", 0)
    ∷ ("ESTABLISHED_LOW", 1)
    ∷ ("UNCERTAIN", 2)
    ∷ ("INSUFFICIENT_EVIDENCE", 3)
    ∷ ("HIGH_RISK", 4)
    ∷ ("CRITICAL", 5)
    ∷ []

-- `bandSeverity`
unfoldable pub band_severity : String → Rank
band_severity band = rank_or 3 (read band_severities band)

-- `isDegradation`
unfoldable pub is_degradation : String → String → Bool
is_degradation previous current = is_above (band_severity current) (band_severity previous)

-- `untouched` is the source's `NONE`.
pub data MutationConsequence : Type 0 where
  untouched attenuate suspend revoke : MutationConsequence

-- The `switch` of `decideConsequence`
unfoldable pub consequence_of : String → MutationConsequence
consequence_of current =
    if str_eq current "CRITICAL"
    then MutationConsequence.revoke
    else if str_eq current "HIGH_RISK"
    then MutationConsequence.suspend
    else if str_eq current "INSUFFICIENT_EVIDENCE"
    then MutationConsequence.suspend
    else if str_eq current "UNCERTAIN"
    then MutationConsequence.attenuate
    else MutationConsequence.untouched

-- `decideConsequence`
unfoldable pub decide_consequence : String → String → MutationConsequence
decide_consequence previous current =
    if is_degradation previous current
    then consequence_of current
    else MutationConsequence.untouched

-- The quotient of a bigint, which rounds towards zero, as a text.
unfoldable pub quotient_text : Bool × ℕ → ℕ → String
quotient_text (negative, n) d =
    if negative && not (n / d == 0) then String.◌∷◌ "-" (to_decimal (n / d)) else to_decimal (n / d)

-- `attenuatedLimit`, for a divisor that is a natural number
unfoldable pub attenuated_limit : Option String → ℕ → Option String
attenuated_limit none divisor = none
attenuated_limit (some current) divisor = elim (big_int current) [
  | none ↦ some current
  | some value ↦ some (quotient_text value (max 2 divisor))
]

-- The `where` clauses of `applyConsequence`.
abbrev pub is_held : String → Capability → Bool
is_held actor c = str_eq c.actor_id actor && (is_active c.status || is_suspended c.status)

abbrev pub is_exercisable : String → Capability → Bool
is_exercisable actor c = str_eq c.actor_id actor && is_active c.status

abbrev pub is_ceilinged : String → Capability → Bool
is_ceilinged actor c = is_exercisable actor c && not (is_none c.amount_limit)

abbrev pub same_text : Option String → Option String → Bool
same_text none none = true
same_text none (some _) = false
same_text (some a) none = false
same_text (some a) (some b) = str_eq a b

abbrev pub with_ceiling : Option String → Capability → Capability
with_ceiling limit c = record c {
  amount_limit = limit;
  capability_type = CapabilityType.attenuated_grant;
}

pub record MutationResult : Type 0 where
  pub previous_band : Option String
  pub current_band : String
  pub degraded : Bool
  pub consequence : MutationConsequence
  pub capabilities_affected : ℕ

module _ (D : Database) where
  -- One round of the loop that narrows every ceiling.
  unfoldable pub narrow_one : ℕ → Capability → ℕ × D.capability.Db → ℕ × D.capability.Db
  narrow_one divisor c (affected, db) =
      let reduced = attenuated_limit c.amount_limit divisor in
      if is_none reduced || same_text reduced c.amount_limit then (affected, db) else (
        suc affected,
        (D.capability.update_many (λ r. str_eq r.id c.id) (with_ceiling reduced) db).1,
      )

  unfoldable pub narrow_all : ℕ → List Capability → ℕ × D.capability.Db → ℕ × D.capability.Db
  narrow_all divisor [] r = r
  narrow_all divisor (c ∷ cs) r = narrow_all divisor cs (narrow_one divisor c r)

  unfoldable pub update_status : (Capability → Bool) → CapabilityStatus → State D → ℕ × State D
  update_status p status s =
      let (count, db) = D.capability.update_many p (with_status status) s.capabilities in
      (count, record s { capabilities = db })

  -- `applyConsequence`; it is not called with `untouched`.
  unfoldable pub apply_consequence : String → MutationConsequence → ℕ → State D → ℕ × State D
  apply_consequence actor MutationConsequence.untouched divisor s = (0, s)
  apply_consequence actor MutationConsequence.revoke divisor s =
      update_status (is_held actor) CapabilityStatus.revoked s
  apply_consequence actor MutationConsequence.suspend divisor s =
      update_status (is_exercisable actor) CapabilityStatus.suspended s
  apply_consequence actor MutationConsequence.attenuate divisor s =
      let found = D.capability.find_many (is_ceilinged actor) (λ c. c.created_at) s.capabilities in
      let (affected, db) = narrow_all divisor found (0, s.capabilities) in
      (affected, record s { capabilities = db })

  -- What a first snapshot does: there is nothing to compare it with.
  abbrev pub degraded_from : Option String → String → Bool
  degraded_from none current = false
  degraded_from (some previous) current = is_degradation previous current

  abbrev pub consequence_from : Option String → String → MutationConsequence
  consequence_from none current = MutationConsequence.untouched
  consequence_from (some previous) current = decide_consequence previous current

  -- `applyTrustMutation`, of the last snapshot's band and the band of the rebuilt context
  unfoldable pub apply_trust_mutation :
      String → Option String → String → ℕ → State D → MutationResult × State D
  apply_trust_mutation actor previous current divisor s =
      let consequence = consequence_from previous current in
      let (affected, after) = apply_consequence actor consequence divisor s in
      (
        record {
          previous_band = previous;
          current_band = current;
          degraded = degraded_from previous current;
          consequence = consequence;
          capabilities_affected = affected;
        },
        after,
      )
