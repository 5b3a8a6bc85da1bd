-- ===== src/World/Replay/Laws.antt =====
-- No two challenges of one action hold the same nullifier
-- (`recordNullifier` of backend/src/world/replay-protection.ts).
use xander.Prelude.{
  ℕ, ◌≡◌, ◌≢◌, ◌⊎◌, refl, sym, ◌∙◌, ap, subst, String, ◌&&◌, not, Option, none, some, map, eq_iff,
  ltb, str_eq, In, Bool-cases, Option-cases, inl, inr,
}
use xander.Prelude.Table.{Table}
use xander.World.Replay.{
  Challenge, Rejection, Recording, recorded, rejected, nullifier_value, is_use_of, redeemed,
  is_other, redeem, check_and_redeem, record_value, record_nullifier,
}
use xander.World.Replay.Rows.{IsWellFormed, written, written-IsWellFormed, clash}

module _ (D : Table Challenge) (id rp_id : String) (now : ℕ) where
  -- A write that went through, on a state that keeps the constraint.
  abbrev pub Redeemed : ℕ → D.Db → D.Db → Type 0
  Redeemed n before after =
      (D.rows after ≡ map (written id n rp_id now) (D.rows before))
      × (IsWellFormed (D.rows before) → IsWellFormed (D.rows after))

  redeem-Redeemed :
      (n : ℕ) (db after : D.Db) → redeem D id n rp_id now db ≡ recorded after → Redeemed n db after
  unfolding redeem
  redeem-Redeemed n db after h = elim (Option-cases (D.find_unique (λ c. str_eq c.id id) db)) [
    | inl gone ↦ absurd (cc (rw (gone, redeem) at h))
    | inr (row, found) ↦
        elim (Bool-cases
          (ltb 0 (D.count (λ c. is_use_of n row.world_action_id c && not (str_eq c.id id)) db))) [
            | inl clash ↦ absurd (cc (rw (found, redeem, clash) at h))
            | inr free ↦
                let same : (D.update_many (λ c. str_eq c.id id) (redeemed n rp_id now) db).1
                    ≡ after =
                  cc (rw (found, redeem, free) at h) in
                let (there, named) = D.find_unique-some _ db row found in
                let rows : D.rows after ≡ map (written id n rp_id now) (D.rows db) =
                  sym (ap D.rows same) ∙ D.update_many-rows _ _ db in
                (
                  rows,
                  (λ w. rw rows (
                      written-IsWellFormed id n rp_id now (D.rows db) row w there
                        ((eq_iff row.id id).0 named) (rw D.count-rows at free))),
                )
          ]
  ]

  check-Redeemed :
      (n : ℕ) (read db after : D.Db) (challenge : Option Challenge)
      → check_and_redeem D id n rp_id now read db challenge ≡ recorded after
      → Redeemed n db after
  unfolding check_and_redeem
  check-Redeemed n read db after none h = absurd (cc)
  check-Redeemed n read db after (some challenge) h =
      elim (Bool-cases (is_other id (D.find_unique (is_use_of n challenge.world_action_id) read))) [
        | inl used ↦ absurd (cc (rw used at h))
        | inr free ↦ redeem-Redeemed n db after (rw free at h)
      ]

  record-Redeemed :
      (value : Option ℕ) (read db after : D.Db)
      → record_value D id value rp_id now read db ≡ recorded after
      → (n : ℕ) × (value ≡ some n) × Redeemed n db after
  unfolding record_value
  record-Redeemed none read db after h = absurd (cc)
  record-Redeemed (some n) read db after h = (n, refl, check-Redeemed n read db after _ h)

-- What a recording that went through wrote.
pub record_nullifier-Redeemed :
    (D : Table Challenge) (id nullifier rp_id : String) (now : ℕ) (read db after : D.Db)
    → record_nullifier D id nullifier rp_id now read db ≡ recorded after
    → (n : ℕ) × (nullifier_value nullifier ≡ some n) × Redeemed D id rp_id now n db after
unfolding record_nullifier
record_nullifier-Redeemed D id nullifier rp_id now read db after h =
    record-Redeemed D id rp_id now (nullifier_value nullifier) read db after h

Recording-cases :
    {Db : Type 0} (r : Recording Db)
    → ((db : Db) × (r ≡ recorded db)) ⊎ ((why : Rejection) × (r ≡ rejected why))
Recording-cases (recorded db) = inl (db, refl)
Recording-cases (rejected why) = inr (why, refl)

-- Recording a nullifier keeps the key and the rule of one challenge per nullifier and action,
-- whatever the earlier reads saw.
pub record_nullifier-IsWellFormed :
    (D : Table Challenge) (id nullifier rp_id : String) (now : ℕ) (read db after : D.Db)
    → record_nullifier D id nullifier rp_id now read db ≡ recorded after
    → IsWellFormed (D.rows db)
    → IsWellFormed (D.rows after)
unfolding record_nullifier
record_nullifier-IsWellFormed D id nullifier rp_id now read db after h =
    (record-Redeemed D id rp_id now (nullifier_value nullifier) read db after h).2.1

-- A proof is not redeemed twice: if another challenge of the same action holds the nullifier that a
-- text stands for when the write is made, the recording is rejected, whatever the earlier reads saw
-- and however the text is written.
pub record_nullifier_replayed :
    (D : Table Challenge) (id nullifier rp_id : String) (now : ℕ) (read db : D.Db)
    (row used : Challenge) (n : ℕ)
    → IsWellFormed (D.rows db)
    → nullifier_value nullifier ≡ some n
    → In row (D.rows db)
    → row.id ≡ id
    → In used (D.rows db)
    → used.id ≢ id
    → used.world_action_id ≡ row.world_action_id
    → used.nullifier ≡ some n
    → (why : Rejection) × (record_nullifier D id nullifier rp_id now read db ≡ rejected why)
record_nullifier_replayed D id nullifier rp_id now read db row used n w v m named mu other action
      held =
    elim (Recording-cases (record_nullifier D id nullifier rp_id now read db)) [
      | inr turned_away ↦ turned_away
      | inl (after, e) ↦
          let (k, vk, (rows, keep)) =
            record-Redeemed D id rp_id now (nullifier_value nullifier) read db after
              (unfold record_nullifier in e) in
          let same : k ≡ n = cc in
          absurd (
            clash id n rp_id now (D.rows db) row used
              (subst (λ t. IsWellFormed (map (written id t rp_id now) (D.rows db))) same
                (subst IsWellFormed rows (keep w)))
              m named mu other action held)
    ]
