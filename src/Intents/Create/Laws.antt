-- ===== src/Intents/Create/Laws.antt =====
-- An idempotency key stands for one intent and one decision (`createIntent` of
-- backend/src/intent/intent-service.ts).
use xander.Prelude.{
  ℕ, ◌≡◌, refl, sym, ◌∙◌, ap, String, true, false, Option, none, some, List, ◌∷◌, eq_iff, str_eq,
  In, All, All-In, In-map_inv, map, Bool-cases, Option-cases, inl, inr,
}
use xander.Prelude.Table.{Table, patch}
use xander.Capabilities.Store.{Database}
use xander.Intents.Authorize.{Readings}
use xander.Intents.Create.{
  IntentRow, IntentInput, expiry_for, pending_row, decide_row, Submission, find_by_key, submit_new,
  insert_or_replay, submit, create_intent,
}

-- One intent per idempotency key.
abbrev pub HasUniqueKeys : List IntentRow → Type 0
HasUniqueKeys rows =
    (a b : IntentRow) → In a rows → In b rows → a.idempotency_key ≡ b.idempotency_key → a.id ≡ b.id

module _ (id : String) where
  decided-key :
      (i : IntentRow)
      → (patch (λ k. str_eq k.id id) decide_row i).idempotency_key ≡ i.idempotency_key
  decided-key i = elim (Bool-cases (str_eq i.id id)) [ inl h ↦ rw h refl | inr h ↦ rw h refl ]

  decided-id : (i : IntentRow) → (patch (λ k. str_eq k.id id) decide_row i).id ≡ i.id
  decided-id i = elim (Bool-cases (str_eq i.id id)) [ inl h ↦ rw h refl | inr h ↦ rw h refl ]

  decided-HasUniqueKeys :
      (rows : List IntentRow)
      → HasUniqueKeys rows
      → HasUniqueKeys (map (patch (λ k. str_eq k.id id) decide_row) rows)
  decided-HasUniqueKeys rows u a' b' ma' mb' same =
      let (a, ma, ea) = In-map_inv (patch (λ k. str_eq k.id id) decide_row) rows a' ma' in
      let (b, mb, eb) = In-map_inv (patch (λ k. str_eq k.id id) decide_row) rows b' mb' in
      let keys : a.idempotency_key ≡ b.idempotency_key =
        sym (decided-key a)
        ∙ (sym (ap (λ (i : IntentRow). i.idempotency_key) ea)
            ∙ (same ∙ (ap (λ (i : IntentRow). i.idempotency_key) eb ∙ decided-key b))) in
      ap (λ (i : IntentRow). i.id) ea
      ∙ (decided-id a
          ∙ (u a b ma mb keys ∙ (sym (decided-id b) ∙ sym (ap (λ (i : IntentRow). i.id) eb))))

module _ (row : IntentRow) (rows : List IntentRow)
    (fresh : All
      (λ (i : IntentRow). str_eq i.idempotency_key row.idempotency_key ≡ false)
      rows) where
  not_taken : (i : IntentRow) → In i rows → i.idempotency_key ≡ row.idempotency_key → ⊥
  not_taken i m e = cc (
      sym (
        All-In (λ (k : IntentRow). str_eq k.idempotency_key row.idempotency_key ≡ false) rows i
          fresh m)
      ∙ (eq_iff i.idempotency_key row.idempotency_key).1 e)

  fresh-HasUniqueKeys : HasUniqueKeys rows → HasUniqueKeys (row ∷ rows)
  fresh-HasUniqueKeys u a b (inl ea) (inl eb) same = ap (λ (i : IntentRow). i.id) (ea ∙ sym eb)
  fresh-HasUniqueKeys u a b (inr ma) (inr mb) same = u a b ma mb same
  fresh-HasUniqueKeys u a b (inl ea) (inr mb) same =
      absurd (not_taken b mb (sym same ∙ ap (λ (i : IntentRow). i.idempotency_key) ea))
  fresh-HasUniqueKeys u a b (inr ma) (inl eb) same =
      absurd (not_taken a ma (same ∙ ap (λ (i : IntentRow). i.idempotency_key) eb))

module _ (D : Database) (T : Table IntentRow) (input : IntentInput) (id : String) (now ttl : ℕ)
    (r : Readings D) (db : T.Db) where
  insert-HasUniqueKeys :
      (found : Option IntentRow)
      → found ≡ find_by_key D T input.idempotency_key db
      → HasUniqueKeys (T.rows db)
      → HasUniqueKeys (T.rows (insert_or_replay D T input id now ttl r db found).intents)
  unfolding insert_or_replay submit_new find_by_key pending_row
  insert-HasUniqueKeys (some winner) e u = u
  insert-HasUniqueKeys none e u =
      let row = pending_row input id (expiry_for input.expires_at now ttl) in
      rw (T.update_many-rows (λ i. str_eq i.id id) decide_row (T.create row db)) (
        decided-HasUniqueKeys id (T.rows (T.create row db)) (
          rw (T.create-rows row db) (
            fresh-HasUniqueKeys row (T.rows db)
              (T.find_unique-none (λ i. str_eq i.idempotency_key input.idempotency_key) db (sym e))
              u)))

  submit-HasUniqueKeys :
      (found : Option IntentRow)
      → HasUniqueKeys (T.rows db)
      → HasUniqueKeys (T.rows (submit D T input id now ttl r db found).intents)
  unfolding submit
  submit-HasUniqueKeys (some existing) u = u
  submit-HasUniqueKeys none u = insert-HasUniqueKeys _ refl u

  -- What a submission under a key that is taken comes to.
  abbrev pub IsReplayOf : IntentRow → Submission D T → Type 0
  IsReplayOf row s =
      (s.intent_id ≡ row.id) × (s.replayed ≡ true) × (s.written ≡ none) × (s.intents ≡ db)

  insert-IsReplayOf :
      (row : IntentRow) (found : Option IntentRow)
      → found ≡ find_by_key D T input.idempotency_key db
      → HasUniqueKeys (T.rows db)
      → In row (T.rows db)
      → row.idempotency_key ≡ input.idempotency_key
      → IsReplayOf row (insert_or_replay D T input id now ttl r db found)
  unfolding insert_or_replay find_by_key
  insert-IsReplayOf row (some winner) e u m same =
      let (there, key) = T.find_unique-some _ db winner (sym e) in
      (
        u winner row there m
            ((eq_iff winner.idempotency_key input.idempotency_key).0 key ∙ sym same),
        refl,
        refl,
        refl,
      )
  insert-IsReplayOf row none e u m same =
      let free =
        All-In (λ (i : IntentRow). str_eq i.idempotency_key input.idempotency_key ≡ false)
          (T.rows db) row
          (T.find_unique-none (λ i. str_eq i.idempotency_key input.idempotency_key) db (sym e)) m in
      absurd (cc (sym free ∙ (eq_iff row.idempotency_key input.idempotency_key).1 same))

-- Submitting an intent keeps one intent per idempotency key, whatever the earlier read saw.
pub create_intent-HasUniqueKeys :
    (D : Database) (T : Table IntentRow) (input : IntentInput) (id : String) (now ttl : ℕ)
    (r : Readings D) (read db : T.Db)
    → HasUniqueKeys (T.rows db)
    → HasUniqueKeys (T.rows (create_intent D T input id now ttl r read db).intents)
unfolding create_intent
create_intent-HasUniqueKeys D T input id now ttl r read db =
    submit-HasUniqueKeys D T input id now ttl r db (find_by_key D T input.idempotency_key read)

-- A key that is taken when the write is made is answered with its intent: nothing is decided again,
-- nothing is granted and no intent is added. The earlier read may have seen fewer intents, but none
-- that has gone since.
pub create_intent_replayed :
    (D : Database) (T : Table IntentRow) (input : IntentInput) (id : String) (now ttl : ℕ)
    (r : Readings D) (read db : T.Db) (row : IntentRow)
    → HasUniqueKeys (T.rows db)
    → ((i : IntentRow)
        → In i (T.rows read)
        → (j : IntentRow) × In j (T.rows db)
          × (j.id ≡ i.id)
          × (j.idempotency_key ≡ i.idempotency_key))
    → In row (T.rows db)
    → row.idempotency_key ≡ input.idempotency_key
    → IsReplayOf D T input id now ttl r db row (create_intent D T input id now ttl r read db)
unfolding create_intent find_by_key
create_intent_replayed D T input id now ttl r read db row u kept m same =
    elim (Option-cases (T.find_unique (λ i. str_eq i.idempotency_key input.idempotency_key) read)) [
      | inl missed ↦
          rw (missed)
            (unfold submit in insert-IsReplayOf D T input id now ttl r db row _ refl u m same)
      | inr (existing, found) ↦
          let (there, key) = T.find_unique-some _ read existing found in
          let (j, mj, same_id, same_key) = kept existing there in
          rw found (
            unfold submit in
            (
              sym same_id
                  ∙ u j row mj m (
                      same_key
                      ∙ ((eq_iff existing.idempotency_key input.idempotency_key).0 key ∙ sym same)),
              refl,
              refl,
              refl,
            ))
    ]
