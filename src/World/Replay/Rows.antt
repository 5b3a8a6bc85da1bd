-- ===== src/World/Replay/Rows.antt =====
-- What a redemption does to the rows, and that it keeps one challenge per nullifier and action
-- (`recordNullifier` of backend/src/world/replay-protection.ts).
use xander.Prelude.{
  ℕ, ◌≡◌, ◌≢◌, refl, sym, ◌∙◌, ap, String, Bool, true, false, ◌&&◌, not, some, List, [], ◌∷◌, map,
  arith, eq_iff, ltb, str_eq, In, In-map, In-map_inv, count_if, Bool-cases, inl, inr,
}
use xander.Prelude.Table.{patch}
use xander.World.Replay.{Challenge, is_use_of, redeemed}

-- The primary key, and one challenge per nullifier and action.
pub record IsWellFormed (rows : List Challenge) : Type 0 where
  pub key : (c d : Challenge) → In c rows → In d rows → c.id ≡ d.id → c ≡ d
  pub single_use :
      (c d : Challenge) (n : ℕ)
      → In c rows
      → In d rows
      → c.nullifier ≡ some n
      → d.nullifier ≡ some n
      → c.world_action_id ≡ d.world_action_id
      → c ≡ d

count_zero :
    (p : Challenge → Bool) (rows : List Challenge) (c : Challenge)
    → ltb 0 (count_if p rows) ≡ false
    → In c rows
    → p c ≡ false
count_zero p [] c h m = absurd m
count_zero p (x ∷ rows) c h (inl e) = rw e (ground arith)
count_zero p (x ∷ rows) c h (inr m) = count_zero p rows c (ground arith) m

module _ (id : String) (n : ℕ) (rp_id : String) (now : ℕ) where
  -- What the write makes of each row.
  abbrev pub written : Challenge → Challenge
  written = patch (λ c. str_eq c.id id) (redeemed n rp_id now)

  pub written-id : (c : Challenge) → (written c).id ≡ c.id
  written-id c = elim (Bool-cases (str_eq c.id id)) [ inl h ↦ rw h refl | inr h ↦ rw h refl ]

  pub written-action : (c : Challenge) → (written c).world_action_id ≡ c.world_action_id
  written-action c = elim (Bool-cases (str_eq c.id id)) [ inl h ↦ rw h refl | inr h ↦ rw h refl ]

  counted :
      (d : Challenge) (action : String)
      → d.nullifier ≡ some n
      → d.world_action_id ≡ action
      → str_eq d.id id ≡ false
      → (is_use_of n action d && not (str_eq d.id id)) ≡ true
  counted d action e a miss = rw (e, miss) (ground (arith, eq_iff d.world_action_id action))

  -- The write puts no nullifier next to one of another challenge.
  no_clash :
      (rows : List Challenge) (row c d : Challenge) (m : ℕ)
      → IsWellFormed rows
      → In row rows
      → row.id ≡ id
      → ltb 0 (count_if (λ k. is_use_of n row.world_action_id k && not (str_eq k.id id)) rows)
        ≡ false
      → In c rows
      → In d rows
      → str_eq c.id id ≡ true
      → str_eq d.id id ≡ false
      → (written c).nullifier ≡ some m
      → (written d).nullifier ≡ some m
      → c.world_action_id ≡ d.world_action_id
      → ⊥
  no_clash rows row c d m w there named none_other mc md hit miss nc nd same =
      let at_row : c ≡ row = w.key c row mc there ((eq_iff c.id id).0 hit ∙ sym named) in
      let action : d.world_action_id ≡ row.world_action_id =
        sym same ∙ ap (λ (k : Challenge). k.world_action_id) at_row in
      let unused =
        count_zero (λ k. is_use_of n row.world_action_id k && not (str_eq k.id id)) rows d
          none_other md in
      let mine : some n ≡ some m = rw hit at nc in
      let value : n ≡ m = cc in
      let other : d.nullifier ≡ some n = rw (value) (rw miss at nd) in
      cc (sym unused ∙ counted d row.world_action_id other action miss)

  module _ (rows : List Challenge) (row : Challenge) (w : IsWellFormed rows) (there : In row rows)
      (named : row.id ≡ id)
      (none_other : ltb 0
          (count_if (λ k. is_use_of n row.world_action_id k && not (str_eq k.id id)) rows)
        ≡ false) where
    written-single_use :
        (c d : Challenge) (m : ℕ)
        → In c rows
        → In d rows
        → (written c).nullifier ≡ some m
        → (written d).nullifier ≡ some m
        → c.world_action_id ≡ d.world_action_id
        → c ≡ d
    written-single_use c d m mc md nc nd same = elim (Bool-cases (str_eq c.id id)) [
      | inl hit ↦ elim (Bool-cases (str_eq d.id id)) [
        | inl both ↦ w.key c d mc md ((eq_iff c.id id).0 hit ∙ sym ((eq_iff d.id id).0 both))
        | inr miss ↦
            absurd (no_clash rows row c d m w there named none_other mc md hit miss nc nd same)
      ]
      | inr miss ↦ elim (Bool-cases (str_eq d.id id)) [
        | inl hit ↦
            absurd
              (no_clash rows row d c m w there named none_other md mc hit miss nd nc (sym same))
        | inr neither ↦ w.single_use c d m mc md (rw miss at nc) (rw neither at nd) same
      ]
    ]

    pub written-IsWellFormed : IsWellFormed (map written rows)
    written-IsWellFormed = record {
      key = λ c' d' mc' md' same.
          let (c, mc, ec) = In-map_inv written rows c' mc' in
          let (d, md, ed) = In-map_inv written rows d' md' in
          let ids : (written c).id ≡ (written d).id =
            sym (ap (λ (k : Challenge). k.id) ec) ∙ (same ∙ ap (λ (k : Challenge). k.id) ed) in
          ec ∙ (ap written (w.key c d mc md (sym (written-id c) ∙ (ids ∙ written-id d))) ∙ sym ed);
      single_use = λ c' d' m mc' md' nc nd same.
          let (c, mc, ec) = In-map_inv written rows c' mc' in
          let (d, md, ed) = In-map_inv written rows d' md' in
          let actions : (written c).world_action_id ≡ (written d).world_action_id =
            sym (ap (λ (k : Challenge). k.world_action_id) ec)
            ∙ (same ∙ ap (λ (k : Challenge). k.world_action_id) ed) in
          ec
          ∙ (ap written (
                written-single_use c d m mc md (sym (ap (λ (k : Challenge). k.nullifier) ec) ∙ nc)
                  (sym (ap (λ (k : Challenge). k.nullifier) ed) ∙ nd)
                  (sym (written-action c) ∙ (actions ∙ written-action d)))
              ∙ sym ed);
    }

  -- Two challenges of one action cannot both hold the nullifier after the write.
  pub clash :
      (rows : List Challenge) (row used : Challenge)
      → IsWellFormed (map written rows)
      → In row rows
      → row.id ≡ id
      → In used rows
      → used.id ≢ id
      → used.world_action_id ≡ row.world_action_id
      → used.nullifier ≡ some n
      → ⊥
  clash rows row used w m named mu other action held =
      let hit : str_eq row.id id ≡ true = (eq_iff row.id id).1 named in
      let miss : str_eq used.id id ≡ false = ground (arith, eq_iff used.id id) in
      let one : written row ≡ written used =
        w.single_use (written row) (written used) n (In-map written rows row m)
          (In-map written rows used mu) (rw hit refl) (rw miss held)
          (written-action row ∙ (sym action ∙ sym (written-action used))) in
      other (
        sym (written-id used) ∙ (sym (ap (λ (k : Challenge). k.id) one) ∙ (written-id row ∙ named)))
