-- ===== src/Policy/Challenges/Laws.antt =====
-- The challenge that a claim is given (`issueOrReuseChallenge` of
-- backend/src/policy/policy-engine.ts).
use mathlib.Core.List.{head?}
use xander.Prelude.{
  ℕ, ◌≡◌, ◌⊎◌, refl, sym, ◌∙◌, ap, String, Bool, true, false, Option, none, some, List, [], ◌∷◌,
  arith, eq_iff, str_eq, In, In-map_inv, Bool-cases, inl, inr,
}
use xander.Prelude.Table.{Table, patch}
use xander.World.Replay.{Challenge}
use xander.Policy.Challenges.{
  Clocks, ChallengeParams, is_timed_out, validity_since, is_still_passed, is_open, expire,
  issued_row, resolution, issue, reuse_open, reuse_passed, issue_or_reuse_challenge,
}

-- At most one challenge of the claim is open.
abbrev pub IsSingle : String → List Challenge → Type 0
IsSingle claim_id rows =
    (c d : Challenge)
    → In c rows
    → In d rows
    → is_open claim_id c ≡ true
    → is_open claim_id d ≡ true
    → c ≡ d

-- A challenge that lets the claim go on: passed recently, or open and not timed out.
abbrev pub IsLiveFor : Clocks → String → ℕ → Challenge → Type 0
IsLiveFor clocks claim_id now c =
    (is_still_passed claim_id (validity_since clocks now) c ≡ true)
    ⊎ ((is_open claim_id c ≡ true) × (is_timed_out clocks now c.created_at ≡ false))

-- What the function promises of its result.
pub record IsSettled (D : Table Challenge) (clocks : Clocks) (claim_id : String) (now : ℕ)
    (r : (String × Bool) × D.Db) : Type 0 where
  pub named : Challenge
  pub stored : In named (D.rows r.1)
  pub id : named.id ≡ r.0.0
  pub live : IsLiveFor clocks claim_id now named
  pub single : IsSingle claim_id (D.rows r.1)

pub head-In : (c : Challenge) (cs : List Challenge) → head? cs ≡ some c → In c cs
head-In c [] h = absurd (cc)
head-In c (x ∷ cs) h = inl (cc)

head-none : (c : Challenge) (cs : List Challenge) → head? cs ≡ none → In c cs → ⊥
head-none c [] h m = m
head-none c (x ∷ cs) h m = cc

module _ (D : Table Challenge) (clocks : Clocks) (params : ChallengeParams) (id : String)
    (now : ℕ) where
  -- Issuing where no challenge is open.
  issue-IsSettled :
      (db : D.Db)
      → ((c : Challenge) → In c (D.rows db) → is_open params.claim_id c ≡ false)
      → IsSettled D clocks params.claim_id now (issue D params id now db)
  unfolding issue
  issue-IsSettled db closed = record {
    named = issued_row params id now;
    stored = rw (D.create-rows (issued_row params id now) db) (inl refl);
    id = refl;
    live = inr (ground (arith, eq_iff params.claim_id params.claim_id), ground arith);
    single = rw (D.create-rows (issued_row params id now) db) (only (D.rows db) closed);
  }
    where
      only :
          (rows : List Challenge)
          → ((c : Challenge) → In c rows → is_open params.claim_id c ≡ false)
          → IsSingle params.claim_id (issued_row params id now ∷ rows)
      only rows shut c d (inl a) (inl b) oc od = a ∙ sym b
      only rows shut c d (inr m) k oc od = absurd (cc (sym oc ∙ shut c m))
      only rows shut c d (inl a) (inr m) oc od = absurd (cc (sym od ∙ shut d m))

  -- After the one open challenge expired, none is open.
  expired-closed :
      (db : D.Db) (o : Challenge)
      → IsSingle params.claim_id (D.rows db)
      → In o (D.rows db)
      → is_open params.claim_id o ≡ true
      → (c : Challenge) → In c (D.rows (D.update_many (λ k. str_eq k.id o.id) (expire now) db).1)
      → is_open params.claim_id c ≡ false
  expired-closed db o single mo oo c m =
      let (k, there, same) =
        In-map_inv (patch (λ r. str_eq r.id o.id) (expire now)) (D.rows db) c
          (rw (D.update_many-rows (λ r. str_eq r.id o.id) (expire now) db) at m) in
      rw same (closed k there)
    where
      closed :
          (k : Challenge)
          → In k (D.rows db)
          → is_open params.claim_id (patch (λ r. str_eq r.id o.id) (expire now) k) ≡ false
      closed k there = elim (Bool-cases (str_eq k.id o.id)) [
        | inl hit ↦ rw hit (ground arith)
        | inr miss ↦ elim (Bool-cases (is_open params.claim_id k)) [
          | inr shut ↦ rw miss shut
          | inl opened ↦
              let one : k ≡ o = single k o there mo opened oo in
              let named : str_eq k.id o.id ≡ true =
                (eq_iff k.id o.id).1 (ap (λ (r : Challenge). r.id) one) in
              absurd (cc (sym miss ∙ named))
        ]
      ]

  open-IsSettled :
      (db : D.Db) (found : Option Challenge)
      → IsSingle params.claim_id (D.rows db)
      → found ≡ head? (D.find_many (is_open params.claim_id) (λ c. c.created_at) db)
      → IsSettled D clocks params.claim_id now (reuse_open D clocks params id now db found)
  unfolding reuse_open
  open-IsSettled db none single e = issue-IsSettled db (λ c m.
      elim (Bool-cases (is_open params.claim_id c)) [
        | inr shut ↦ shut
        | inl opened ↦ absurd (
            head-none c _ (sym e)
              ((D.find_many-In (is_open params.claim_id) (λ k. k.created_at) db c).1 (m, opened)))
      ])
  open-IsSettled db (some o) single e =
      let (there, opened) =
        (D.find_many-In (is_open params.claim_id) (λ c. c.created_at) db o).0
          (head-In o _ (sym e)) in
      elim (Bool-cases (is_timed_out clocks now o.created_at)) [
        | inl late ↦ rw late (
            issue-IsSettled (D.update_many (λ c. str_eq c.id o.id) (expire now) db).1
              (expired-closed db o single there opened))
        | inr alive ↦ rw alive (record {
          named = o;
          stored = there;
          id = refl;
          live = inr (opened, alive);
          single = single;
        })
      ]

  passed-IsSettled :
      (db : D.Db) (found : Option Challenge)
      → IsSingle params.claim_id (D.rows db)
      → found
        ≡ head? (
            D.find_many (is_still_passed params.claim_id (validity_since clocks now)) resolution db)
      → IsSettled D clocks params.claim_id now (reuse_passed D clocks params id now db found)
  unfolding reuse_passed
  passed-IsSettled db none single e = open-IsSettled db _ single refl
  passed-IsSettled db (some p) single e =
      let (there, ok) =
        (D.find_many-In (is_still_passed params.claim_id (validity_since clocks now)) resolution db
            p).0
          (head-In p _ (sym e)) in
      record { named = p; stored = there; id = refl; live = inl ok; single = single }

-- Where at most one challenge of the claim is open, the function returns the id of a stored
-- challenge of the claim that passed within the validity or is open and not timed out, and
-- afterwards at most one challenge of the claim is open.
pub issue_or_reuse_challenge-IsSettled :
    (D : Table Challenge) (clocks : Clocks) (params : ChallengeParams) (id : String) (now : ℕ)
    (db : D.Db)
    → IsSingle params.claim_id (D.rows db)
    → IsSettled D clocks params.claim_id now (issue_or_reuse_challenge D clocks params id now db)
unfolding issue_or_reuse_challenge
issue_or_reuse_challenge-IsSettled D clocks params id now db single =
    passed-IsSettled D clocks params id now db _ single refl
