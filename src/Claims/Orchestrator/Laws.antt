-- ===== src/Claims/Orchestrator/Laws.antt =====
-- What was decided about a claim stands (backend/src/claim/orchestrator.ts).
use xander.Prelude.{
  ◌≡◌, ◌↔◌, refl, sym, ◌∙◌, ap, subst, String, Bool, true, false, Option, some, eq_iff, str_eq, In,
  In-map, In-map_inv, All-In, Bool-cases, Option-cases, inl, inr, if◌then◌else◌,
}
use xander.Prelude.Table.{Table, patch}
use xander.Prelude.Effects.{Outcome, returns, throws, proceed-returns, returns-inj}
use xander.Policy.Engine.{Decision, PolicyDecision}
use xander.Policy.Challenges.{is_issued, is_passed}
use xander.World.Replay.{Challenge}
use xander.Claims.Orchestrator.{
  ClaimWorld, newest_challenge, receipt_of_claim, replay_claim, challenge_claim, challenge_if_due,
  write_evidence_receipt, decide_claim, settle_claim, close_claim, finalize_claim,
  reissue_challenge,
}
use xander.Claims.Rows.{
  Claim, ScreenClaimResult, ClaimError, ClaimSetting, ClaimTables, is_sticky, is_challenge,
  is_final, screened, finalized,
}

-- A row that an update of its own key changed is found by the key again, as one that was changed.
updated-found :
    {Row : Type 0} (T : Table Row) (p : Row → Bool) (f : Row → Row) (db : T.Db) (r : Row)
    → ((x : Row) → p x ≡ true → p (f x) ≡ true)
    → T.find_unique p db ≡ some r
    → (x : Row) × (y : Row) × (T.find_unique p (T.update_many p f db).1 ≡ some x) × (x ≡ f y)
updated-found T p f db r keeps found =
    let (there, hit) = T.find_unique-some p db r found in
    let rows = T.update_many-rows p f db in
    elim (Option-cases (T.find_unique p (T.update_many p f db).1)) [
      | inl missing ↦
          let mapped : In (patch p f r) (T.rows (T.update_many p f db).1) =
            rw rows (In-map (patch p f) (T.rows db) r there) in
          let no : p (patch p f r) ≡ false =
            All-In (λ x. p x ≡ false) (T.rows (T.update_many p f db).1) (patch p f r)
              (T.find_unique-none p (T.update_many p f db).1 missing) mapped in
          let yes : p (patch p f r) ≡ true = rw hit (keeps r hit) in absurd (cc (sym no ∙ yes))
      | inr (x, new) ↦
          let (stored, wanted) = T.find_unique-some p (T.update_many p f db).1 x new in
          let (y, old, e) = In-map_inv (patch p f) (T.rows db) x (rw rows at stored) in
          elim (Bool-cases (p y)) [
            | inl changed ↦ (x, y, new, e ∙ rw changed refl)
            | inr kept ↦
                let same : p (patch p f y) ≡ true = rw (sym e) wanted in
                absurd (cc (sym kept ∙ rw kept at same))
          ]
    ]

made_iff :
    (b : Bool) → ((if b then Decision.allow else Decision.block) ≡ Decision.allow) ↔ (b ≡ true)
made_iff true = (λ h. refl, λ h. refl)
made_iff false = (λ h. absurd (cc h), λ h. absurd (cc h))

made_final : (b : Bool) → is_final (if b then Decision.allow else Decision.block) ≡ true
made_final true = refl
made_final false = refl

final_sticky : (d : Decision) → is_final d ≡ true → (is_sticky d ≡ true) × (is_challenge d ≡ false)
final_sticky Decision.allow h = (refl, refl)
final_sticky Decision.block h = (refl, refl)
final_sticky _ h = absurd (cc h)

module _ (T : ClaimTables) where
  -- The claim on file has this decision.
  abbrev pub HasDecision : String → Decision → ClaimWorld T → Type 0
  HasDecision id d w =
      (c : Claim) × (T.claim.find_unique (λ x. str_eq x.id id) w.claims ≡ some c)
      × (c.risk_decision ≡ d)

  challenge_if_due-claims :
      (setting : ClaimSetting) (c : Claim) (d : PolicyDecision) (w : ClaimWorld T)
      → (challenge_if_due T setting c d w).1.claims ≡ w.claims
  unfolding challenge_if_due challenge_claim
  challenge_if_due-claims setting c d w = elim (Bool-cases (is_challenge d.decision)) [
    | inl due ↦ rw due refl
    | inr none_due ↦ rw none_due refl
  ]

  write_evidence_receipt-claims :
      (setting : ClaimSetting) (c : Claim) (d : PolicyDecision) (x : Option String)
      (w : ClaimWorld T)
      → (write_evidence_receipt T setting c d x w).1.claims ≡ w.claims
  unfolding write_evidence_receipt
  write_evidence_receipt-claims setting c d x w = elim (Option-cases (receipt_of_claim T c.id w)) [
    | inl missing ↦ rw missing refl
    | inr (r, found) ↦ rw found refl
  ]

  decide_claim-HasDecision :
      (setting : ClaimSetting) (c : Claim) (d : PolicyDecision) (w v : ClaimWorld T)
      → (r : ScreenClaimResult) → T.claim.find_unique (λ x. str_eq x.id c.id) w.claims ≡ some c
      → decide_claim T setting c d w ≡ (returns r, v)
      → HasDecision c.id d.decision v × (r.decision ≡ d.decision)
  unfolding decide_claim
  decide_claim-HasDecision setting c d w v r found h =
      let (x, w1, challenged, rest) = proceed-returns (challenge_if_due T setting c d w) _ r v h in
      let (receipt, w2, written, last) =
        proceed-returns (write_evidence_receipt T setting c d x w1) _ r v rest in
      let same1 : w1.claims ≡ w.claims =
        sym (ap (λ (p : Outcome ClaimError (Option String) × ClaimWorld T). p.1.claims) challenged)
        ∙ challenge_if_due-claims setting c d w in
      let same2 : w2.claims ≡ w1.claims =
        sym (ap (λ (p : Outcome ClaimError String × ClaimWorld T). p.1.claims) written)
        ∙ write_evidence_receipt-claims setting c d x w1 in
      let (result, after) = returns-inj _ r _ v last in
      let (y, z, new, e) =
        updated-found T.claim (λ a. str_eq a.id c.id) (screened setting.now d) w2.claims c
          (λ a hit. hit) (rw (same2, same1) found) in
      (
        (
          y,
          ap (λ (u : ClaimWorld T). T.claim.find_unique (λ a. str_eq a.id c.id) u.claims)
                (sym after)
              ∙ new,
          ap (λ (a : Claim). a.risk_decision) e,
        ),
        ap (λ (a : ScreenClaimResult). a.decision) (sym result),
      )

  settle_claim-HasDecision :
      (setting : ClaimSetting) (id : String) (d : PolicyDecision) (w v : ClaimWorld T)
      → (r : ScreenClaimResult) → settle_claim T setting id d w ≡ (returns r, v)
      → HasDecision id r.decision v
  unfolding settle_claim replay_claim
  settle_claim-HasDecision setting id d w v r h =
      elim (Option-cases (T.claim.find_unique (λ c. str_eq c.id id) w.claims)) [
        | inl missing ↦ absurd (cc (rw missing at h))
        | inr (c, found) ↦
            let (_, hit) = T.claim.find_unique-some _ w.claims c found in
            let named : c.id ≡ id = (eq_iff c.id id).0 hit in
            elim (Bool-cases (is_sticky c.risk_decision)) [
              | inl sticky ↦
                  let (result, after) = returns-inj _ r w v (rw (found, sticky) at h) in
                  (
                    c,
                    ap (λ (u : ClaimWorld T). T.claim.find_unique (λ x. str_eq x.id id) u.claims)
                          (sym after)
                        ∙ found,
                    ap (λ (a : ScreenClaimResult). a.decision) result,
                  )
              | inr undecided ↦
                  let (stored, same) =
                    decide_claim-HasDecision setting c d w v r
                      (subst (λ n. T.claim.find_unique (λ x. str_eq x.id n) w.claims ≡ some c)
                        (sym named) found)
                      (rw (found, undecided) at h) in
                  subst (λ n. HasDecision n r.decision v) named
                    (stored.0, stored.1, stored.2 ∙ sym same)
            ]
      ]

  settle_claim-stands :
      (setting : ClaimSetting) (id : String) (d : PolicyDecision) (w : ClaimWorld T) (k : Decision)
      → HasDecision id k w
      → is_sticky k ≡ true
      → (r : ScreenClaimResult) × (settle_claim T setting id d w ≡ (returns r, w))
        × (r.decision ≡ k)
  unfolding settle_claim replay_claim
  settle_claim-stands setting id d w k (c, found, same) sticky =
      let kept : is_sticky c.risk_decision ≡ true = rw same sticky in
      rw (found, kept) (_, refl, same)

  -- Of two screenings of one claim the first to decide it stands: once a screening has allowed,
  -- blocked or challenged the claim, another screening, whatever it made of the risk, gives the same
  -- decision and writes nothing.
  pub settle_claim_once :
      (first second : ClaimSetting) (id : String) (d e : PolicyDecision) (w v : ClaimWorld T)
      → (r : ScreenClaimResult) → settle_claim T first id d w ≡ (returns r, v)
      → is_sticky r.decision ≡ true
      → (q : ScreenClaimResult) × (settle_claim T second id e v ≡ (returns q, v))
        × (q.decision ≡ r.decision)
  settle_claim_once first second id d e w v r h sticky =
      settle_claim-stands second id e v r.decision (settle_claim-HasDecision first id d w v r h)
        sticky

  -- What `finalizeClaim` made of a challenged claim.
  pub record IsFinalized (id : String) (w v : ClaimWorld T) (d : Decision) : Type 0 where
    pub challenge : Challenge
    pub newest : newest_challenge T id w ≡ some challenge
    pub answered : is_issued challenge.status ≡ false
    pub allowed_iff : (d ≡ Decision.allow) ↔ (is_passed challenge.status ≡ true)
    pub final : is_final d ≡ true
    pub stored : HasDecision id d v
    pub challenges_kept : v.challenges ≡ w.challenges

  close_claim-IsFinalized :
      (setting : ClaimSetting) (c : Claim) (x : Challenge) (w v : ClaimWorld T) (d : Decision)
      → T.claim.find_unique (λ y. str_eq y.id c.id) w.claims ≡ some c
      → newest_challenge T c.id w ≡ some x
      → is_issued x.status ≡ false
      → close_claim T setting c x w ≡ (returns d, v)
      → IsFinalized c.id w v d
  unfolding close_claim
  close_claim-IsFinalized setting c x w v d found newest answered h =
      elim (Option-cases (receipt_of_claim T c.id w)) [
        | inl missing ↦ absurd (cc (rw missing at h))
        | inr (r, there) ↦
            let made : Decision = if is_passed x.status then Decision.allow else Decision.block in
            let (result, after) = returns-inj made d _ v (rw there at h) in
            let (y, z, new, e) =
              updated-found T.claim (λ a. str_eq a.id c.id) (finalized setting.now made) w.claims c
                (λ a hit. hit) found in
            record {
              challenge = x;
              newest = newest;
              answered = answered;
              allowed_iff = rw (sym result) (made_iff (is_passed x.status));
              final = rw (sym result) (made_final (is_passed x.status));
              stored = (
                y,
                ap (λ (u : ClaimWorld T). T.claim.find_unique (λ a. str_eq a.id c.id) u.claims)
                      (sym after)
                    ∙ new,
                ap (λ (a : Claim). a.risk_decision) e ∙ result,
              );
              challenges_kept = ap (λ (u : ClaimWorld T). u.challenges) (sym after);
            }
      ]

  -- A challenged claim is finalized only once its newest challenge is answered; it is allowed exactly
  -- if that challenge passed, and blocked otherwise; the decision is on file, and no challenge
  -- changes.
  pub finalize_claim_sound :
      (setting : ClaimSetting) (id : String) (w v : ClaimWorld T) (c : Claim) (d : Decision)
      → T.claim.find_unique (λ y. str_eq y.id id) w.claims ≡ some c
      → c.risk_decision ≡ Decision.challenge
      → finalize_claim T setting id w ≡ (returns d, v)
      → IsFinalized id w v d
  unfolding finalize_claim
  finalize_claim_sound setting id w v c d found challenged h =
      let (_, hit) = T.claim.find_unique-some _ w.claims c found in
      let named : c.id ≡ id = (eq_iff c.id id).0 hit in
      let due : is_challenge c.risk_decision ≡ true = rw challenged refl in
      elim (Option-cases (newest_challenge T c.id w)) [
        | inl missing ↦ absurd (cc (rw (found, due, missing) at h))
        | inr (x, newest) ↦ elim (Bool-cases (is_issued x.status)) [
          | inl waits ↦ absurd (cc (rw (found, due, newest, waits) at h))
          | inr answered ↦
              subst (λ n. IsFinalized n w v d) named
                (close_claim-IsFinalized setting c x w v d
                  (subst (λ n. T.claim.find_unique (λ y. str_eq y.id n) w.claims ≡ some c)
                    (sym named) found)
                  newest answered (rw (found, due, newest, answered) at h))
        ]
      ]

  -- A decision to allow or to block is the last one: finalizing the claim again gives it back,
  -- screening it again, whatever the risk is now, gives it back, a new challenge is refused, and none of them writes anything.
  pub final_stands :
      (setting : ClaimSetting) (id : String) (e : PolicyDecision) (w : ClaimWorld T) (d : Decision)
      → HasDecision id d w
      → is_final d ≡ true
      → (finalize_claim T setting id w ≡ (returns d, w))
        × ((r : ScreenClaimResult) × (settle_claim T setting id e w ≡ (returns r, w))
            × (r.decision ≡ d))
        × (reissue_challenge T setting id w ≡ (throws ClaimError.not_challenged, w))
  unfolding finalize_claim reissue_challenge
  final_stands setting id e w d (c, found, same) final =
      let (sticky, settled) = final_sticky d final in
      let closed : is_challenge c.risk_decision ≡ false = rw same settled in
      (
        rw (found, closed, same) refl,
        settle_claim-stands setting id e w d (c, found, same) sticky,
        rw (found, closed) refl,
      )
