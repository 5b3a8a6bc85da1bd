-- ===== src/Control/Sessions/Laws.antt =====
-- Which sessions authenticate (backend/src/control/control-service.ts).
use xander.Prelude.{
  ℕ, ◌≡◌, ◌≢◌, ◌<◌, refl, sym, ◌∙◌, ap, String, Bool, true, false, ◌&&◌, Option, none, some, List,
  [], ◌∷◌, eq_iff, str_eq, In, In-map_inv, map, Bool-cases, Option-cases, inl, inr, arith, leb,
}
use xander.Prelude.Table.{patch}
use xander.Prelude.Effects.{Outcome, returns}
use xander.Control.Auth.{check_session}
use xander.Control.Rows.{AuthenticatedOperator}
use xander.Control.Sessions.{
  Operator, OperatorSession, SessionError, SessionTables, SessionWorld, session_of, is_valid,
  with_session_status, used_at, operator_of, refuse_authentication, admit, authenticate,
  close_session,
}

-- What a session has that holds.
pub record IsLiveSession (token_hash device : String) (now : ℕ) (s : OperatorSession) : Type 0 where
  pub token : s.token_hash ≡ token_hash
  pub active : s.status ≡ "ACTIVE"
  pub in_time : now < s.expires_at
  pub same_device : s.device_id ≡ device

valid-IsLiveSession :
    (token_hash device : String) (now : ℕ) (s : OperatorSession)
    → s.token_hash ≡ token_hash
    → is_valid (check_session (some (session_of s)) device now) ≡ true
    → IsLiveSession token_hash device now s
unfolding check_session
valid-IsLiveSession token_hash device now s token h = elim (Bool-cases (str_eq s.status "ACTIVE")) [
  | inr other ↦ absurd (cc (rw other at h))
  | inl active ↦ elim (Bool-cases (leb s.expires_at now)) [
    | inl over ↦ absurd (cc (rw (active, over) at h))
    | inr early ↦ elim (Bool-cases (str_eq s.device_id device)) [
      | inr elsewhere ↦ absurd (cc (rw (active, early, elsewhere) at h))
      | inl there ↦ record {
        token = token;
        active = (eq_iff s.status "ACTIVE").0 active;
        in_time = ground arith;
        same_device = (eq_iff s.device_id device).0 there;
      }
    ]
  ]
]

live-valid :
    (token_hash device : String) (now : ℕ) (s : OperatorSession)
    → IsLiveSession token_hash device now s
    → (is_valid (check_session (some (session_of s)) device now) ≡ true)
      × (leb s.expires_at now ≡ false)
unfolding check_session
live-valid token_hash device now s live =
    let active = (eq_iff s.status "ACTIVE").1 live.active in
    let early : leb s.expires_at now ≡ false = (let t = live.in_time in ground arith) in
    let there = (eq_iff s.device_id device).1 live.same_device in
    (rw (active, early, there) refl, early)

abbrev is_closing : String → OperatorSession → Bool
is_closing id s = str_eq s.id id && str_eq s.status "ACTIVE"

-- No row with the id is active once it was closed.
closed :
    (id : String) (r : OperatorSession)
    → (patch (is_closing id) (with_session_status "REVOKED") r).status ≡ "ACTIVE"
    → (patch (is_closing id) (with_session_status "REVOKED") r).id ≢ id
closed id r active same = elim (Bool-cases (is_closing id r)) [
  | inl hit ↦
      let revoked : ◌≡◌ {A = String} "REVOKED" "ACTIVE" = rw hit at active in
      absurd (ground (arith, eq_iff "REVOKED" "ACTIVE"))
  | inr miss ↦
      let active' : r.status ≡ "ACTIVE" = rw miss at active in
      let same' : r.id ≡ id = rw miss at same in
      ground (arith, eq_iff r.id id, eq_iff r.status "ACTIVE")
]

module _ (T : SessionTables) (sha256 : String → String) where
  refuse-throws :
      (operator session : Option String) (device : String) (w v : SessionWorld T)
      → (op : AuthenticatedOperator)
      → refuse_authentication T operator session device w ≢ (returns op, v)
  unfolding refuse_authentication
  refuse-throws operator session device w v op h = absurd (cc h)

  admit-names :
      (device : String) (now : ℕ) (s : OperatorSession) (w v : SessionWorld T)
      → (op : AuthenticatedOperator) → admit T device now s w ≡ (returns op, v)
      → (op.session_id ≡ s.id) × (op.operator_id ≡ s.operator_id)
  unfolding admit
  admit-names device now s w v op h = elim (Bool-cases (leb s.expires_at now)) [
    | inl over ↦ absurd (cc (rw over at h))
    | inr early ↦
        elim (Option-cases (T.operator.find_unique (λ o. str_eq o.id s.operator_id) w.operators)) [
          | inl missing ↦ absurd (cc (rw (early, missing) at h))
          | inr (o, found) ↦
              let e : ◌≡◌ {A = Outcome SessionError AuthenticatedOperator}
                  (returns (operator_of s o)) (returns op) =
                ap (λ p. p.0) (rw (early, found) at h) in
              let same : operator_of s o ≡ op = cc e in
              (
                ap (λ (x : AuthenticatedOperator). x.session_id) (sym same),
                ap (λ (x : AuthenticatedOperator). x.operator_id) (sym same),
              )
        ]
  ]

  -- Whoever is authenticated has a session on file whose token hashes to the same text, that is
  -- active and not over, and that was opened on the same device.
  pub authenticate_sound :
      (token device : String) (now : ℕ) (w v : SessionWorld T) (op : AuthenticatedOperator)
      → authenticate T sha256 token device now w ≡ (returns op, v)
      → (s : OperatorSession) × In s (T.session.rows w.sessions)
        × IsLiveSession (sha256 token) device now s
        × (op.session_id ≡ s.id)
        × (op.operator_id ≡ s.operator_id)
  unfolding authenticate
  authenticate_sound token device now w v op h =
      elim (Option-cases
        (T.session.find_unique (λ s. str_eq s.token_hash (sha256 token)) w.sessions)) [
          | inl missing ↦ absurd (refuse-throws none none device w v op (rw missing at h))
          | inr (s, found) ↦
              let (there, same) = T.session.find_unique-some _ w.sessions s found in
              elim (Bool-cases (is_valid (check_session (some (session_of s)) device now))) [
                | inr invalid ↦ absurd (
                    refuse-throws (some s.operator_id) (some s.id) device w v op
                      (rw (found, invalid) at h))
                | inl valid ↦ (
                  s,
                  there,
                  valid-IsLiveSession (sha256 token) device now s
                      ((eq_iff s.token_hash (sha256 token)).0 same) valid,
                  (admit-names device now s w v op (rw (found, valid) at h)).0,
                  (admit-names device now s w v op (rw (found, valid) at h)).1,
                )
              ]
        ]

  -- A live session authenticates its operator from its device, whatever the status of the operator:
  -- a suspended operator goes on until the session is over or closed.
  pub authenticate_complete :
      (token device : String) (now : ℕ) (w : SessionWorld T) (s : OperatorSession) (o : Operator)
      → T.session.find_unique (λ x. str_eq x.token_hash (sha256 token)) w.sessions ≡ some s
      → T.operator.find_unique (λ x. str_eq x.id s.operator_id) w.operators ≡ some o
      → IsLiveSession (sha256 token) device now s
      → (authenticate T sha256 token device now w).0 ≡ returns (operator_of s o)
  unfolding authenticate admit
  authenticate_complete token device now w s o found known live =
      let (valid, early) = live-valid (sha256 token) device now s live in
      rw (found, valid, early, known) refl

  -- A session that was closed never authenticates again.
  pub close_session-authenticate :
      (id token device : String) (now : ℕ) (w v : SessionWorld T) (op : AuthenticatedOperator)
      → authenticate T sha256 token device now (close_session T id w) ≡ (returns op, v)
      → op.session_id ≢ id
  unfolding close_session
  close_session-authenticate id token device now w v op h same =
      let (s, there, live, names, _) =
        authenticate_sound token device now (close_session T id w) v op h in
      let (r, old, e) = In-map_inv (patch (is_closing id) (with_session_status "REVOKED")) _ s (
        rw (T.session.update_many-rows (is_closing id) (with_session_status "REVOKED") w.sessions)
          at there) in
      closed id r (ap (λ (x : OperatorSession). x.status) (sym e) ∙ live.active)
        (ap (λ (x : OperatorSession). x.id) (sym e) ∙ (sym names ∙ same))

statuses_kept :
    (p : OperatorSession → Bool) (now : ℕ) (rows : List OperatorSession)
    → map (λ s. s.status) (map (patch p (used_at now)) rows) ≡ map (λ s. s.status) rows
statuses_kept p now [] = refl
statuses_kept p now (s ∷ rows) =
    let head : (patch p (used_at now) s).status ≡ s.status = elim (Bool-cases (p s)) [
      | inl hit ↦ rw hit refl
      | inr miss ↦ rw miss refl
    ] in
    rw (head, statuses_kept p now rows) refl

module _ (T : SessionTables) (sha256 : String → String) where
  abbrev pub statuses : SessionWorld T → List String
  statuses w = map (λ s. s.status) (T.session.rows w.sessions)

  admit-statuses :
      (device : String) (now : ℕ) (s : OperatorSession) (w : SessionWorld T)
      → leb s.expires_at now ≡ false
      → statuses (admit T device now s w).1 ≡ statuses w
  unfolding admit
  admit-statuses device now s w early =
      let kept : map (λ x. x.status)
            (T.session.rows
              (T.session.update_many (λ x. str_eq x.id s.id) (used_at now) w.sessions).1)
          ≡ statuses w =
        rw (T.session.update_many-rows (λ x. str_eq x.id s.id) (used_at now) w.sessions)
          (statuses_kept (λ x. str_eq x.id s.id) now (T.session.rows w.sessions)) in
      elim (Option-cases (T.operator.find_unique (λ o. str_eq o.id s.operator_id) w.operators)) [
        | inl missing ↦ rw (early, missing) kept
        | inr (o, found) ↦ rw (early, found) kept
      ]

  -- Authentication leaves the status of every session as it was, on every path: the session of a
  -- request that is refused because it is over stays active on file.
  pub authenticate-statuses :
      (token device : String) (now : ℕ) (w : SessionWorld T)
      → statuses (authenticate T sha256 token device now w).1 ≡ statuses w
  unfolding authenticate refuse_authentication
  authenticate-statuses token device now w =
      elim (Option-cases
        (T.session.find_unique (λ s. str_eq s.token_hash (sha256 token)) w.sessions)) [
          | inl missing ↦ rw missing refl
          | inr (s, found) ↦
              elim (Bool-cases (is_valid (check_session (some (session_of s)) device now))) [
                | inr invalid ↦ rw (found, invalid) refl
                | inl valid ↦
                    let (_, same) = T.session.find_unique-some _ w.sessions s found in
                    let live =
                      valid-IsLiveSession (sha256 token) device now s
                        ((eq_iff s.token_hash (sha256 token)).0 same) valid in
                    rw (found, valid)
                      (admit-statuses device now s w
                        (live-valid (sha256 token) device now s live).1)
              ]
        ]
