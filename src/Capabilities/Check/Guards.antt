-- ===== src/Capabilities/Check/Guards.antt =====
-- The guards of `checkCapability`, one by one: when each lets a capability through.
use xander.Prelude.{
  ℕ, ◌-◌, ◌*◌, ◌<◌, String, ◌≡◌, refl, ◌≢◌, ◌↔◌, ◌⊎◌, inl, inr, true, ◌&&◌, Option, none, some,
  List, [], ◌∷◌, arith, leb, ltb_iff, In, count_if, any, str_eq, eq_iff, Bool-cases, subst,
}
use mathlib.Core.Path.{subst₂}
use xander.Prelude.Text.{to_lower_case}
use xander.Capabilities.Types.{
  CapabilityStatus, AssuranceLease, target_allowed, is_active, is_capability_live, is_lease_live,
}
use xander.Capabilities.Amounts.{Clears, within_amount_limit_iff}
use xander.Capabilities.Store.{
  Capability, Database, State, CheckArgs, lease_of, used_in_window, assurance_holds,
  frequency_holds, refusal,
}

-- Active, and not past an expiry that it has.
pub record IsLive (status : CapabilityStatus) (expires_at : Option ℕ) (now : ℕ) : Type 0 where
  pub active : status ≡ CapabilityStatus.active
  pub unexpired : (t : ℕ) → expires_at ≡ some t → now < t

abbrev pub Targets : Option String → List String → Type 0
Targets target allowed =
    (allowed ≡ []) ⊎ ((t : String) × (target ≡ some t) × In (to_lower_case t) allowed)

pub is_active_iff : (s : CapabilityStatus) → (is_active s ≡ true) ↔ (s ≡ CapabilityStatus.active)
is_active_iff s = ground arith

pub is_capability_live_iff :
    (status : CapabilityStatus) (expires_at : Option ℕ) (now : ℕ)
    → (is_capability_live status expires_at now ≡ true) ↔ IsLive status expires_at now
unfolding is_capability_live
is_capability_live_iff status none now =
    ((λ h. record { active = ground arith; unexpired = λ t e. cc }), (λ l. rw l.active))
is_capability_live_iff status (some t) now = (
  (λ h. record { active = ground arith; unexpired = λ u e. ground arith }),
  (λ l. rw l.active ((ltb_iff now t).1 (l.unexpired t refl))),
)

any_iff : (t : String) (xs : List String) → (any (str_eq t) xs ≡ true) ↔ In t xs
any_iff t [] = ground arith
any_iff t (x ∷ xs) = ground (arith, eq_iff t x, any_iff t xs)

pub target_allowed_iff :
    (target : Option String) (allowed : List String)
    → (target_allowed target allowed ≡ true) ↔ Targets target allowed
unfolding target_allowed
target_allowed_iff target [] = ((λ h. inl refl), (λ h. refl))
target_allowed_iff none (a ∷ allowed) = ground arith
target_allowed_iff (some t) (a ∷ allowed) = (
  (λ h. inr (t, refl, (any_iff (to_lower_case t) (a ∷ allowed)).0 h)),
  elim [ inl e ↦ absurd (cc) | inr (u, e, m) ↦ listed u e m ],
)
  where
    listed :
        (u : String)
        → some t ≡ some u
        → In (to_lower_case u) (a ∷ allowed)
        → any (str_eq (to_lower_case t)) (a ∷ allowed) ≡ true
    listed u e m =
        let same : u ≡ t = cc in
        (any_iff (to_lower_case t) (a ∷ allowed)).1
          (subst (λ v. In (to_lower_case v) (a ∷ allowed)) same m)

module _ (D : Database) (s : State D) (now : ℕ) where
  -- The lease that a capability names is on file, active and unexpired.
  abbrev pub IsAssured : Option String → Type 0
  IsAssured lease_id =
      (l : String)
      → lease_id ≡ some l
      → l ≢ ""
      → (lease : AssuranceLease) × (lease_of D s l ≡ some lease)
        × IsLive lease.status (some lease.expires_at) now

  -- The uses of a capability that are on file, from so many seconds ago.
  abbrev pub recent : String → ℕ → ℕ
  recent id w =
      count_if (λ u. str_eq u.capability_id id && leb (now - w * 1000) u.created_at)
        (D.usage.rows s.usages)

  -- The uses recorded in the window that ends now are fewer than the limit.
  abbrev pub IsWithinRate : String → Option ℕ → Option ℕ → Type 0
  IsWithinRate id limit window = (n w : ℕ) → limit ≡ some n → window ≡ some w → recent id w < n

  lease_live :
      (lease : Option AssuranceLease) (l : AssuranceLease)
      → lease ≡ some l
      → IsLive l.status (some l.expires_at) now
      → is_lease_live lease now ≡ true
  unfolding is_lease_live
  lease_live lease l e live =
      rw (e, live.active) ((ltb_iff now l.expires_at).1 (live.unexpired l.expires_at refl))

  IsLive-lease :
      (lease : Option AssuranceLease)
      → is_lease_live lease now ≡ true
      → (l : AssuranceLease) × (lease ≡ some l) × IsLive l.status (some l.expires_at) now
  unfolding is_lease_live
  IsLive-lease none h = absurd (cc)
  IsLive-lease (some l) h =
      (l, refl, record { active = ground arith; unexpired = λ u e. ground arith })

  assurance_sound :
      (lease_id : Option String) → assurance_holds D s now lease_id ≡ true → IsAssured lease_id
  unfolding assurance_holds
  assurance_sound none h l e ne = absurd (cc)
  assurance_sound (some id) h l e ne =
      let same : id ≡ l = cc in
      subst
        (λ v.
          (lease : AssuranceLease) × (lease_of D s v ≡ some lease)
          × IsLive lease.status (some lease.expires_at) now)
        same (IsLive-lease (lease_of D s id) (ground (arith, eq_iff id "")))

  assurance_complete :
      (lease_id : Option String) → IsAssured lease_id → assurance_holds D s now lease_id ≡ true
  unfolding assurance_holds
  assurance_complete none h = refl
  assurance_complete (some id) h = elim (Bool-cases (str_eq id "")) [
    | inl blank ↦ rw blank
    | inr named ↦ rw named (
        let (l, found, live) = h id refl (λ e. ground (arith, eq_iff id "")) in
        lease_live (lease_of D s id) l found live)
  ]

  rate_sound :
      (id : String) (limit window : Option ℕ)
      → frequency_holds D s now id limit window ≡ true
      → IsWithinRate id limit window
  unfolding frequency_holds used_in_window
  rate_sound id none window h n w e f = absurd (cc)
  rate_sound id (some m) none h n w e f = absurd (cc)
  rate_sound id (some m) (some v) h n w e f =
      let same_limit : m ≡ n = cc in
      let same_window : v ≡ w = cc in
      subst₂ (λ a b. recent id b < a) same_limit same_window
        (ground (
          arith,
          D.usage.count-rows (λ u. str_eq u.capability_id id && leb (now - v * 1000) u.created_at)
              s.usages,
        ))

  rate_complete :
      (id : String) (limit window : Option ℕ)
      → IsWithinRate id limit window
      → frequency_holds D s now id limit window ≡ true
  unfolding frequency_holds used_in_window
  rate_complete id none none h = refl
  rate_complete id none (some v) h = refl
  rate_complete id (some m) none h = refl
  rate_complete id (some m) (some v) h = rw D.usage.count-rows (ground (arith, h m v refl refl))

  -- Every bound that a capability carries lets the request through.
  pub record Bounds (args : CheckArgs) (c : Capability) : Type 0 where
    pub live : IsLive c.status c.expires_at now
    pub assured : IsAssured c.assurance_lease_id
    pub amount : Clears args.amount c.amount_limit
    pub target : Targets args.target_address c.allowed_targets
    pub rate : IsWithinRate c.id c.frequency_limit c.frequency_window_seconds

  pub refusal-Bounds :
      (args : CheckArgs) (c : Capability) → refusal D s args now c ≡ none → Bounds args c
  unfolding refusal
  refusal-Bounds args c h = record {
    live = (is_capability_live_iff c.status c.expires_at now).0 (ground arith);
    assured = assurance_sound c.assurance_lease_id (ground arith);
    amount = (within_amount_limit_iff args.amount c.amount_limit).0 (ground arith);
    target = (target_allowed_iff args.target_address c.allowed_targets).0 (ground arith);
    rate = rate_sound c.id c.frequency_limit c.frequency_window_seconds (ground arith);
  }

  pub Bounds-refusal :
      (args : CheckArgs) (c : Capability) → Bounds args c → refusal D s args now c ≡ none
  unfolding refusal
  Bounds-refusal args c b =
      let live = (is_capability_live_iff c.status c.expires_at now).1 b.live in
      let assured = assurance_complete c.assurance_lease_id b.assured in
      let amount = (within_amount_limit_iff args.amount c.amount_limit).1 b.amount in
      let target = (target_allowed_iff args.target_address c.allowed_targets).1 b.target in
      let rate = rate_complete c.id c.frequency_limit c.frequency_window_seconds b.rate in
      rw (live, assured, amount, target, rate)
