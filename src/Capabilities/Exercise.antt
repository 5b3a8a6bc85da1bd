-- ===== src/Capabilities/Exercise.antt =====
-- Exercising a capability and recording it, and the lease that backs an actor (`recordUsage`,
-- `grantCapability`, `getLiveLease` of backend/src/capabilities/capability-service.ts).
use mathlib.Core.List.{head?}
use xander.Prelude.{
  ℕ, suc, ◌-◌, ◌*◌, ◌≤◌, String, ◌≡◌, refl, ap, true, false, ◌&&◌, Option, none, some, List, [],
  ◌∷◌, Bool, if◌then◌else◌, arith, leb, eq_iff, str_eq, In, Bool-cases, inl, inr, All-In,
}
use xander.Prelude.Table.{IsDescending}
use xander.Capabilities.Types.{CapabilityStatus, AssuranceLease, is_active, is_lease_live}
use xander.Capabilities.Store.{
  Capability, Database, State, CheckArgs, check_capability, record_usage, used_in_window,
  get_live_lease,
}
use xander.Capabilities.Check.{check_capability-Permits}
use xander.Capabilities.Check.Guards.{IsLive}

-- A recorded use counts towards the window that ends at the moment of the use.
pub used_in_window-record_usage :
    (D : Database) (s : State D) (id : String) (intent amount : Option String) (now w : ℕ)
    → used_in_window D (record_usage D id intent amount now s) now id w
      ≡ suc (used_in_window D s now id w)
unfolding used_in_window record_usage
used_in_window-record_usage D s id intent amount now w =
    rw (D.usage.count-rows, D.usage.create-rows)
      (ground (
        arith,
        eq_iff id id,
        D.usage.count-rows (λ u. str_eq u.capability_id id && leb (now - w * 1000) u.created_at)
            s.usages,
      ))

-- If a check lets a capability with a frequency limit through and the use is recorded at that
-- moment, the uses in the capability's window, this one included, are at most the limit.
pub exercise_within_rate :
    (D : Database) (s : State D) (args : CheckArgs) (now : ℕ) (c : Capability)
    (intent amount : Option String) (n w : ℕ)
    → check_capability D s args now ≡ record { allowed = true; capability = some c; denial = none }
    → c.frequency_limit ≡ some n
    → c.frequency_window_seconds ≡ some w
    → used_in_window D (record_usage D c.id intent amount now s) now c.id w ≤ n
unfolding used_in_window
exercise_within_rate D s args now c intent amount n w h en ew =
    let p = check_capability-Permits D s args now c h in
    rw (used_in_window-record_usage D s c.id intent amount now w)
      (rw D.usage.count-rows (p.bounds.rate n w en ew))

-- What the lease of an actor is to be: the live one that lasts longest, or none if none is live.
abbrev pub IsLongest : (D : Database) → State D → String → ℕ → Option AssuranceLease → Type 0
IsLongest D s actor now none =
    (l : AssuranceLease)
    → In l (D.lease.rows s.leases)
    → l.actor_id ≡ actor
    → IsLive l.status (some l.expires_at) now
    → ⊥
IsLongest D s actor now (some m) =
    In m (D.lease.rows s.leases)
    × (m.actor_id ≡ actor)
    × IsLive m.status (some m.expires_at) now
    × ((l : AssuranceLease)
        → In l (D.lease.rows s.leases)
        → l.actor_id ≡ actor
        → IsLive l.status (some l.expires_at) now
        → l.expires_at ≤ m.expires_at)

is_lease_live-IsLive :
    (l : AssuranceLease) (now : ℕ)
    → is_lease_live (some l) now ≡ true
    → IsLive l.status (some l.expires_at) now
unfolding is_lease_live
is_lease_live-IsLive l now h = record { active = ground arith; unexpired = λ u e. ground arith }

expired :
    (l : AssuranceLease) (now : ℕ)
    → l.status ≡ CapabilityStatus.active
    → is_lease_live (some l) now ≡ false
    → l.expires_at ≤ now
unfolding is_lease_live
expired l now e h = ground arith

module _ (D : Database) (s : State D) (actor : String) (now : ℕ) where
  abbrev wanted : AssuranceLease → Bool
  wanted l = str_eq l.actor_id actor && is_active l.status

  listed :
      (l : AssuranceLease) (ls : List AssuranceLease)
      → D.lease.find_many wanted (λ r. r.expires_at) s.leases ≡ ls
      → In l (D.lease.rows s.leases)
      → l.actor_id ≡ actor
      → l.status ≡ CapabilityStatus.active
      → In l ls
  listed l ls e m same live = rw (← e) (
      (D.lease.find_many-In wanted (λ r. r.expires_at) s.leases l).1
        (m, ground (arith, eq_iff l.actor_id actor)))

  first :
      (x : AssuranceLease) (ls : List AssuranceLease)
      → D.lease.find_many wanted (λ r. r.expires_at) s.leases ≡ x ∷ ls
      → In x (D.lease.rows s.leases) × (x.actor_id ≡ actor) × (x.status ≡ CapabilityStatus.active)
  first x ls e =
      let (m, ok) =
        (D.lease.find_many-In wanted (λ r. r.expires_at) s.leases x).0 (rw e (inl refl)) in
      (m, ground (arith, eq_iff x.actor_id actor), ground (arith, eq_iff x.actor_id actor))

  first-IsLongest :
      (ls : List AssuranceLease)
      → D.lease.find_many wanted (λ r. r.expires_at) s.leases ≡ ls
      → IsDescending (λ r. r.expires_at) ls
      → IsLongest D s actor now (if is_lease_live (head? ls) now then head? ls else none)
  unfolding is_lease_live
  first-IsLongest [] e desc = λ l m same live. listed l [] e m same live.active
  first-IsLongest (x ∷ ls) e desc = elim (Bool-cases (is_lease_live (some x) now)) [
    | inl live ↦ rw live (
      (first x ls e).0,
      (first x ls e).1,
      (is_lease_live-IsLive x now live),
      (λ l m same longer. elim (listed l (x ∷ ls) e m same longer.active) [
        | inl here ↦ rw here (omega arith)
        | inr there ↦ All-In (λ r. r.expires_at ≤ x.expires_at) ls l desc.0 there
      ]),
    )
    | inr dead ↦ rw dead (λ l m same live. elim (listed l (x ∷ ls) e m same live.active) [
      | inl here ↦
          let over = expired x now (first x ls e).2 dead in
          let later = live.unexpired l.expires_at refl in
          let same_time = ap (λ (r : AssuranceLease). r.expires_at) here in absurd (omega arith)
      | inr there ↦
          let over = expired x now (first x ls e).2 dead in
          let later = live.unexpired l.expires_at refl in
          let shorter = All-In (λ r. r.expires_at ≤ x.expires_at) ls l desc.0 there in
          absurd (omega arith)
    ])
  ]

-- The lease that backs an actor is a live one of the actor, and no live lease of the actor lasts
-- longer; there is none only if no lease of the actor is live.
pub get_live_lease-IsLongest :
    (D : Database) (s : State D) (actor : String) (now : ℕ)
    → IsLongest D s actor now (get_live_lease D s actor now)
unfolding get_live_lease
get_live_lease-IsLongest D s actor now =
    first-IsLongest D s actor now
      (D.lease.find_many (wanted D s actor now) (λ r. r.expires_at) s.leases) refl
      (D.lease.find_many-IsDescending (wanted D s actor now) (λ r. r.expires_at) s.leases)
