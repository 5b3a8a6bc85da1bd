-- ===== src/Incidents/Status/Laws.antt =====
-- An incident only moves forward (`canTransition` of
-- backend/src/incidents/incident-types.ts).
use xander.Prelude.{
  List, any, All, All-In, any-In, inl, inr, ℕ, suc, ◌+◌, ◌≡◌, ◌≤◌, ◌<◌, String, true, some, arith,
  if◌then◌else◌, str_eq,
}
use xander.Prelude.Dictionary.{read, read-In, Property-cases}
use xander.Incidents.Status.{includes, transitions, can_transition}

-- How far along a status is: open, investigating, mitigated, closed.
abbrev pub progress : String → ℕ
progress status =
    if str_eq status "OPEN"
    then 0
    else if str_eq status "INVESTIGATING"
    then 1
    else if str_eq status "MITIGATED"
    then 2
    else 3

-- A sequence of moves that the table allows, and how many they are.
pub data Moves : String → String → ℕ → Type 0 where
  stay : (s : String) → Moves s s 0
  move : (a b c : String) (n : ℕ) → can_transition a b ≡ some true → Moves b c n → Moves a c (suc n)

-- Every entry of the table lists statuses further along only.
table_forward :
    All (λ (e : String × List String). All (λ t. progress e.0 < progress t) e.1) transitions
table_forward = ground arith

-- A move of the table goes to a status that is further along.
pub can_transition_forward :
    (a b : String) → can_transition a b ≡ some true → progress a < progress b
unfolding can_transition includes
can_transition_forward a b h = elim (Property-cases (read transitions a)) [
  | inl (targets, e) ↦
      let listed : any (str_eq b) targets ≡ true = cc (rw (e, includes) at h) in
      All-In (λ t. progress a < progress t) targets b
        (All-In (λ p. All (λ t. progress p.0 < progress t) p.1) transitions (a, targets)
          table_forward (read-In transitions a targets e))
        (any-In b targets listed)
  | inr (inl e) ↦ absurd (cc (rw (e, includes) at h))
  | inr (inr e) ↦ absurd (cc (rw (e, includes) at h))
]

Moves-progress : (a b : String) (n : ℕ) → Moves a b n → n + progress a ≤ progress b
Moves-progress a b n (stay s) = omega arith
Moves-progress a c n (move _ b _ k h rest) =
    let first = can_transition_forward a b h in let later = Moves-progress b c k rest in omega arith

progress-le : (s : String) → progress s ≤ 3
progress-le s = ground arith

-- A sequence of moves that the table allows, between any two statuses, ends further along by at
-- least its length, and it is at most three long.
pub Moves-bound : (a b : String) (n : ℕ) → Moves a b n → (n + progress a ≤ progress b) × (n ≤ 3)
Moves-bound a b n m = let h = Moves-progress a b n m in let top = progress-le b in (h, omega arith)
