-- ===== src/Authorization/Rules/Selection.antt =====
-- Which rule decides (`selectRule` of backend/src/authorization/rule-engine.ts).
use xander.Prelude.{
  ℕ, ◌≤◌, ◌≡◌, refl, ap, sym, ◌∙◌, ◌↔◌, inl, inr, Bool, true, false, Option, none, some, List, [],
  ◌∷◌, arith, In, All-In, find, Bool-cases,
}
use xander.Prelude.Sort.{sort_asc, In-sort_asc, IsAscending, sort_asc-IsAscending}
use xander.Authorization.Request.{AuthorizationRequest}
use xander.Authorization.Rules.{Rule, rule_matches, select_rule}
use xander.Authorization.Rules.Matching.{Matches, rule_matches_iff}

-- The rule of least priority among those that apply, or none if none applies.
abbrev pub IsFirst : List Rule → AuthorizationRequest → Option Rule → Type 0
IsFirst rules request none = (r : Rule) → In r rules → ¬ Matches r request
IsFirst rules request (some r) =
    In r rules
    × Matches r request
    × ((r' : Rule) → In r' rules → Matches r' request → r.priority ≤ r'.priority)

module _ {A : Type 0} (p : A → Bool) (key : A → ℕ) where
  find-least :
      (xs : List A) (a b : A)
      → IsAscending key xs
      → find p xs ≡ some a
      → In b xs
      → p b ≡ true
      → key a ≤ key b
  find-least [] a b asc e m h = absurd m
  find-least (x ∷ xs) a b asc e (inl same) h =
      let hit : p x ≡ true = rw same at h in
      let found : some x ≡ some a = rw hit at e in
      let this : x ≡ a = cc in rw (same, this) (omega arith)
  find-least (x ∷ xs) a b asc e (inr m) h = elim (Bool-cases (p x)) [
    | inl hit ↦
        let found : some x ≡ some a = rw hit at e in
        let this : x ≡ a = cc in rw (← this) (All-In (λ y. key x ≤ key y) xs b asc.0 m)
    | inr miss ↦ find-least xs a b asc.1 (rw miss at e) m h
  ]

  find-In : (xs : List A) (a : A) → find p xs ≡ some a → In a xs × (p a ≡ true)
  find-In [] a e = ground arith
  find-In (x ∷ xs) a e = ground (arith, find-In xs a)

  find-none : (xs : List A) (a : A) → find p xs ≡ none → In a xs → p a ≡ false
  find-none [] a e m = absurd m
  find-none (x ∷ xs) a e m = ground (arith, find-none xs a)

selected :
    (rules : List Rule) (request : AuthorizationRequest) (found : Option Rule)
    → select_rule rules request ≡ found
    → IsFirst rules request found
unfolding select_rule
selected rules request none e = λ r m applies.
    let missed =
      find-none (λ rule. rule_matches rule request) (λ rule. rule.priority)
        (sort_asc (λ rule. rule.priority) rules) r e
        ((In-sort_asc (λ (rule : Rule). rule.priority) r rules).1 m) in
    let hit = (rule_matches_iff r request).1 applies in cc (sym missed ∙ hit)
selected rules request (some r) e =
    let sorted = sort_asc (λ rule. rule.priority) rules in
    let (m, hit) = find-In (λ rule. rule_matches rule request) (λ rule. rule.priority) sorted r e in
    (
      (In-sort_asc (λ (rule : Rule). rule.priority) r rules).0 m,
      (rule_matches_iff r request).0 hit,
      (λ r' m' applies.
          find-least (λ rule. rule_matches rule request) (λ rule. rule.priority) sorted r r'
            (sort_asc-IsAscending (λ rule. rule.priority) rules) e
            ((In-sort_asc (λ (rule : Rule). rule.priority) r' rules).1 m')
            ((rule_matches_iff r' request).1 applies)),
    )

-- The selected rule is a listed rule that applies, and no listed rule that applies has a smaller
-- priority; none is selected only if no listed rule applies.
pub select_rule-IsFirst :
    (rules : List Rule) (request : AuthorizationRequest)
    → IsFirst rules request (select_rule rules request)
select_rule-IsFirst rules request = selected rules request (select_rule rules request) refl

abbrev pub SameMembers : List Rule → List Rule → Type 0
SameMembers rules rules' = (r : Rule) → In r rules ↔ In r rules'

-- No two listed rules share a priority, as the unique index of the table demands.
abbrev pub HasUniquePriorities : List Rule → Type 0
HasUniquePriorities rules = (a b : Rule) → In a rules → In b rules → a.priority ≡ b.priority → a ≡ b

first_unique :
    (rules rules' : List Rule) (request : AuthorizationRequest) (x y : Option Rule)
    → SameMembers rules rules'
    → HasUniquePriorities rules
    → IsFirst rules request x
    → IsFirst rules' request y
    → x ≡ y
first_unique rules rules' request none none same unique fx fy = refl
first_unique rules rules' request none (some b) same unique fx fy =
    absurd (fx b ((same b).1 fy.0) fy.1)
first_unique rules rules' request (some a) none same unique fx fy =
    absurd (fy a ((same a).0 fx.0) fx.1)
first_unique rules rules' request (some a) (some b) same unique fx fy =
    let ab = fx.2 b ((same b).1 fy.0) fy.1 in
    let ba = fy.2 a ((same a).0 fx.0) fx.1 in
    ap some (unique a b fx.0 ((same b).1 fy.0) (omega arith))

-- Where no two rules share a priority, the selected rule does not depend on the order in which the
-- rules are listed.
pub select_rule_order :
    (rules rules' : List Rule) (request : AuthorizationRequest)
    → SameMembers rules rules'
    → HasUniquePriorities rules
    → select_rule rules request ≡ select_rule rules' request
select_rule_order rules rules' request same unique =
    first_unique rules rules' request _ _ same unique (select_rule-IsFirst rules request)
      (select_rule-IsFirst rules' request)
