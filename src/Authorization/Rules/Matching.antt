-- ===== src/Authorization/Rules/Matching.antt =====
-- When a rule applies to a request (`ruleMatches` of backend/src/authorization/rule-engine.ts),
-- said without the order of its tests.
use xander.Prelude.{
  ℕ, ◌≤◌, String, ◌≡◌, refl, ◌↔◌, ◌⊎◌, inl, inr, Bool, true, false, Option, none, some, List, [],
  ◌∷◌, arith, leb_iff, eq_iff, str_eq, In, any,
}
use xander.Capabilities.Types.{parse_amount}
use xander.Authorization.Request.{AuthorizationRequest}
use xander.Authorization.Rules.{
  Rule, action_ok, band_ok, least_ok, most_ok, assurance_ok, rule_matches,
}

-- A bound that a rule names is met by a value that is known: an unknown value meets none.
abbrev pub AtMost : Option ℕ → Option ℕ → Type 0
AtMost bound value = (m : ℕ) → bound ≡ some m → (v : ℕ) × (value ≡ some v) × (v ≤ m)

abbrev pub AtLeast : Option ℕ → Option ℕ → Type 0
AtLeast bound value = (m : ℕ) → bound ≡ some m → (v : ℕ) × (value ≡ some v) × (m ≤ v)

pub record Matches (rule : Rule) (request : AuthorizationRequest) : Type 0 where
  pub action : (a : String) → rule.action_type ≡ some a → a ≡ request.intent.action_type
  pub band : (rule.trust_bands ≡ []) ⊎ In request.trust.band rule.trust_bands
  pub least : AtLeast (parse_amount rule.min_amount) (parse_amount request.intent.amount)
  pub most : AtMost (parse_amount rule.max_amount) (parse_amount request.intent.amount)
  pub coordination : AtMost rule.max_coordination_risk request.trust.coordination_risk
  pub integrity : AtLeast rule.min_behavior_integrity request.trust.behavior_integrity
  pub assurance :
      (b : Bool) → rule.requires_live_assurance ≡ some b → b ≡ request.assurance.has_live_lease

most_sound : (bound value : Option ℕ) → most_ok bound value ≡ true → AtMost bound value
unfolding most_ok
most_sound none value h m e = absurd (cc)
most_sound (some b) none h m e = absurd (cc)
most_sound (some b) (some v) h m e = (v, refl, ground arith)

most_complete : (bound value : Option ℕ) → AtMost bound value → most_ok bound value ≡ true
unfolding most_ok
most_complete none value h = refl
most_complete (some b) value h = let (v, known, le) = h b refl in rw known ((leb_iff v b).1 le)

least_sound : (bound value : Option ℕ) → least_ok bound value ≡ true → AtLeast bound value
unfolding least_ok
least_sound none value h m e = absurd (cc)
least_sound (some b) none h m e = absurd (cc)
least_sound (some b) (some v) h m e = (v, refl, ground arith)

least_complete : (bound value : Option ℕ) → AtLeast bound value → least_ok bound value ≡ true
unfolding least_ok
least_complete none value h = refl
least_complete (some b) value h = let (v, known, le) = h b refl in rw known ((leb_iff b v).1 le)

any_iff : (t : String) (xs : List String) → (any (str_eq t) xs ≡ true) ↔ In t xs
any_iff t [] = ground arith
any_iff t (x ∷ xs) = ground (arith, eq_iff t x, any_iff t xs)

band_iff :
    (bands : List String) (band : String)
    → (band_ok bands band ≡ true) ↔ ((bands ≡ []) ⊎ In band bands)
unfolding band_ok
band_iff [] band = ((λ h. inl refl), (λ h. refl))
band_iff (b ∷ bands) band = (
  (λ h. inr ((any_iff band (b ∷ bands)).0 h)),
  elim [ inl e ↦ absurd (cc) | inr m ↦ (any_iff band (b ∷ bands)).1 m ],
)

action_sound :
    (wanted : Option String) (actual : String)
    → action_ok wanted actual ≡ true
    → (a : String) → wanted ≡ some a
    → a ≡ actual
unfolding action_ok
action_sound none actual h a e = cc
action_sound (some w) actual h a e = ground (arith, eq_iff w actual)

action_complete :
    (wanted : Option String) (actual : String)
    → ((a : String) → wanted ≡ some a → a ≡ actual)
    → action_ok wanted actual ≡ true
unfolding action_ok
action_complete none actual h = refl
action_complete (some w) actual h = (eq_iff w actual).1 (h w refl)

assurance_sound :
    (wanted : Option Bool) (live : Bool)
    → assurance_ok wanted live ≡ true
    → (b : Bool) → wanted ≡ some b
    → b ≡ live
unfolding assurance_ok
assurance_sound none live h b e = cc
assurance_sound (some true) live h b e = ground arith
assurance_sound (some false) live h b e = ground arith

assurance_complete :
    (wanted : Option Bool) (live : Bool)
    → ((b : Bool) → wanted ≡ some b → b ≡ live)
    → assurance_ok wanted live ≡ true
unfolding assurance_ok
assurance_complete none live h = refl
assurance_complete (some true) live h = ground (arith, h true refl)
assurance_complete (some false) live h = ground (arith, h false refl)

rule_matches-Matches :
    (rule : Rule) (request : AuthorizationRequest)
    → rule_matches rule request ≡ true
    → Matches rule request
unfolding rule_matches
rule_matches-Matches rule request h = record {
  action = action_sound rule.action_type request.intent.action_type (ground arith);
  band = (band_iff rule.trust_bands request.trust.band).0 (ground arith);
  least =
      least_sound (parse_amount rule.min_amount) (parse_amount request.intent.amount)
        (ground arith);
  most =
      most_sound (parse_amount rule.max_amount) (parse_amount request.intent.amount) (ground arith);
  coordination =
      most_sound rule.max_coordination_risk request.trust.coordination_risk (ground arith);
  integrity =
      least_sound rule.min_behavior_integrity request.trust.behavior_integrity (ground arith);
  assurance =
      assurance_sound rule.requires_live_assurance request.assurance.has_live_lease (ground arith);
}

Matches-rule_matches :
    (rule : Rule) (request : AuthorizationRequest)
    → Matches rule request
    → rule_matches rule request ≡ true
unfolding rule_matches
Matches-rule_matches rule request m = rw (
  action_complete rule.action_type request.intent.action_type m.action,
  (band_iff rule.trust_bands request.trust.band).1 m.band,
  least_complete (parse_amount rule.min_amount) (parse_amount request.intent.amount) m.least,
  most_complete (parse_amount rule.max_amount) (parse_amount request.intent.amount) m.most,
  most_complete rule.max_coordination_risk request.trust.coordination_risk m.coordination,
  least_complete rule.min_behavior_integrity request.trust.behavior_integrity m.integrity,
  assurance_complete rule.requires_live_assurance request.assurance.has_live_lease m.assurance,
)

-- A rule applies exactly when every condition that it names holds of the request. A risk or an
-- integrity that was not measured, and an amount that is absent or malformed, satisfies no bound;
-- a bound on the amount that is malformed asks nothing.
pub rule_matches_iff :
    (rule : Rule) (request : AuthorizationRequest)
    → (rule_matches rule request ≡ true) ↔ Matches rule request
rule_matches_iff rule request =
    (rule_matches-Matches rule request, Matches-rule_matches rule request)
