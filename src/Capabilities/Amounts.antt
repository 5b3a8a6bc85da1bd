-- ===== src/Capabilities/Amounts.antt =====
-- Ceilings: when a request fits below one (backend/src/capabilities/capability-types.ts).
use xander.Prelude.{
  ℕ, ◌≤◌, String, ◌≡◌, refl, ◌↔◌, ◌⊎◌, inl, inr, true, Option, none, some, arith, Option-cases,
  leb_iff,
}
use xander.Capabilities.Types.{parse_amount, within_amount_limit}

-- A request clears a ceiling that is a number if it names no amount, or an amount up to the number.
abbrev pub Clears : Option String → Option String → Type 0
Clears requested ceiling =
    (c : ℕ)
    → parse_amount ceiling ≡ some c
    → (requested ≡ none) ⊎ ((r : ℕ) × (parse_amount requested ≡ some r) × (r ≤ c))

within_sound :
    (requested ceiling : Option String)
    → within_amount_limit requested ceiling ≡ true
    → Clears requested ceiling
unfolding within_amount_limit
within_sound requested none h c e = absurd (unfold parse_amount in cc)
within_sound none (some ceiling) h c e = inl refl
within_sound (some r) (some ceiling) h c e = elim (Option-cases (parse_amount (some r))) [
  | inl malformed ↦ ground arith
  | inr (n, parsed) ↦ inr (n, parsed, ground arith)
]

within_complete :
    (requested ceiling : Option String)
    → Clears requested ceiling
    → within_amount_limit requested ceiling ≡ true
unfolding within_amount_limit
within_complete requested none h = refl
within_complete requested (some ceiling) h = elim (Option-cases (parse_amount (some ceiling))) [
  | inl malformed ↦ ground arith
  | inr (c, parsed) ↦ elim (h c parsed) [
    | inl unnamed ↦ rw (unnamed, parsed) (unfold parse_amount in refl)
    | inr (r, named, le) ↦ rw (parsed, named) ((leb_iff r c).1 le)
  ]
]

-- A ceiling that is absent or malformed bounds nothing. Against a number, a request fits exactly
-- when it names no amount, or one that parses and is not above the number.
pub within_amount_limit_iff :
    (requested ceiling : Option String)
    → (within_amount_limit requested ceiling ≡ true) ↔ Clears requested ceiling
within_amount_limit_iff requested ceiling =
    (within_sound requested ceiling, within_complete requested ceiling)
