-- ===== src/Incidents/Status.antt =====
-- The life of an incident: `TRANSITIONS`, `canTransition` and `isClosed` of
-- backend/src/incidents/incident-types.ts.
pub mod Laws
use xander.Prelude.{
  ℕ, String, Bool, true, false, ◌||◌, Option, none, some, List, [], ◌∷◌, any, str_eq,
}
use xander.Prelude.Dictionary.{Property, own, inherited, missing, read}

abbrev pub transitions : List (String × List String)
transitions =
    ("OPEN", "INVESTIGATING" ∷ "MITIGATED" ∷ "FALSE_POSITIVE" ∷ "RESOLVED" ∷ [])
    ∷ ("INVESTIGATING", "MITIGATED" ∷ "FALSE_POSITIVE" ∷ "RESOLVED" ∷ [])
    ∷ ("MITIGATED", "RESOLVED" ∷ "FALSE_POSITIVE" ∷ [])
    ∷ ("FALSE_POSITIVE", [])
    ∷ ("RESOLVED", [])
    ∷ []

-- `(TRANSITIONS[from] ?? []).includes(to)`: what is inherited has no `includes`, and the call throws.
unfoldable pub includes : Property (List String) → String → Option Bool
includes (own targets) to = some (any (str_eq to) targets)
includes inherited to = none
includes missing to = some false

-- `canTransition`; none stands for a throw.
unfoldable pub can_transition : String → String → Option Bool
can_transition from to = includes (read transitions from) to

-- `isClosed`
unfoldable pub is_closed : String → Bool
is_closed status = str_eq status "RESOLVED" || str_eq status "FALSE_POSITIVE"
