-- ===== src/Incidents/Tests.antt =====
-- Incidents at concrete words.
use xander.Prelude.{◌≡◌, ◌≤◌, ◌+◌, refl, true, some}
use xander.Prelude.Dictionary.{read, number, rank_or}
use xander.Incidents.Severity.{severity_rank}
use xander.Incidents.Status.{can_transition, includes}
use xander.Incidents.Status.Laws.{Moves, move, stay, progress, Moves-bound}

typo : severity_rank "SEVERE" ≡ number 3
unfolding severity_rank read rank_or
typo = refl

opened : can_transition "OPEN" "MITIGATED" ≡ some true
unfolding can_transition includes read
opened = refl

resolved : can_transition "MITIGATED" "RESOLVED" ≡ some true
unfolding can_transition includes read
resolved = refl

contained : Moves "OPEN" "RESOLVED" 2
contained =
    move "OPEN" "MITIGATED" "RESOLVED" 1 opened
      (move "MITIGATED" "RESOLVED" "RESOLVED" 0 resolved (stay "RESOLVED"))

Moves-bound_example : (2 + progress "OPEN" ≤ progress "RESOLVED") × (2 ≤ 3)
Moves-bound_example = Moves-bound "OPEN" "RESOLVED" 2 contained
