-- ===== src/Risk/Tests.antt =====
-- The seeded bands pass the validation.
use xander.Prelude.{◌≡◌, refl, none}
use xander.Prelude.Sort.{sort_asc}
use xander.Policy.Tests.{thresholds}
use xander.Risk.Thresholds.{neighbours_error, sorted_error, validate_thresholds}

valid : validate_thresholds thresholds ≡ none
unfolding validate_thresholds sorted_error neighbours_error sort_asc
valid = refl
