-- ===== src/Trip/Examples.antt =====
-- The theorems of the latch at concrete readings.
use lcnc_suite.Base.{◌≡◌, Bool, true, false, Option, none, some, List, [], ◌∷◌}
use lcnc_suite.Trip.{start, count_trips, count_audits}
use lcnc_suite.Trip.Edges.{known, rises, opens_set, evaluate_trip_latch_lem}

-- Set at boot, cleared, a failed read, set, and set again.
abbrev readings : List (Option Bool)
readings = some true ∷ some false ∷ none ∷ some true ∷ some true ∷ []

evaluate_trip_latch_lem_example :
    (count_trips readings start ≡ rises true (known readings))
    × (count_audits readings start ≡ opens_set (known readings))
evaluate_trip_latch_lem_example = evaluate_trip_latch_lem readings
