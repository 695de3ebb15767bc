-- ===== src/Telemetry/Examples.antt =====
-- The theorem of the telemetry at a concrete batch.
use lcnc_suite.Base.{ℕ, String, Bool, ◌==◌, Option, none, some, List, [], ◌∷◌, if◌then◌else◌}
use lcnc_suite.Base.Int.{pos}
use lcnc_suite.Value.{Value, int, str, obj, field, end}
use lcnc_suite.Telemetry.{events_max, parse_telemetry_batch}
use lcnc_suite.Telemetry.Batch.{IsParsed, lines_in, parse_telemetry_batch-IsParsed}

-- A line is a number: 0 is blank, 1 is an object, and the others are no JSON.
abbrev is_blank : ℕ → Bool
is_blank n = n == 0

abbrev object_at : ℕ → Option Value
object_at n =
    if n == 1 then some (obj (field "tag" (str "lag") (field "ms" (int (pos 40)) end))) else none

abbrev text_of : Value → String
text_of v = "lag"

parse_telemetry_batch-IsParsed_example :
    IsParsed events_max
      (lines_in (λ (ls : List ℕ). ls) (λ l. l) is_blank object_at text_of (0 ∷ 1 ∷ 2 ∷ []))
      (parse_telemetry_batch
        (λ ls. ls)
        (λ l. l)
        is_blank
        object_at
        text_of
        (0 ∷ 1 ∷ 2 ∷ [])
        events_max)
parse_telemetry_batch-IsParsed_example =
    parse_telemetry_batch-IsParsed (λ ls. ls) (λ l. l) is_blank object_at text_of (0 ∷ 1 ∷ 2 ∷ [])
      events_max
