-- ===== src/Requests/Examples.antt =====
-- The theorem of the requests to the HAL reader at concrete events.
use lcnc_suite.Base.{◌≡◌, refl, ℕ, ◌+◌, leb, true, false, none, some, List, [], ◌∷◌, map}
use lcnc_suite.Requests
use lcnc_suite.Requests.{
  HalLibrary, set_p, halshow_dump, set_extra_pins, dict, unknown, written, raised_after,
}
use lcnc_suite.Requests.Own.{IsMatched, steps-IsMatched}

-- A HAL whose state and whose dump are a count of the writes, which has room for three
abbrev counter : HalLibrary ℕ ℕ
counter = record {
  write_pin = λ n pin value. elim (leb 3 n) [ true ↦ none | false ↦ some (n + 1) ];
  dump = λ n. some n;
}

abbrev process : Requests.Process ℕ
process = record { hal = 1; extra_pins = [] }

-- The first call is answered, the second too late, the third when its write has failed, and the last
-- waits when the connection breaks.
abbrev events : List Requests.Event
events =
    Requests.connects
    ∷ Requests.asks (set_p (some "axis.0") (some "1")) written
    ∷ Requests.asks halshow_dump written
    ∷ Requests.handles
    ∷ Requests.receives
    ∷ Requests.handles
    ∷ Requests.times_out 2
    ∷ Requests.asks unknown raised_after
    ∷ Requests.asks (set_extra_pins (dict (("load", some "spindle") ∷ ("no", none) ∷ []))) written
    ∷ Requests.receives
    ∷ Requests.handles
    ∷ Requests.receives
    ∷ Requests.breaks
    ∷ Requests.handles
    ∷ Requests.connects
    ∷ Requests.asks halshow_dump written
    ∷ []

abbrev after : Requests.World ℕ ℕ
after = Requests.steps counter events (Requests.at_start process)

ends :
    map (λ c. c.outcome) after.calls
    ≡ none
      ∷ some Requests.disconnected
      ∷ some Requests.not_sent
      ∷ some Requests.timed_out
      ∷ some (Requests.answered (Requests.ok none))
      ∷ []
unfolding Requests.steps Requests.at_start
ends = refl

extra : after.process.extra_pins ≡ ("load", "spindle") ∷ []
unfolding Requests.steps Requests.at_start
extra = refl

steps-IsMatched_example : IsMatched counter after
steps-IsMatched_example = steps-IsMatched counter events process
