-- ===== src/Heartbeat/Examples.antt =====
-- The theorems of the heartbeat at concrete orders of events.
use lcnc_suite.Base.{◌≡◌, refl, ℕ, zero, suc, true, false, none, List, [], ◌∷◌, All, arith}
use lcnc_suite.Heartbeat.{
  Heart, message, at_start, Event, beats, grace_ticks_on, joins, leaves, stops, steps,
}
use lcnc_suite.Heartbeat.Hold.{IsHeld, at_start-IsHeld}
use lcnc_suite.Heartbeat.Grace.{IsOut, IsAlone, turns, leaves-IsOut}

-- Two clients, and one of them stops the machine.
abbrev stopped : List Event
stopped = joins ∷ joins ∷ beats ∷ stops ∷ []

at_start-IsHeld_example :
    IsHeld (steps stopped at_start) (steps (beats ∷ stops ∷ []) (steps stopped at_start))
unfolding steps at_start
at_start-IsHeld_example = at_start-IsHeld stopped (beats ∷ stops ∷ []) refl (tt, (tt, tt))

-- The other client leaves: the message of its leaving asks for the connection again.
stop_is_undone :
    (steps (leaves ∷ []) (steps stopped at_start)).sent
    ≡ message false true ∷ (steps stopped at_start).sent
unfolding steps at_start
stop_is_undone = refl

abbrev alone : Heart
alone = record { clients = 1; last_hb = true; estop_hold = false; grace = none; sent = [] }

abbrev turns_only : ℕ → List Event
turns_only zero = []
turns_only (suc n) = grace_ticks_on ∷ turns_only n

turns-turns_only : (n : ℕ) → turns (turns_only n) ≡ n
unfolding turns
turns-turns_only zero = refl
turns-turns_only (suc n) = omega (arith, turns-turns_only n)

turns_only-IsAlone : (n : ℕ) → All IsAlone (turns_only n)
turns_only-IsAlone zero = tt
turns_only-IsAlone (suc n) = (tt, turns_only-IsAlone n)

leaves-IsOut_example : IsOut (steps (leaves ∷ turns_only 91) alone)
leaves-IsOut_example =
    leaves-IsOut (turns_only 91) alone refl refl (turns_only-IsAlone 91)
      (omega (arith, turns-turns_only 91))
