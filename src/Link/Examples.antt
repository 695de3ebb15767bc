-- ===== src/Link/Examples.antt =====
-- The theorem of the gateway with the watchdog process at concrete moves.
use lcnc_suite.Base.{◌≡◌, refl, ℕ, ◌+◌, true, List, [], ◌∷◌, arith}
use lcnc_suite.Heartbeat
use lcnc_suite.Heartbeat.{joins, beats, stops}
use lcnc_suite.Watchdog.Loop.{Settings}
use lcnc_suite.Watchdog.Events.{Tick, round}
use lcnc_suite.Link
use lcnc_suite.Link.Off.{IsOff}
use lcnc_suite.Link.Stopped.{stop-IsOff}

abbrev cfg : Settings
cfg = record { timeout = 10; period = 3; pulse = 2 }

abbrev tick : ℕ → Tick
tick now = record { now = now; later = now + 1; hb_ok = true; events = [] }

-- A client comes, and the machine runs. One more message is on the wire.
abbrev running : List Link.Move
running =
    Link.turns (tick 0) Link.sent joins
    ∷ Link.turns (tick 0) Link.sent beats
    ∷ Link.watches (tick 1) 1
    ∷ Link.watches (tick 4) 0
    ∷ Link.turns (tick 5) Link.sent beats
    ∷ []

abbrev reading : List Link.Move
reading =
    Link.watches (tick 6) 1
    ∷ Link.turns (tick 7) Link.timed_out beats
    ∷ Link.watches (tick 8) 1
    ∷ Link.turns (tick 9) Link.sent beats
    ∷ []

running_up : (Link.steps cfg running (Link.at_start 0)).dog.pins.connected ≡ true
unfolding Link.steps Link.at_start Heartbeat.step Heartbeat.at_start round
running_up = refl

stop-IsOff_example :
    IsOff
      (Link.steps cfg reading
        (Link.gateway cfg (tick 5) Link.sent stops (Link.steps cfg running (Link.at_start 0)))).dog
unfolding Link.steps Link.at_start Link.gateway Heartbeat.step Heartbeat.at_start
stop-IsOff_example =
    stop-IsOff cfg 0 running reading (tick 5) refl (omega arith) (tt, (tt, (tt, (tt, tt))))
      (omega arith)

-- A message that follows a part of a line is lost with it.
torn_stop :
    (Link.steps cfg
      (Link.turns (tick 5) Link.partly_sent beats
        ∷ Link.turns (tick 5) Link.sent stops
        ∷ Link.watches (tick 6) 2
        ∷ Link.watches (tick 7) 0
        ∷ [])
      (Link.steps cfg running (Link.at_start 0))).dog.pins.connected
    ≡ true
unfolding Link.steps Link.at_start Heartbeat.step Heartbeat.at_start round
torn_stop = refl
