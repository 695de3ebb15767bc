-- ===== src/Gateway/RunFromLine/Examples.antt =====
-- The theorems of the run from line at concrete runs.
use lcnc_suite.Base.{refl, none, some, [], ◌∷◌, true, false}
use lcnc_suite.Base.Int.{pos}
use lcnc_suite.Value.{of_ℕ}
use lcnc_suite.Gateway.Samples.{idle_world, sequence, stat}
use lcnc_suite.Gateway.Machine.{Stat, Mode}
use lcnc_suite.Policy.{Interp}
use lcnc_suite.Gateway.RunFromLine.{Readings, Arithmetic, Run}
use lcnc_suite.Gateway.RunFromLine.Wait.{wait_interp_idle}
use lcnc_suite.Gateway.RunFromLine.Sequence.{rfl_sequence}
use lcnc_suite.Gateway.RunFromLine.Sends.{moves}
use lcnc_suite.Gateway.RunFromLine.Order.{Ordered}
use lcnc_suite.Gateway.RunFromLine.Checks.{allowed, rfl_sequence-Ordered}
use lcnc_suite.Gateway.RunFromLine.Idle.{passes, IsOver, wait_ends}

abbrev py : Arithmetic
py = record { add = λ a b. a; sub = λ a b. a; mul = λ a b. a }

-- There is no position, and an error came during the measurement.
abbrev readings : Readings
readings = record {
  errors_before = 0;
  errors_after = 1;
  at_safe_z = none;
  at_entry = none;
  in_mm = true;
}

-- The measured tool is in the spindle, in MDI mode.
abbrev measured : Stat
measured = record stat {
  interp_state = Interp.idle;
  task_mode = Mode.mdi;
  tool_in_spindle = pos 3;
  tool_offset_z = of_ℕ 50;
}

abbrev ready : Run
ready = record {
  world = record idle_world { stat = some measured; outcomes = [] };
  moments = 0 ∷ 1000 ∷ 2500 ∷ 5000 ∷ 5100 ∷ 8000 ∷ 10000 ∷ 10100 ∷ 13000 ∷ [];
  flag_armed = false;
}

rfl_sequence-Ordered_example :
    Ordered (allowed py readings sequence) (moves ready) (rfl_sequence py readings sequence ready)
rfl_sequence-Ordered_example = rfl_sequence-Ordered py readings sequence ready

wait_ends_example : IsOver (wait_interp_idle 4000 ready)
unfolding passes
wait_ends_example =
    wait_ends 4000 0 (1000 ∷ 2500 ∷ 5000 ∷ 5100 ∷ 8000 ∷ 10000 ∷ 10100 ∷ 13000 ∷ []) ready refl refl
