-- ===== src/Gateway/Examples.antt =====
-- The theorems of the dispatcher in a concrete world.
use lcnc_suite.Base.{◌≡◌, refl, ◌≢◌, true, false}
use lcnc_suite.Base.Int.{pos}
use lcnc_suite.Value.{end, get, find, truth, finite_int}
use lcnc_suite.Policy.{Command, Interp, policy_state_from_payload}
use lcnc_suite.Gateway.Frame.{after}
use lcnc_suite.Gateway.Handlers.Stop.{Stopped, jog_stop_lem, Estopped, estop_lem}
use lcnc_suite.Gateway.Dispatch.{handle_command}
use lcnc_suite.Gateway.Safety.Sent.{sent_but}
use lcnc_suite.Gateway.Safety.Disarmed.{is_stop, handle_command_disarmed}
use lcnc_suite.Gateway.Safety.Running.{is_sparing, handle_command_running}
use lcnc_suite.Gateway.Samples.{cutting, world, program, stop_x, idle_world}

waiting-ne-idle : Interp.waiting ≢ Interp.idle
waiting-ne-idle e = cc

handle_command_disarmed_example :
    sent_but is_stop (after (handle_command Command.mdi program false) world)
    ≡ sent_but is_stop world
handle_command_disarmed_example = handle_command_disarmed Command.mdi program world

handle_command_running_example :
    sent_but is_sparing (after (handle_command Command.mdi program true) world)
    ≡ sent_but is_sparing world
unfolding policy_state_from_payload
handle_command_running_example =
    handle_command_running Command.mdi program true world cutting refl waiting-ne-idle refl

jog_stop_lem_example :
    Stopped false
      (pos 1)
      idle_world
      (after (handle_command Command.jog_stop stop_x false) idle_world)
unfolding finite_int get find truth
jog_stop_lem_example = jog_stop_lem stop_x false (pos 1) idle_world refl refl refl

estop_lem_example : Estopped world (after (handle_command Command.estop end false) world)
estop_lem_example = estop_lem end false world refl
