-- ===== src/Gateway/Safety/Disarmed.antt =====
-- What a client that is not armed can send to LinuxCNC.
use lcnc_suite.Base.{◌≡◌, refl, Bool, true, false}
use lcnc_suite.Value.{Message}
use lcnc_suite.Policy.{Command}
use lcnc_suite.Gateway.Machine.{TaskState, Call}
use lcnc_suite.Gateway.World.{World}
use lcnc_suite.Gateway.Frame.{Keeps, pure-Keeps, refused-Keeps, after}
use lcnc_suite.Gateway.Safety.Sent.{
  sent_but, estop-sent, shutdown-sent, table-sent, jog_stop-sent, jog_stop_multi-sent,
  read_only-sent,
}
use lcnc_suite.Gateway.Safety.Paths.{handle_command-at}
use lcnc_suite.Gateway.Dispatch.{run_handler, handlers, handle_command}

-- Stops: the end of a jog, and the emergency stop.
abbrev pub is_stop : Call → Bool
is_stop (Call.jog_stop _ _) = true
is_stop (Call.state TaskState.estop) = true
is_stop _ = false

run_handler_disarmed :
    (c : Command) (msg : Message) → Keeps (sent_but is_stop) (run_handler c msg false)
unfolding run_handler handlers
run_handler_disarmed Command.arm msg = pure-Keeps _
run_handler_disarmed Command.estop msg = estop-sent is_stop refl
run_handler_disarmed Command.shutdown msg = shutdown-sent is_stop
run_handler_disarmed Command.jog_stop msg = jog_stop-sent is_stop (λ _ _. refl) msg
run_handler_disarmed Command.jog_stop_multi msg = jog_stop_multi-sent is_stop (λ _ _. refl) msg
run_handler_disarmed Command.list_probe_macros msg = pure-Keeps _
run_handler_disarmed Command.get_probe_vars msg = pure-Keeps _
run_handler_disarmed Command.get_wcs_table msg = table-sent is_stop
run_handler_disarmed Command.get_tool_table msg = pure-Keeps _
run_handler_disarmed Command.get_probe_results msg = pure-Keeps _
run_handler_disarmed Command.get_comp_grid msg = pure-Keeps _
run_handler_disarmed (Command.unknown t) msg = pure-Keeps _
run_handler_disarmed _ msg = refused-Keeps _

-- A client that is not armed makes the gateway send nothing to LinuxCNC but stops, whatever it
-- asks for and whatever comes of the calls, in every state of the machine, with a status snapshot
-- or without.
pub handle_command_disarmed :
    (c : Command) (msg : Message) (w : World)
    → sent_but is_stop (after (handle_command c msg false) w) ≡ sent_but is_stop w
handle_command_disarmed c msg w =
    handle_command-at (sent_but is_stop) c msg false w (read_only-sent is_stop c)
      (λ _. (run_handler_disarmed c msg).kept w)
