-- ===== src/Gateway/Safety/Running.antt =====
-- What the gateway sends while a program runs.
use lcnc_suite.Base.{◌≡◌, refl, ◌≢◌, Bool, true, false, some}
use lcnc_suite.Value.{Message}
use lcnc_suite.Policy.{Command, Interp, interp_or_idle, StatusPayload, policy_state_from_payload}
use lcnc_suite.Policy.Running.{spares_program, check_command_running}
use lcnc_suite.Gateway.Machine.{Call}
use lcnc_suite.Gateway.World.{World}
use lcnc_suite.Gateway.Guards.{cmd_blocking}
use lcnc_suite.Gateway.Frame.{Keeps, shapes, pure-Keeps, after}
use lcnc_suite.Gateway.Safety.Sent.{
  sent_but, cmd_blocking-sent, estop-sent, shutdown-sent, table-sent, jog_stop-sent, hal_send-sent,
  hold_estop-sent, read_float-sent, poll-sent, jog_stop_multi-sent, read_only-sent,
}
use lcnc_suite.Gateway.Safety.Paths.{handle_command-at}
use lcnc_suite.Gateway.Power
use lcnc_suite.Gateway.Dispatch.{run_handler, handlers, policy_denies, handle_command}

-- The calls that may go out while a program runs: the end of a jog, the abort and the pause, the
-- overrides, the two switches, and the state of the machine, on and reset of the stop included.
abbrev pub is_sparing : Call → Bool
is_sparing (Call.state _) = true
is_sparing (Call.jog_stop _ _) = true
is_sparing Call.abort = true
is_sparing Call.auto_pause = true
is_sparing (Call.feedrate _) = true
is_sparing (Call.rapidrate _) = true
is_sparing (Call.spindleoverride _) = true
is_sparing (Call.maxvel _) = true
is_sparing (Call.set_optional_stop _) = true
is_sparing (Call.set_block_delete _) = true
is_sparing _ = false

cmd-spared : (c : Call) → is_sparing c ≡ true → Keeps (sent_but is_sparing) (cmd_blocking c)
cmd-spared = cmd_blocking-sent is_sparing

read_scale-spared : (msg : Message) → Keeps (sent_but is_sparing) (Power.read_scale msg)
unfolding Power.read_scale
read_scale-spared msg = search shapes

ruleset spared = (
  shapes, cmd-spared, estop-sent, hal_send-sent, hold_estop-sent, read_float-sent, poll-sent,
  read_scale-spared,
)

run_handler_spares :
    (c : Command) (msg : Message) (armed : Bool)
    → spares_program c ≡ true
    → Keeps (sent_but is_sparing) (run_handler c msg armed)
unfolding run_handler handlers spares_program
run_handler_spares Command.arm msg armed h = pure-Keeps _
run_handler_spares Command.estop msg armed h = estop-sent is_sparing refl
run_handler_spares Command.shutdown msg armed h = shutdown-sent is_sparing
run_handler_spares Command.jog_stop msg armed h = jog_stop-sent is_sparing (λ _ _. refl) msg
run_handler_spares Command.jog_stop_multi msg armed h =
    jog_stop_multi-sent is_sparing (λ _ _. refl) msg
run_handler_spares Command.get_wcs_table msg armed h = table-sent is_sparing
run_handler_spares Command.list_probe_macros msg armed h = pure-Keeps _
run_handler_spares Command.get_probe_vars msg armed h = pure-Keeps _
run_handler_spares Command.get_tool_table msg armed h = pure-Keeps _
run_handler_spares Command.get_probe_results msg armed h = pure-Keeps _
run_handler_spares Command.get_comp_grid msg armed h = pure-Keeps _
run_handler_spares (Command.unknown t) msg armed h = pure-Keeps _
run_handler_spares Command.estop_reset msg armed h = search spared depth 12
run_handler_spares Command.machine_on msg armed h = search spared depth 14
run_handler_spares Command.machine_off msg armed h = search spared depth 8
run_handler_spares Command.abort msg armed h = search spared depth 8
run_handler_spares Command.cycle_pause msg armed h = search spared depth 8
run_handler_spares Command.set_feed_override msg armed h = search spared depth 8
run_handler_spares Command.set_spindle_override msg armed h = search spared depth 8
run_handler_spares Command.set_rapid_override msg armed h = search spared depth 8
run_handler_spares Command.set_max_velocity msg armed h = search spared depth 8
run_handler_spares Command.set_optional_stop msg armed h = search spared depth 8
run_handler_spares Command.set_block_delete msg armed h = search spared depth 8
run_handler_spares _ msg armed h = cc

-- While the last status snapshot shows an active, unpaused program, no command of any client makes
-- the gateway send a call to LinuxCNC but the end of a jog, an abort, a pause, an override, one of the
-- two switches, or a change of the state of the machine (on, off, the emergency stop and its reset),
-- however the machine has moved on since.
pub handle_command_running :
    (c : Command) (msg : Message) (armed : Bool) (w : World) (p : StatusPayload)
    → w.shared_status ≡ some p
    → interp_or_idle p.interp_state ≢ Interp.idle
    → (policy_state_from_payload p armed).is_paused ≡ false
    → sent_but is_sparing (after (handle_command c msg armed) w) ≡ sent_but is_sparing w
unfolding policy_denies
handle_command_running c msg armed w p seen busy unpaused =
    handle_command-at (sent_but is_sparing) c msg armed w (read_only-sent is_sparing c) (λ passed.
      (run_handler_spares c msg armed
          (check_command_running c p armed busy unpaused (rw (seen, policy_denies) at passed))).kept
        w)
