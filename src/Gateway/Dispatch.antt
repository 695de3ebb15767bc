-- ===== src/Gateway/Dispatch.antt =====
-- `_handle_command_impl`: the read-only commands, the checks before the handlers, and the handlers.
use lcnc_suite.Base.{String, Bool, not, Option, none, some, if◌then◌else◌}
use lcnc_suite.Base.Int.{ℤ}
use lcnc_suite.Value.{Message}
use lcnc_suite.Policy.{Command, check_command, policy_state_from_payload, StatusPayload}
use lcnc_suite.Gateway.Machine.{Stat}
use lcnc_suite.Gateway.World.{
  Reply, done, refused, failed, done_tools, other_reply, unknown_command, Act, pure, gets, ◌>>=◌,
  ◌>>◌, or_else,
}
use lcnc_suite.Gateway.Guards.{poll}
use lcnc_suite.Gateway.Jog
use lcnc_suite.Gateway.Power
use lcnc_suite.Gateway.Program
use lcnc_suite.Gateway.Spindle
use lcnc_suite.Gateway.Wcs
use lcnc_suite.Gateway.Tools
use lcnc_suite.Gateway.Vars

abbrev spindle_tool : Option Stat → Option ℤ
spindle_tool none = none
spindle_tool (some s) = some s.tool_in_spindle

-- `get_tool_table`: a poll that raises leaves the current tool unknown.
unfoldable pub current_tool : Act (Option ℤ)
current_tool = or_else (poll >> gets (λ w. spindle_tool w.stat)) (λ _. none)

unfoldable pub get_tool_table : Act Reply
get_tool_table =
    Tools.with_table (do ts ← Tools.parse_tool_table; t ← current_tool; pure (done_tools ts t))

-- Files that are only read, and replies that this model does not spell out.
unfoldable pub read_only : Command → Option (Act Reply)
read_only Command.get_tool_table = some get_tool_table
read_only Command.get_probe_results = some (pure other_reply)
read_only Command.get_comp_grid = some (pure other_reply)
read_only _ = none

-- The handlers, by command.
unfoldable pub run_handler : Command → Message → Bool → Act Reply
run_handler Command.arm msg armed = pure done
run_handler Command.estop msg armed = Power.estop
run_handler Command.estop_reset msg armed = Power.estop_reset armed
run_handler Command.machine_on msg armed = Power.machine_on armed
run_handler Command.machine_off msg armed = Power.machine_off armed
run_handler Command.set_mode msg armed = Power.set_mode_command msg armed
run_handler Command.shutdown msg armed = Power.shutdown
run_handler Command.abort msg armed = Power.abort armed
run_handler Command.mdi msg armed = Program.mdi msg armed
run_handler Command.save_tool msg armed = Tools.save_tool msg armed
run_handler Command.add_tool msg armed = Tools.add_tool msg armed
run_handler Command.delete_tool msg armed = Tools.delete_tool msg armed
run_handler Command.renumber_tool msg armed = Tools.renumber_tool msg armed
run_handler Command.tool_change msg armed = Program.tool_change msg armed
run_handler Command.auto_step msg armed = Program.auto_step armed
run_handler Command.auto_run msg armed = Program.auto_run msg armed
run_handler Command.jog_cont msg armed = Jog.jog_cont msg armed
run_handler Command.jog_stop msg armed = Jog.jog_stop msg
run_handler Command.jog_cont_multi msg armed = Jog.jog_cont_multi msg armed
run_handler Command.jog_stop_multi msg armed = Jog.jog_stop_multi msg
run_handler Command.jog_incr msg armed = Jog.jog_incr msg armed
run_handler Command.jog_incr_multi msg armed = Jog.jog_incr_multi msg armed
run_handler Command.home_all msg armed = Power.home_all armed
run_handler Command.unhome_all msg armed = Power.unhome_all armed
run_handler Command.home msg armed = Power.home msg armed
run_handler Command.unhome msg armed = Power.unhome msg armed
run_handler Command.cycle_start msg armed = Program.cycle_start armed
run_handler Command.cycle_pause msg armed = Program.cycle_pause armed
run_handler Command.cycle_resume msg armed = Program.cycle_resume armed
run_handler Command.set_feed_override msg armed = Power.set_feed_override msg armed
run_handler Command.set_spindle_override msg armed = Power.set_spindle_override msg armed
run_handler Command.spindle_forward msg armed = Spindle.spindle_forward msg armed
run_handler Command.spindle_reverse msg armed = Spindle.spindle_reverse msg armed
run_handler Command.spindle_stop msg armed = Spindle.spindle_stop armed
run_handler Command.spindle_increase msg armed = Spindle.spindle_increase armed
run_handler Command.spindle_decrease msg armed = Spindle.spindle_decrease armed
run_handler Command.flood_on msg armed = Spindle.flood_on armed
run_handler Command.flood_off msg armed = Spindle.flood_off armed
run_handler Command.mist_on msg armed = Spindle.mist_on armed
run_handler Command.mist_off msg armed = Spindle.mist_off armed
run_handler Command.set_rapid_override msg armed = Power.set_rapid_override msg armed
run_handler Command.set_optional_stop msg armed = Power.set_optional_stop msg armed
run_handler Command.set_block_delete msg armed = Power.set_block_delete msg armed
run_handler Command.set_max_velocity msg armed = Power.set_max_velocity msg armed
run_handler Command.load_file msg armed = Program.load_file msg armed
run_handler Command.unload_file msg armed = Program.unload_file armed
run_handler Command.list_probe_macros msg armed = pure other_reply
run_handler Command.set_probe_vars msg armed = Vars.set_probe_vars msg armed
run_handler Command.get_probe_vars msg armed = pure other_reply
run_handler Command.get_wcs_table msg armed = Wcs.table
run_handler Command.clear_wcs msg armed = Wcs.clear_wcs msg armed
run_handler Command.set_wcs msg armed = Wcs.set_wcs msg armed
run_handler Command.get_tool_table msg armed = pure other_reply
run_handler Command.get_probe_results msg armed = pure other_reply
run_handler Command.get_comp_grid msg armed = pure other_reply
run_handler (Command.unknown text) msg armed = pure (unknown_command text)

-- Opens the handlers, and not what they call.
unfoldable pub handlers : Unit {0}
unfolding Jog.jog_cont Jog.jog_cont_multi Jog.jog_incr Jog.jog_incr_multi Jog.jog_stop
    Jog.jog_stop_multi Power.abort Power.estop Power.estop_reset Power.home Power.home_all
    Power.machine_off Power.machine_on Power.set_block_delete Power.set_feed_override
    Power.set_max_velocity Power.set_mode_command Power.set_optional_stop Power.set_rapid_override
    Power.set_spindle_override Power.shutdown Power.unhome Power.unhome_all Program.auto_run
    Program.auto_step Program.cycle_pause Program.cycle_resume Program.cycle_start Program.load_file
    Program.mdi Program.tool_change Program.unload_file Spindle.flood_off Spindle.flood_on
    Spindle.mist_off Spindle.mist_on Spindle.spindle_decrease Spindle.spindle_forward
    Spindle.spindle_increase Spindle.spindle_reverse Spindle.spindle_stop Tools.add_tool
    Tools.delete_tool Tools.renumber_tool Tools.save_tool Vars.set_probe_vars Wcs.clear_wcs
    Wcs.set_wcs Wcs.table
handlers = tt

-- The check against the last status snapshot; without a snapshot it is skipped.
unfoldable pub policy_denies : Command → Bool → Option StatusPayload → Option String
unfolding check_command policy_state_from_payload
policy_denies c armed none = none
policy_denies c armed (some p) = check_command c (policy_state_from_payload p armed)

unfoldable pub guarded : Command → Message → Bool → Act Reply
guarded c msg armed = do
  up ← gets (λ w. w.lcnc_connected)
  denied ← gets (λ w. policy_denies c armed w.shared_status)
  (if not up then pure (refused "LinuxCNC not connected") else (elim denied [
    | some reason ↦ pure (refused reason)
    | none ↦ or_else (run_handler c msg armed) failed
  ]))

unfoldable pub handle_command : Command → Message → Bool → Act Reply
handle_command c msg armed = elim (read_only c) [
  | some m ↦ or_else m failed
  | none ↦ guarded c msg armed
]
