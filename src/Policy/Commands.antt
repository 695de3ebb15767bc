-- ===== src/Policy/Commands.antt =====
-- The commands of the gateway, spelled as the keys of `COMMAND_GATES` and `READ_ONLY_COMMANDS`.
-- `unknown` is any other text.
use lcnc_suite.Base.{String}

pub data Command : Type 0 where
  arm estop estop_reset shutdown abort machine_on machine_off : Command
  set_mode : Command
  jog_cont jog_incr jog_cont_multi jog_incr_multi jog_stop jog_stop_multi : Command
  home home_all unhome unhome_all : Command
  cycle_start auto_run auto_step cycle_pause cycle_resume mdi : Command
  spindle_forward spindle_reverse spindle_stop spindle_increase spindle_decrease : Command
  flood_on flood_off mist_on mist_off : Command
  set_feed_override set_spindle_override set_rapid_override set_max_velocity : Command
  set_block_delete set_optional_stop : Command
  tool_change set_wcs clear_wcs set_probe_vars : Command
  save_tool add_tool delete_tool renumber_tool : Command
  load_file unload_file : Command
  get_tool_table get_probe_results get_comp_grid : Command
  get_probe_vars get_wcs_table list_probe_macros : Command
  unknown : String → Command
