-- ===== src/Gateway/Samples.antt =====
-- A concrete world and some messages.
use lcnc_suite.Base.{true, false, none, some, List, [], ◌∷◌, String}
use lcnc_suite.Base.Int.{pos}
use lcnc_suite.Value.{str, int, Message, end, field, of_ℕ}
use lcnc_suite.Policy.{Interp, StatusPayload}
use lcnc_suite.Gateway.Machine.{Mode, TaskState, Stat, Call}
use lcnc_suite.Gateway.World.{World, Environment, incomplete, fails, Sequence}
use lcnc_suite.Base.Int.{ℤ}
use lcnc_suite.Gateway.Machine.{Tool, entry}

abbrev pub env : Environment
env = record {
  builtins = record { float_of_int = λ z. some (of_ℕ 1); float_of_text = λ s. none };
  mode_of = λ z. some Mode.manual;
  abspath = λ s. s;
  realpath = λ s. s;
  extension = λ s. ".ngc";
  is_file = λ s. true;
  nc_files_dir = "/home/cnc/nc";
  is_blank = λ s. false;
  text_of = λ v. elim v [ str s ↦ s | _ ↦ "" ];
  has_tool_table = true;
  reread_float = λ f. f;
  has_var_file = true;
  assignment = λ k v. k;
  code_of = λ k. none;
  scan = λ k v. entry k v ∷ [];
  glue = λ l m. [];
  reread_remark = λ s. s;
  further_rows = λ s. [];
}

abbrev pub stat : Stat
stat = record {
  task_mode = Mode.auto;
  interp_state = Interp.waiting;
  task_state = TaskState.on;
  estop = false;
  enabled = true;
  paused = false;
  homed = true ∷ true ∷ true ∷ [];
  joints = 3;
  tool_in_spindle = pos 2;
  tool_offset_z = of_ℕ 0;
  g5x_index = 1;
  axes = "x" ∷ "y" ∷ "z" ∷ [];
}

abbrev pub cutting : StatusPayload
cutting = record {
  estop = some false;
  enabled = some true;
  homed = some true;
  paused = some false;
  interp_state = some Interp.waiting;
  emc_enable_in = some true;
  eoffset_enabled = some false;
}

-- A program runs; the second of the coming calls raises.
abbrev pub world : World
world = record {
  env = env;
  lcnc_connected = true;
  shared_status = some cutting;
  stat = some stat;
  readings = [];
  outcomes = incomplete ∷ fails ∷ [];
  calls = Call.abort ∷ [];
  hal = [];
  estop_hold = false;
  active_jog_axes = (false, pos 0) ∷ [];
  emc_enable_in = some true;
  z_eoffset_enable = none;
  rfl_active = false;
  rfl_phase = none;
  spawned = [];
  tool_file = some [];
  library = [];
  tool_table_version = 0;
  tool_meta_dirty = false;
  wcs_cache = [];
  var_file = none;
  shutdown_signalled = false;
}

abbrev pub program : Message
program = field "text" (str "G0 X1") end

abbrev pub stop_x : Message
stop_x = field "axis" (int (pos 1)) end

-- The interpreter is idle.
abbrev pub idle_world : World
idle_world = record world {
  stat = some (record stat { interp_state = Interp.idle; task_mode = Mode.manual });
  active_jog_axes = (false, pos 1) ∷ (false, pos 0) ∷ [];
}

abbrev pub sequence : Sequence
sequence = record {
  start_line = pos 40;
  pre_tool = pos 3;
  safe_z = true;
  spindle_dir = str "forward";
  spindle_speed = pos 1000;
  entry = none;
}

abbrev pub assignments : List String
assignments = "#3001=1.500000" ∷ "#3002=-0.250000" ∷ []

abbrev pub row : ℤ → Tool
row n = record {
  number = n;
  pocket = n;
  x = of_ℕ 0;
  y = of_ℕ 0;
  z = of_ℕ 50;
  diameter = of_ℕ 6;
  remark = "end mill";
}

abbrev pub shop : World
shop = record idle_world { tool_file = some (row (pos 1) ∷ row (pos 2) ∷ []) }

-- Tool 1 becomes tool 7.
abbrev pub to_seven : Message
to_seven =
    field "old_tool_number" (int (pos 1))
      (field "tool_number" (int (pos 7)) (field "remark" (str "cutter") end))
