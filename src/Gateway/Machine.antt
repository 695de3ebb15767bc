-- ===== src/Gateway/Machine.antt =====
-- What the gateway reads from LinuxCNC (`STAT`) and what it sends to it (`CMD`, the HAL socket).
use lcnc_suite.Base.{String, ℕ, Bool, true, false, Option, List}
use lcnc_suite.Base.Int.{ℤ}
use lcnc_suite.Value.{Float}
use lcnc_suite.Policy.{Interp}

pub data Mode : Type 0 where
  manual auto mdi : Mode

abbrev pub same_mode : Mode → Mode → Bool
same_mode Mode.manual Mode.manual = true
same_mode Mode.auto Mode.auto = true
same_mode Mode.mdi Mode.mdi = true
same_mode _ _ = false

pub data TaskState : Type 0 where
  estop estop_reset off on : TaskState

abbrev pub is_on : TaskState → Bool
is_on TaskState.on = true
is_on _ = false

-- The attributes of `linuxcnc.stat` that the commands read.
pub record Stat : Type 0 where
  pub task_mode : Mode
  pub interp_state : Interp
  pub task_state : TaskState
  pub estop : Bool
  pub enabled : Bool
  pub paused : Bool
  pub homed : List Bool
  pub joints : ℕ
  pub tool_in_spindle : ℤ
  pub tool_offset_z : Float
  pub g5x_index : ℕ
  pub axes : List String

-- The `entry` of a run from line: where the program expects to stand.
pub record Entry : Type 0 where
  pub x : Option Float
  pub y : Option Float
  pub wcs : Option String
  pub units : Option String

-- The MDI lines that the gateway composes, by their parts.
pub data MdiLine : Type 0 where
  line : String → MdiLine
  change_tool : ℤ → MdiLine  -- T{n} M6 G43
  measure_tool : ℤ → MdiLine  -- T{n} M600
  set_skip_flag : ℤ → MdiLine  -- #3116={n}
  move_to_safe_z : MdiLine  -- G53 G0 Z0
  enter_at : Entry → MdiLine  -- [units] [wcs] G90 G0 X.. Y..
  zero_offsets : ℕ → List String → MdiLine  -- G10 L2 P{p} X0 Y0 ... R0
  write_offsets : ℕ → List (String × Float) → MdiLine  -- G10 L2 P{p} X.. Y.. R..
  assign : String → MdiLine  -- a chunk of #{k}={v} assignments

-- The speed of a spindle call: an int or a float.
pub data Speed : Type 0 where
  whole : ℤ → Speed
  real : Float → Speed

-- A call of a method of `linuxcnc.command`.
pub data Call : Type 0 where
  state : TaskState → Call
  mode : Mode → Call
  teleop_enable : Bool → Call
  jog_stop : Bool → ℤ → Call
  jog_continuous : Bool → ℤ → Float → Call
  jog_increment : Bool → ℤ → Float → Float → Call
  abort reset_interpreter load_tool_table : Call
  mdi : MdiLine → Call
  home unhome : ℤ → Call
  auto_run : ℤ → Call
  auto_step auto_pause auto_resume : Call
  feedrate rapidrate spindleoverride maxvel : Float → Call
  spindle_forward spindle_reverse : Speed → Call
  spindle_off spindle_increase spindle_decrease : Call
  flood mist set_optional_stop set_block_delete : Bool → Call
  program_open : String → Call

-- A message to the watchdog.
pub data HalMessage : Type 0 where
  connected : Bool → HalMessage
  trip_reset : HalMessage

-- A row of the tool table, as `parse_tool_table` reads it.
pub record Tool : Type 0 where
  pub number : ℤ
  pub pocket : ℤ
  pub x : Float
  pub y : Float
  pub z : Float
  pub diameter : Float
  pub remark : String

-- A row of the cache of work offsets: a value for each axis key, and the rotation "r".
abbrev pub Offsets : Type 0
Offsets = List (String × Float)

-- A line of LinuxCNC's parameter file: at least two words, of which the first is the key, or another.
pub data VarLine : Type 0 where
  entry : String → Float → VarLine
  junk : String → VarLine
  -- a last line that does not end in a newline
  open_entry : String → Float → VarLine
  open_junk : String → VarLine
  -- a line that is printed for a key, whatever the key is, before the file is read again
  appended : String → Float → VarLine
