-- ===== src/Gateway/Program.antt =====
-- Program execution: MDI, tool change, the cycle commands, run from line, and the file commands.
use text.Mathlib.Text.{◌==◌ as str_eq}
use lcnc_suite.Base.{
  String, Bool, true, false, not, ◌&&◌, ◌||◌, Option, none, some, List, [], ◌∷◌, if◌then◌else◌,
  is_some,
}
use lcnc_suite.Base.Int.{ℤ, pos, eqb_ℤ, ltb_ℤ}
use lcnc_suite.Value.{
  Value, null, bool, int, str, arr, obj, Message, get, truth, is_null, Float, type_error, Res, ok,
  raise,
}
use lcnc_suite.Files.{contains, validate_extension, validate_path_within}
use lcnc_suite.Gateway.Machine.{Mode, Stat, Entry, MdiLine, whole, Call}
use lcnc_suite.Gateway.World.{
  Reply, done, done_path, rfl_started, refused, Phase, queued, Sequence, Act, pure, gets, lift,
  modify, ◌>>=◌, ◌>>◌,
}
use lcnc_suite.Gateway.Guards.{
  poll, cmd_blocking, set_mode, auto_running, unless_running, require_armed,
}
use lcnc_suite.Gateway.Jog.{read_index, read_float, subscript}

abbrev missing_text : Act Reply
missing_text = pure (refused "Missing text")

-- The part of `mdi` behind its guards, by the type of `msg.get("text", "")`.
unfoldable pub mdi_text : Value → Act Reply
mdi_text (str s) = do
  blank ← gets (λ w. w.env.is_blank s)
  (if blank
      then missing_text
      else (set_mode Mode.mdi >> cmd_blocking (Call.mdi (MdiLine.line s)) >> pure done))
mdi_text _ = missing_text

unfoldable pub mdi : Message → Bool → Act Reply
mdi msg armed = require_armed armed >> unless_running (mdi_text (get msg "text" (str "")))

-- `finite_int(msg["tool_number"], lo=0)`: a missing key raises.
unfoldable pub tool_number : Message → Act ℤ
tool_number msg = do read_index (← lift (subscript (obj msg) "tool_number"))

unfoldable pub tool_change : Message → Bool → Act Reply
tool_change msg armed =
    require_armed armed
    >> unless_running do
      t ← tool_number msg
      set_mode Mode.mdi
      cmd_blocking (Call.mdi (MdiLine.change_tool t))
      pure done

-- `bool(safe_get("paused", False))`
abbrev pub is_held : Option Stat → Bool
is_held none = false
is_held (some s) = s.paused

unfoldable pub auto_step : Bool → Act Reply
auto_step armed = do
  require_armed armed
  poll
  held ← gets (λ w. is_held w.stat)
  running ← gets (λ w. auto_running w.stat)
  (if held
      then (cmd_blocking Call.auto_step >> pure done)
      else (if running
          then pure (refused "Cannot step while running — pause first")
          else (set_mode Mode.auto >> cmd_blocking Call.auto_step >> pure done)))

unfoldable pub cycle_start : Bool → Act Reply
cycle_start armed = do
  require_armed armed
  set_mode Mode.auto
  cmd_blocking (Call.auto_run (pos 0))
  pure done

unfoldable pub cycle_pause : Bool → Act Reply
cycle_pause armed = require_armed armed >> cmd_blocking Call.auto_pause >> pure done

unfoldable pub cycle_resume : Bool → Act Reply
cycle_resume armed = require_armed armed >> cmd_blocking Call.auto_resume >> pure done

abbrev pub rfl_wcs_ok : List String
rfl_wcs_ok = "G54" ∷ "G55" ∷ "G56" ∷ "G57" ∷ "G58" ∷ "G59" ∷ "G59.1" ∷ "G59.2" ∷ "G59.3" ∷ []

-- `v if v in texts else None`
abbrev pub text_in : List String → Value → Option String
text_in texts (str s) = if contains texts s then some s else none
text_in texts _ = none

-- The same for a set, whose test hashes `v`: a list or a dict raises.
unfoldable pub hashed_in : List String → Value → Res (Option String)
unfolding contains
hashed_in texts (arr _) = raise type_error
hashed_in texts (obj _) = raise type_error
hashed_in texts v = ok (text_in texts v)

-- `finite_float(v) if v is not None else None`
unfoldable pub optional_float : Value → Act (Option Float)
optional_float v = if is_null v then pure none else (read_float v >>= λ f. pure (some f))

unfoldable pub read_entry : Message → Act Entry
unfolding hashed_in contains
read_entry msg = do
  x ← optional_float (get msg "entry_x" null)
  y ← optional_float (get msg "entry_y" null)
  wcs ← lift (hashed_in rfl_wcs_ok (get msg "entry_wcs" null))
  pure (record {
    x = x;
    y = y;
    wcs = wcs;
    units = text_in ("G20" ∷ "G21" ∷ []) (get msg "entry_units" null);
  })

-- `entry` is given if one of its coordinates is.
unfoldable pub optional_entry : Message → Act (Option Entry)
optional_entry msg =
    if is_null (get msg "entry_x" null) && is_null (get msg "entry_y" null)
    then pure none
    else (read_entry msg >>= λ e. pure (some e))

unfoldable pub rfl_report : Phase → Act (Unit {0})
rfl_report p = modify (λ w. record w { rfl_phase = some p })

abbrev sequence_busy : Reply
sequence_busy = refused "Run-from-line sequence already in progress"

-- The guarded path of `auto_run`: at most one sequence, and it runs as a background task.
unfoldable pub start_sequence : Sequence → Act Reply
start_sequence q = do
  active ← gets (λ w. w.rfl_active)
  (if active
      then pure sequence_busy
      else unless_running (do
        modify (λ w. record w { rfl_active = true })
        rfl_report queued
        modify (λ w. record w { spawned = q ∷ w.spawned })
        pure rfl_started))

abbrev pub is_text : String → Value → Bool
is_text t (str s) = str_eq s t
is_text t _ = false

-- The spindle call of `auto_run` and of `_rfl_sequence`, by the direction.
unfoldable pub turn_spindle : Value → ℤ → Act (Unit {0})
turn_spindle dir speed =
    if is_text "forward" dir
    then cmd_blocking (Call.spindle_forward (whole speed))
    else (if is_text "reverse" dir
        then cmd_blocking (Call.spindle_reverse (whole speed))
        else pure tt)

unfoldable pub start_spindle : Value → ℤ → Act (Unit {0})
start_spindle dir speed =
    if truth dir && ltb_ℤ (pos 0) speed
    then (set_mode Mode.manual >> turn_spindle dir speed)
    else pure tt

unfoldable pub run_at : Value → ℤ → ℤ → Act Reply
run_at dir speed line = do
  start_spindle dir speed
  set_mode Mode.auto
  cmd_blocking (Call.auto_run line)
  pure done

unfoldable pub auto_run : Message → Bool → Act Reply
auto_run msg armed = do
  require_armed armed
  let dir = get msg "spindle_dir" null
  speed ← read_index (get msg "spindle_speed" (int (pos 0)))
  line ← read_index (get msg "line" (int (pos 0)))
  pre_tool ← read_index (get msg "pre_tool" (int (pos 0)))
  entry ← optional_entry msg
  let safe_z = truth (get msg "safe_z" (bool false)) || is_some entry
  let q : Sequence = record {
    start_line = line;
    pre_tool = pre_tool;
    safe_z = safe_z;
    spindle_dir = dir;
    spindle_speed = speed;
    entry = entry;
  }
  if not (eqb_ℤ pre_tool (pos 0)) || safe_z then start_sequence q else run_at dir speed line

abbrev missing_path : Act Reply
missing_path = pure (refused "Missing path")

-- The checks of `load_file` on the absolute path, in the order of the code.
unfoldable pub load_path : String → Act Reply
load_path path = do
  is_file ← gets (λ w. w.env.is_file path)
  within ← gets (λ w. validate_path_within w.env.realpath path w.env.nc_files_dir)
  valid ← gets (λ w. validate_extension w.env.extension path)
  (if not is_file
      then pure (refused "File not found")
      else (if not within
          then pure (refused "File not in NC files directory")
          else (if not valid
              then pure (refused "Invalid file extension")
              else unless_running (do
                set_mode Mode.auto
                cmd_blocking (Call.program_open path)
                pure (done_path path)))))

unfoldable pub load_named : Value → Act Reply
load_named (str s) =
    if str_eq s "" then missing_path else (gets (λ w. w.env.abspath s) >>= load_path)
load_named _ = missing_path

unfoldable pub load_file : Message → Bool → Act Reply
load_file msg armed = require_armed armed >> load_named (get msg "path" (str ""))

unfoldable pub unload_file : Bool → Act Reply
unload_file armed =
    require_armed armed
    >> unless_running do cmd_blocking Call.abort; cmd_blocking Call.reset_interpreter; pure done
