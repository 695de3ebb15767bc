-- ===== src/Gateway/RunFromLine/Sequence.antt =====
-- `_rfl_sequence` of lcnc-gateway/gateway.py, with the checks between its steps.
use text.Mathlib.Text.{◌==◌ as str_eq}
use lcnc_suite.Base.{
  String, ℕ, ◌*◌, ◌^◌, ◌==◌, Bool, true, false, not, ◌&&◌, ◌||◌, Option, none, some, if◌then◌else◌,
  is_some,
}
use lcnc_suite.Base.Int.{ℤ, pos, eqb_ℤ}
use lcnc_suite.Value.{Float, finite, of_ℕ, half, is_finite, lt_float, abs_float}
use lcnc_suite.Gateway.Machine.{Mode, Stat, Entry, MdiLine, Call}
use lcnc_suite.Gateway.World.{
  Phase, measuring, safe_z, positioning, starting, running, measure_failed, flag_failed,
  safe_z_failed, positioning_failed, failed, Sequence, gets,
}
use lcnc_suite.Gateway.Guards.{poll, cmd_blocking, set_mode}
use lcnc_suite.Gateway.Program.{start_spindle}
use lcnc_suite.Gateway.RunFromLine.{
  Place, Readings, Arithmetic, Run, Step, done, raised, waiting, Task, pure, ◌>>=◌, ◌>>◌, act,
  report, require, arm_flag,
}
use lcnc_suite.Gateway.RunFromLine.Wait.{mdi_step}

-- `abs(tool_offset[2]) <= 1e-9`
abbrev pub is_unapplied : Float → Bool
is_unapplied f =
    is_finite f && not (lt_float (finite (pos (4835703278458517 * 2 ^ 992))) (abs_float f))

-- The measured tool is in the spindle, and its offset is applied.
unfoldable pub is_measured : ℤ → Option Stat → Bool
is_measured n none = false
is_measured n (some st) = eqb_ℤ st.tool_in_spindle n && not (is_unapplied st.tool_offset_z)

-- `pos and abs(pos[2]) > 0.5`, denied
unfoldable pub is_at_zero : Option Place → Bool
is_at_zero none = true
is_at_zero (some p) = not (lt_float half (abs_float p.z))

abbrev pub has_units : String → Option String → Bool
has_units u none = false
has_units u (some v) = str_eq v u

-- The factor from the program's units to the machine's.
unfoldable pub scale : Bool → Entry → Float
scale in_mm e =
    if has_units "G20" e.units && in_mm
    then finite (pos (3574732204225331 * 2 ^ 1027))
    else (if has_units "G21" e.units && not in_mm
        then finite (pos (2836913151099525 * 2 ^ 1018))
        else of_ℕ 1)

-- A step of MDI that must succeed.
unfoldable pub must_do : MdiLine → ℕ → Phase → Task (Unit {0})
must_do text timeout p = mdi_step text timeout >>= require p

unfoldable pub measure : Readings → ℤ → Task (Unit {0})
measure r n = do
  report measuring
  must_do (MdiLine.measure_tool n) 240000 measure_failed
  act poll
  measured ← act (gets (λ w. is_measured n w.stat))
  require measure_failed measured
  require measure_failed (r.errors_before == r.errors_after)
  must_do (MdiLine.set_skip_flag n) 10000 flag_failed
  arm_flag true

unfoldable pub go_to_safe_z : Readings → Task (Unit {0})
go_to_safe_z r = do
  report safe_z
  must_do MdiLine.move_to_safe_z 120000 safe_z_failed
  act poll
  require safe_z_failed (is_at_zero r.at_safe_z)

-- `entry and (entry.get("x") is not None or entry.get("y") is not None)`
abbrev pub has_target : Option Entry → Bool
has_target none = false
has_target (some e) = is_some e.x || is_some e.y

unfoldable pub start_program : ℤ → Task (Unit {0})
start_program start_line = do
  report starting
  act (set_mode Mode.auto)
  act (cmd_blocking (Call.auto_run start_line))
  arm_flag false
  report running

-- `_rfl_active = False`
unfoldable pub unlock : Run → Run
unlock s = record s { world = record (s.world) { rfl_active = false } }

-- The end of the `finally` block after the flag is cleared: if that raises, the lock stays.
unfoldable pub cleared : Step Bool × Run → Step (Unit {0}) × Run
unfolding unlock
cleared (raised e, s) = (raised e, s)
cleared (waiting, s) = (waiting, s)
cleared (_, s) = (done tt, unlock s)

unfoldable pub clean_up : Run → Step (Unit {0}) × Run
unfolding cleared unlock
clean_up s =
    if s.flag_armed
    then cleared (mdi_step (MdiLine.set_skip_flag (pos 0)) 10000 s)
    else (done tt, unlock s)

-- The `except` block, then the `finally` block
unfoldable pub finish : Step (Unit {0}) × Run → Step (Unit {0}) × Run
unfolding clean_up
finish (waiting, s) = (waiting, s)
finish (raised e, s) = clean_up (report failed s).1
finish (_, s) = clean_up s

module _ (py : Arithmetic) where
  -- One axis: where it is, its entry value, and its two offsets.
  unfoldable pub axis_reached : Bool → Float → Float → Option Float → Float → Float → Bool
  axis_reached in_mm factor at none g5x g92 = true
  axis_reached in_mm factor at (some v) g5x g92 =
      let expected = py.add (py.add (py.mul v factor) g5x) g92 in
      let tolerance = if in_mm then half else finite (pos (5764607523034235 * 2 ^ 1016)) in
      not (lt_float tolerance (abs_float (py.sub at expected)))

  -- `_rfl_entry_reached` after its poll
  unfoldable pub entry_reached : Bool → Entry → Option Place → Bool
  unfolding scale axis_reached
  entry_reached in_mm e none = false
  entry_reached in_mm e (some p) =
      axis_reached in_mm (scale in_mm e) p.x e.x p.g5x_x p.g92_x
      && axis_reached in_mm (scale in_mm e) p.y e.y p.g5x_y p.g92_y

  unfoldable pub position : Readings → Entry → Task (Unit {0})
  position r e = do
    report positioning
    must_do (MdiLine.enter_at e) 120000 positioning_failed
    act poll
    require positioning_failed (entry_reached r.in_mm e r.at_entry)

  unfoldable pub position_first : Readings → Option Entry → Task (Unit {0})
  position_first r none = pure tt
  position_first r (some e) = if has_target (some e) then position r e else pure tt

  -- The body of the `try`
  unfoldable pub body : Readings → Sequence → Task (Unit {0})
  body r q = do
    (if eqb_ℤ q.pre_tool (pos 0) then pure tt else measure r q.pre_tool)
    (if q.safe_z then go_to_safe_z r else pure tt)
    position_first r q.entry
    act (start_spindle q.spindle_dir q.spindle_speed)
    start_program q.start_line

  unfoldable pub rfl_sequence : Readings → Sequence → Run → Step (Unit {0}) × Run
  unfolding finish
  rfl_sequence r q s = finish (body r q (record s { flag_armed = false }))
