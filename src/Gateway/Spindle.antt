-- ===== src/Gateway/Spindle.antt =====
-- The spindle and coolant commands of `_handle_command_impl`.
use lcnc_suite.Base.{Bool, true, false}
use lcnc_suite.Base.Int.{pos}
use lcnc_suite.Value.{int, Message, get}
use lcnc_suite.Gateway.Machine.{Mode, real, Call}
use lcnc_suite.Gateway.World.{Reply, done, Act, pure, ◌>>=◌, ◌>>◌}
use lcnc_suite.Gateway.Guards.{cmd_blocking, set_mode, require_armed}
use lcnc_suite.Gateway.Jog.{read_float}

-- A spindle command in the manual mode, and a coolant command in any.
abbrev in_manual : Call → Bool → Act Reply
in_manual c armed = do require_armed armed; set_mode Mode.manual; cmd_blocking c; pure done

abbrev in_any_mode : Call → Bool → Act Reply
in_any_mode c armed = require_armed armed >> cmd_blocking c >> pure done

unfoldable pub spindle_forward : Message → Bool → Act Reply
spindle_forward msg armed = do
  require_armed armed
  speed ← read_float (get msg "speed" (int (pos 0)))
  set_mode Mode.manual
  cmd_blocking (Call.spindle_forward (real speed))
  pure done

unfoldable pub spindle_reverse : Message → Bool → Act Reply
spindle_reverse msg armed = do
  require_armed armed
  speed ← read_float (get msg "speed" (int (pos 0)))
  set_mode Mode.manual
  cmd_blocking (Call.spindle_reverse (real speed))
  pure done

unfoldable pub spindle_stop : Bool → Act Reply
spindle_stop = in_manual Call.spindle_off

unfoldable pub spindle_increase : Bool → Act Reply
spindle_increase = in_manual Call.spindle_increase

unfoldable pub spindle_decrease : Bool → Act Reply
spindle_decrease = in_manual Call.spindle_decrease

unfoldable pub flood_on : Bool → Act Reply
flood_on = in_any_mode (Call.flood true)

unfoldable pub flood_off : Bool → Act Reply
flood_off = in_any_mode (Call.flood false)

unfoldable pub mist_on : Bool → Act Reply
mist_on = in_any_mode (Call.mist true)

unfoldable pub mist_off : Bool → Act Reply
mist_off = in_any_mode (Call.mist false)
