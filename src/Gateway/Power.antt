-- ===== src/Gateway/Power.antt =====
-- Emergency stop, machine power, mode, homing, and the overrides.
use lcnc_suite.Base.{Bool, true, false, Option, none, some, ◌∷◌, if◌then◌else◌}
use lcnc_suite.Base.Int.{ℤ, pos, negsuc}
use lcnc_suite.Value.{
  Value, bool, int, float, Message, get, truth, Float, of_ℕ, half, max_float, min_float, finite_int,
  finite_float,
}
use lcnc_suite.Policy.{is_false}
use lcnc_suite.Gateway.Machine.{Mode, TaskState, Stat, Call, HalMessage}
use lcnc_suite.Gateway.World.{
  Reply, done, done_scale, done_velocity, refused, invalid_mode, Act, pure, gets, lift, modify,
  ◌>>=◌, ◌>>◌,
}
use lcnc_suite.Gateway.Guards.{poll, cmd_blocking, set_mode, unless_running, require_armed}
use lcnc_suite.Gateway.Jog.{read_float}

unfoldable pub hal_send : HalMessage → Act (Unit {0})
hal_send m = modify (λ w. record w { hal = m ∷ w.hal })

unfoldable pub hold_estop : Bool → Act (Unit {0})
hold_estop b = modify (λ w. record w { estop_hold = b })

unfoldable pub estop : Act Reply
estop = do
  cmd_blocking (Call.state TaskState.estop)
  hold_estop true
  hal_send (HalMessage.connected false)
  pure done

unfoldable pub estop_reset : Bool → Act Reply
estop_reset armed = do
  require_armed armed
  hal_send HalMessage.trip_reset
  cmd_blocking (Call.state TaskState.estop_reset)
  hold_estop false
  hal_send (HalMessage.connected true)
  pure done

-- `safe_get("estop", True)`
abbrev pub estop_or_true : Option Stat → Bool
estop_or_true none = true
estop_or_true (some s) = s.estop

unfoldable pub machine_on : Bool → Act Reply
machine_on armed = do
  require_armed armed
  poll
  stopped ← gets (λ w. estop_or_true w.stat)
  open_chain ← gets (λ w. is_false w.emc_enable_in)
  (if stopped
      then pure (refused "Cannot Machine On while in E-stop")
      else (if open_chain
          then pure (refused "Safety chain is open — cannot turn machine on")
          else (cmd_blocking (Call.state TaskState.on) >> pure done)))

unfoldable pub machine_off : Bool → Act Reply
machine_off armed = require_armed armed >> cmd_blocking (Call.state TaskState.off) >> pure done

unfoldable pub read_int : Value → Act ℤ
unfolding finite_int
read_int v = do lift (← gets (λ w. finite_int w.env.builtins v none none none))

unfoldable pub mode_for : ℤ → Act (Option Mode)
mode_for code = gets (λ w. w.env.mode_of code)

unfoldable pub set_mode_command : Message → Bool → Act Reply
set_mode_command msg armed =
    require_armed armed
    >> unless_running do
      code ← read_int (get msg "mode" (int (pos 0)))
      mode ← mode_for code
      elim mode [ none ↦ pure (invalid_mode code) | some m ↦ set_mode m >> pure done ]

-- The signal goes to the launcher, or to the gateway itself.
unfoldable pub shutdown : Act Reply
shutdown = modify (λ w. record w { shutdown_signalled = true }) >> pure done

unfoldable pub abort : Bool → Act Reply
abort armed = require_armed armed >> cmd_blocking Call.abort >> pure done

-- -1 stands for all joints.
abbrev pub all_joints : ℤ
all_joints = negsuc 0

unfoldable pub home_all : Bool → Act Reply
home_all armed = do
  require_armed armed
  set_mode Mode.manual
  cmd_blocking (Call.home all_joints)
  pure done

unfoldable pub unhome_all : Bool → Act Reply
unhome_all armed = do
  require_armed armed
  set_mode Mode.manual
  cmd_blocking (Call.teleop_enable false)
  cmd_blocking (Call.unhome all_joints)
  pure done

unfoldable pub home : Message → Bool → Act Reply
home msg armed = do
  require_armed armed
  joint ← read_int (get msg "joint" (int all_joints))
  set_mode Mode.manual
  cmd_blocking (Call.home joint)
  pure done

unfoldable pub unhome : Message → Bool → Act Reply
unhome msg armed = do
  require_armed armed
  joint ← read_int (get msg "joint" (int all_joints))
  set_mode Mode.manual
  cmd_blocking (Call.teleop_enable false)
  cmd_blocking (Call.unhome joint)
  pure done

-- `finite_float(msg.get("scale", 1.0), 1.0)`
unfoldable pub read_scale : Message → Act Float
unfolding finite_float
read_scale msg = do
  lift
      (← gets
        (λ w. finite_float w.env.builtins (get msg "scale" (float (of_ℕ 1))) (of_ℕ 1) none none))

-- The body that the three scale overrides share; the clamp and the call are theirs.
abbrev pub override : (Float → Float) → (Float → Call) → Message → Bool → Act Reply
override clamp call msg armed = do
  require_armed armed
  scale ← read_scale msg
  cmd_blocking (call (clamp scale))
  pure (done_scale (clamp scale))

abbrev pub clamp_feed : Float → Float
clamp_feed s = max_float (of_ℕ 0) (min_float (of_ℕ 2) s)

abbrev pub clamp_spindle : Float → Float
clamp_spindle s = max_float half (min_float (of_ℕ 2) s)

abbrev pub clamp_rapid : Float → Float
clamp_rapid s = max_float (of_ℕ 0) (min_float (of_ℕ 1) s)

unfoldable pub set_feed_override : Message → Bool → Act Reply
set_feed_override = override clamp_feed Call.feedrate

unfoldable pub set_spindle_override : Message → Bool → Act Reply
set_spindle_override = override clamp_spindle Call.spindleoverride

unfoldable pub set_rapid_override : Message → Bool → Act Reply
set_rapid_override = override clamp_rapid Call.rapidrate

unfoldable pub set_max_velocity : Message → Bool → Act Reply
set_max_velocity msg armed = do
  require_armed armed
  v ← read_float (get msg "velocity" (float (of_ℕ 0)))
  cmd_blocking (Call.maxvel (max_float (of_ℕ 0) v))
  pure (done_velocity (max_float (of_ℕ 0) v))

unfoldable pub set_optional_stop : Message → Bool → Act Reply
set_optional_stop msg armed = do
  require_armed armed
  cmd_blocking (Call.set_optional_stop (truth (get msg "value" (bool false))))
  pure done

unfoldable pub set_block_delete : Message → Bool → Act Reply
set_block_delete msg armed = do
  require_armed armed
  cmd_blocking (Call.set_block_delete (truth (get msg "value" (bool false))))
  pure done
