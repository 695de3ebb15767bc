-- ===== src/Gateway/Guards.antt =====
-- The helpers that every command goes through: polling, blocking calls, and the guards.
use lcnc_suite.Base.{
  String, Bool, true, false, not, ◌&&◌, Option, none, some, List, [], ◌∷◌, if◌then◌else◌, truthy,
}
use lcnc_suite.Value.{permission_error, attribute_error, lcnc_error, Res, ok, raise}
use lcnc_suite.Policy.{is_interp_idle}
use lcnc_suite.Gateway.Machine.{Mode, same_mode, Stat, Call}
use lcnc_suite.Gateway.World.{
  Outcome, returns, incomplete, fails, World, Reply, busy, Act, pure, throw, gets, ◌>>=◌, ◌>>◌,
}

-- `STAT.poll()`: on `None` there is no such attribute; a reading that is `none` is LinuxCNC's error.
unfoldable pub poll_at : Option Stat → List (Option Stat) → Act (Unit {0})
poll_at none _ w = (raise attribute_error, w)
poll_at (some s) [] w = (ok tt, w)
poll_at (some s) (none ∷ later) w = (raise lcnc_error, record w { readings = later })
poll_at (some s) (some t ∷ later) w = (ok tt, record w { stat = some t; readings = later })

unfoldable pub poll : Act (Unit {0})
unfolding poll_at
poll w = poll_at w.stat w.readings w

-- `_cmd_blocking(CMD.f, ...)`: the call is sent, and then it may raise.
unfoldable pub cmd_outcome : List Outcome → World → Res (Unit {0}) × World
cmd_outcome [] w = (ok tt, w)
cmd_outcome (incomplete ∷ later) w = (ok tt, record w { outcomes = later })
cmd_outcome (returns ∷ later) w = (ok tt, record w { outcomes = later })
cmd_outcome (fails ∷ later) w = (raise lcnc_error, record w { outcomes = later })

unfoldable pub cmd_blocking : Call → Act (Unit {0})
unfolding cmd_outcome
cmd_blocking c w = cmd_outcome w.outcomes (record w { calls = c ∷ w.calls })

-- The same, with the test `wait_complete(...) == 0`.
unfoldable pub wait_outcome : List Outcome → World → Res Bool × World
wait_outcome [] w = (ok true, w)
wait_outcome (returns ∷ later) w = (ok true, record w { outcomes = later })
wait_outcome (incomplete ∷ later) w = (ok false, record w { outcomes = later })
wait_outcome (fails ∷ later) w = (raise lcnc_error, record w { outcomes = later })

unfoldable pub cmd_wait : Call → Act Bool
unfolding wait_outcome
cmd_wait c w = wait_outcome w.outcomes (record w { calls = c ∷ w.calls })

-- `safe_get("task_mode", None) == mode`
abbrev pub has_mode : Mode → Option Stat → Bool
has_mode m none = false
has_mode m (some s) = same_mode s.task_mode m

unfoldable pub set_mode : Mode → Act (Unit {0})
set_mode m = do
  poll
  same ← gets (λ w. has_mode m w.stat)
  (if same then pure tt else cmd_blocking (Call.mode m))

-- AUTO, and the interpreter is not idle.
abbrev pub auto_running : Option Stat → Bool
auto_running none = false
auto_running (some s) = same_mode s.task_mode Mode.auto && not (is_interp_idle s.interp_state)

abbrev pub mdi_running : Option Stat → Bool
mdi_running none = false
mdi_running (some s) = same_mode s.task_mode Mode.mdi && not (is_interp_idle s.interp_state)

abbrev pub busy_reply : String → Option Stat → Option Reply
busy_reply text none = none
busy_reply text (some s) = some (busy text s.task_mode s.interp_state)

-- The tests of `reject_if_auto_running` after its poll.
unfoldable pub blocked_by : Option Stat → Option Reply
blocked_by o =
    if auto_running o
    then busy_reply "Busy in AUTO (interpreter not IDLE) — command rejected" o
    else (if mdi_running o then busy_reply "MDI command in progress — command rejected" o else none)

unfoldable pub reject_if_auto_running : Act (Option Reply)
unfolding blocked_by
reject_if_auto_running = poll >> gets (λ w. blocked_by w.stat)

-- `blocked = reject_if_auto_running(); if blocked: return blocked`
unfoldable pub unless_running : Act Reply → Act Reply
unless_running m = reject_if_auto_running >>= λ b. elim b [ some r ↦ pure r | none ↦ m ]

unfoldable pub require_armed : Bool → Act (Unit {0})
require_armed true = pure tt
require_armed false = throw (permission_error "Not armed")

abbrev pub eoffset_text : String
eoffset_text = "Surface compensation active — clear the eoffset before editing work offsets"

unfoldable pub require_no_eoffset : Act (Unit {0})
require_no_eoffset = do
  on ← gets (λ w. truthy w.z_eoffset_enable)
  (if on then throw (permission_error eoffset_text) else pure tt)
