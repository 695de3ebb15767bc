-- ===== src/Gateway/RunFromLine/Wait.antt =====
-- `_rfl_wait_interp_idle` and `_rfl_mdi_step` of lcnc-gateway/gateway.py.
use lcnc_suite.Base.{
  ℕ, ◌+◌, ltb, Bool, true, false, not, ◌||◌, Option, none, some, List, [], ◌∷◌, if◌then◌else◌,
}
use lcnc_suite.Value.{Res, ok, raise}
use lcnc_suite.Policy.{is_interp_idle}
use lcnc_suite.Gateway.Machine.{Mode, Stat, is_on, MdiLine, Call}
use lcnc_suite.Gateway.World.{World, Reply}
use lcnc_suite.Gateway.Guards.{poll, cmd_blocking, set_mode, reject_if_auto_running}
use lcnc_suite.Gateway.RunFromLine.{Run, Step, done, waiting, Task, pure, ◌>>=◌, ◌>>◌, act}

-- The interpreter's grace for an instant command: `grace_s`.
abbrev pub grace : ℕ
grace = 2000

-- What a round of the wait sees: the wait ends, or another round follows, with `started`.
pub data Seen : Type 0 where
  ends : Bool → Seen
  goes_on : Bool → Seen

-- The tests of a round after its poll, at `now`, for a wait that began at `t0`.
unfoldable pub judge : ℕ → ℕ → Bool → Res (Unit {0}) → Option Stat → Seen
judge t0 now started (raise e) st = ends false
judge t0 now started (ok u) none = ends false
judge t0 now started (ok u) (some st) =
    if not (is_on st.task_state)
    then ends false
    else (if not (is_interp_idle st.interp_state)
        then goes_on true
        else (if started || ltb (t0 + grace) now then ends true else goes_on started))

unfoldable pub follow : Run → Seen → (Bool → Run → Step Bool × Run) → Step Bool × Run
follow s (ends b) again = (done b, s)
follow s (goes_on b) again = again b s

-- A round, from what its poll gives and the times that remain.
unfoldable pub round :
    ℕ
    → ℕ
    → List ℕ
    → Bool
    → Run
    → Res (Unit {0}) × World
    → (Bool → Run → Step Bool × Run)
    → Step Bool × Run
unfolding judge follow
round t0 now later started s (r, w) again =
    follow (record s { world = w; moments = later }) (judge t0 now started r w.stat) again

-- The rounds of the loop, one for each time that the clock shows.
unfoldable pub wait_rounds : ℕ → ℕ → List ℕ → Bool → Run → Step Bool × Run
unfolding round
wait_rounds t0 deadline [] started s = (waiting, record s { moments = [] })
wait_rounds t0 deadline (now ∷ later) started s =
    if ltb now deadline
    then round t0 now later started s (poll s.world) (λ b u. wait_rounds t0 deadline later b u)
    else (done false, record s { moments = later })

-- The wait, from the times that the clock will show: the first is its start.
unfoldable pub wait_from : ℕ → Run → List ℕ → Step Bool × Run
unfolding wait_rounds
wait_from timeout s [] = (waiting, s)
wait_from timeout s (t0 ∷ later) = wait_rounds t0 (t0 + timeout) later false s

-- `_rfl_wait_interp_idle`, with its `ok`
unfoldable pub wait_interp_idle : ℕ → Task Bool
unfolding wait_from
wait_interp_idle timeout s = wait_from timeout s s.moments

-- `_rfl_mdi_step`, with its `ok`, after the test that nothing else runs
unfoldable pub dispatch : MdiLine → ℕ → Option Reply → Task Bool
dispatch text timeout (some blocked) = pure false
dispatch text timeout none =
    act (set_mode Mode.mdi) >> (act (cmd_blocking (Call.mdi text)) >> wait_interp_idle timeout)

unfoldable pub mdi_step : MdiLine → ℕ → Task Bool
unfolding dispatch
mdi_step text timeout = act reject_if_auto_running >>= dispatch text timeout
