-- ===== src/Compensation.antt =====
-- The surface compensation of subroutines/surfacemap/compensation.py: its states and pins, a tick of
-- the loop of `run`, and the clean-up at its end. What numpy and scipy make of the map, Python's
-- arithmetic and the conversion of a float to a pin are parameters; a pin has one value in a tick.
use lcnc_suite.Base.{
  ℕ, ◌+◌, ◌*◌, ◌^◌, ◌%◌, ◌==◌, Bool, true, false, not, ◌&&◌, ◌||◌, Option, none, some, List, [],
  ◌∷◌, if◌then◌else◌, is_some,
}
use lcnc_suite.Base.Int.{ℤ, pos, eqb_ℤ}
use lcnc_suite.Value.{Float, nan, inf, neg_inf, finite, of_ℕ, lt_float, abs_float, is_zero_float}
mod Offset
mod Disable
mod Examples

pub data State : Type 0 where
  starting idle loadmap running reset stop : State

-- What a tick reads: the pins, the status of the machine, the time of change of the map's file, which
-- is `none` if there is no file, and what `loadMap` and `compensate` do, the latter `none` if it raises.
pub record Tick : Type 0 where
  pub enable_in : Bool
  pub machine_on : Bool
  pub method : ℕ
  pub reload_req : ℕ
  pub resolution : Float
  pub map_time : Option ℕ
  pub map_loads : Bool
  pub compensation : Option Float
  pub fade_height : Float
  pub z_pos : Float
  pub eoffset : Float

-- The pins that are written, and the variables of `run`.
pub record Compensation : Type 0 where
  pub enable_out : Bool
  pub counts : ℤ
  pub clear : Bool
  pub grid_version : ℕ
  pub state : State
  pub prev_state : State
  pub prev_map_time : ℕ
  pub prev_method : ℕ
  pub prev_reload_req : ℕ
  pub prev_resolution : Option Float

-- Arithmetic of floats, and a float as an s32 pin, `none` if the assignment raises.
pub record Arithmetic : Type 0 where
  pub sub : Float → Float → Float
  pub div : Float → Float → Float
  pub mul : Float → Float → Float
  pub to_s32 : Float → Option ℤ

-- The pins of a new component, before the first tick; the variables are set in the first state.
abbrev pub at_start : Compensation
at_start = record {
  enable_out = false;
  counts = pos 0;
  clear = false;
  grid_version = 0;
  state = starting;
  prev_state = stop;
  prev_map_time = 0;
  prev_method = 0;
  prev_reload_req = 0;
  prev_resolution = none;
}

abbrev pub is_reset : State → Bool
is_reset reset = true
is_reset _ = false

abbrev equals : Float → Float → Bool
equals (finite a) (finite b) = eqb_ℤ a b
equals inf inf = true
equals neg_inf neg_inf = true
equals _ _ = false

-- `f != prev`, where `prev` may be `None`
abbrev pub differs : Float → Option Float → Bool
differs f none = true
differs f (some g) = not (equals f g)

-- `abs(eoffset) < 0.0001`
unfoldable pub is_drained : Tick → Bool
is_drained t = lt_float (abs_float t.eoffset) (finite (pos (7378697629483821 * 2 ^ 1008)))

-- `loadMap` and the new grid version, with whether it returns.
unfoldable pub load_map : Tick → Compensation → Bool × Compensation
load_map t s =
    if t.map_loads
    then (true, record s { grid_version = (s.grid_version + 1) % 2 ^ 32 })
    else (false, s)

-- The clean-up of the `finally` block.
unfoldable pub teardown : Compensation → Compensation
teardown s = record s { counts = pos 0; clear = false; enable_out = false }

unfoldable pub on_start : Tick → Compensation → Bool × Compensation
on_start t s = (
  true,
  record s {
    prev_state = starting;
    prev_map_time = 0;
    prev_method = t.method;
    prev_reload_req = t.reload_req;
    prev_resolution = none;
    counts = pos 0;
    state = idle;
  },
)

unfoldable pub on_idle : Tick → Compensation → Bool × Compensation
unfolding load_map
on_idle t s =
    if is_some t.map_time
      && (not (t.method == s.prev_method) || not (t.reload_req == s.prev_reload_req))
    then loaded (load_map t (record s { prev_state = idle }))
    else (true, leave (record s { prev_state = idle }))
  where
    leave : Compensation → Compensation
    leave u = if t.enable_in then record u { state = loadmap } else u

    loaded : Bool × Compensation → Bool × Compensation
    loaded (false, u) = (false, u)
    loaded (true, u) =
        (true, leave (record u { prev_method = t.method; prev_reload_req = t.reload_req }))

unfoldable pub on_loadmap : Tick → Compensation → Bool × Compensation
unfolding load_map
on_loadmap t s = with_file t.map_time
  where
    loaded : ℕ → Bool × Compensation → Bool × Compensation
    loaded m (false, u) = (false, u)
    loaded m (true, u) = (
      true,
      record u {
        prev_map_time = m;
        prev_resolution = some t.resolution;
        prev_method = t.method;
        state = running;
      },
    )

    with_file : Option ℕ → Bool × Compensation
    with_file none = (
      true,
      if t.enable_in
          then record s { prev_state = loadmap }
          else record s { prev_state = loadmap; state = idle },
    )
    with_file (some m) =
        if not (m == s.prev_map_time)
          || (differs t.resolution s.prev_resolution || not (t.method == s.prev_method))
        then loaded m (load_map t (record s { prev_state = loadmap }))
        else (true, record s { prev_state = loadmap; state = running })

-- The first tick zeroes the counts and raises `clear`, a later one lowers it.
unfoldable pub release : Compensation → Compensation
release s = if is_reset s.prev_state then lowered else raised
  where
    raised : Compensation
    raised = record s { prev_state = reset; counts = pos 0; clear = true }

    lowered : Compensation
    lowered = record s { clear = false }

-- The way out of the reset: the offset is gone, or compensation is asked for again.
unfoldable pub leave_reset : Tick → Compensation → Compensation
unfolding is_drained
leave_reset t s =
    if is_drained t
    then record s { enable_out = false; state = idle }
    else (if t.enable_in then record s { state = loadmap } else s)

unfoldable pub on_reset : Tick → Compensation → Bool × Compensation
unfolding release leave_reset
on_reset t s = (true, leave_reset t (release s))

unfoldable pub unless_raised :
    Bool × Compensation → (Compensation → Bool × Compensation) → Bool × Compensation
unless_raised (false, u) f = (false, u)
unless_raised (true, u) f = f u

module _ (py : Arithmetic) where
  -- How much of the compensation is applied at this height.
  unfoldable pub comp_scale : Tick → Float
  comp_scale t =
      if is_zero_float t.fade_height
      then of_ℕ 1
      else (if lt_float t.z_pos t.fade_height then capped else of_ℕ 0)
    where
      faded : Float
      faded = py.div (py.sub t.fade_height t.z_pos) t.fade_height

      capped : Float
      capped = if lt_float (of_ℕ 1) faded then of_ℕ 1 else faded

  -- The counts that are written while compensation runs, `none` where it raises.
  unfoldable pub counts_of : Tick → Option ℤ
  unfolding comp_scale
  counts_of t = if t.machine_on then scaled t.compensation else some (pos 0)
    where
      scaled : Option Float → Option ℤ
      scaled none = none
      scaled (some c) = py.to_s32 (py.mul c (comp_scale t))

  unfoldable pub on_running : Tick → Compensation → Bool × Compensation
  unfolding counts_of
  on_running t s =
      if t.enable_in
      then (if not (t.method == s.prev_method) || differs t.resolution s.prev_resolution
          then (true, record s { prev_state = running; state = loadmap })
          else written (counts_of t))
      else (true, record s { prev_state = running; state = reset })
    where
      written : Option ℤ → Bool × Compensation
      written none = (false, record s { prev_state = running; enable_out = true })
      written (some n) = (true, record s { prev_state = running; enable_out = true; counts = n })

  unfoldable pub in_state : Tick → Compensation → State → Bool × Compensation
  unfolding on_start on_idle on_loadmap on_running on_reset
  in_state t s starting = on_start t s
  in_state t s idle = on_idle t s
  in_state t s loadmap = on_loadmap t s
  in_state t s running = on_running t s
  in_state t s reset = on_reset t s
  in_state t s stop = (true, s)

  -- A tick of the loop, with whether it ends without an exception.
  unfoldable pub step : Tick → Compensation → Bool × Compensation
  unfolding in_state
  step t s = in_state t s s.state

  -- The loop over a sequence of ticks, which ends at an exception.
  unfoldable pub ticks : List Tick → Compensation → Bool × Compensation
  unfolding step unless_raised
  ticks [] s = (true, s)
  ticks (t ∷ ts) s = unless_raised (step t s) (λ u. ticks ts u)

  -- The component until it is stopped or fails.
  unfoldable pub run : List Tick → Compensation
  unfolding ticks teardown
  run ts = teardown (ticks ts at_start).1
