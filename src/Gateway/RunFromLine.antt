-- ===== src/Gateway/RunFromLine.antt =====
-- The background task of a run from line in lcnc-gateway/gateway.py: what it reads beside the world of
-- the commands, and its monad. Times are milliseconds of one clock. The lock that it takes for each
-- call, and the texts of its failures, are left out.
use lcnc_suite.Base.{ℕ, Bool, true, false, Option, List}
use lcnc_suite.Value.{Float, Exn, Res, ok, raise}
use lcnc_suite.Gateway.World.{World, Act, Phase, modify}
use lcnc_suite.Gateway.Program.{rfl_report}
pub mod Wait
pub mod Sequence
mod Sends
mod Plan
mod Order
mod Checks
mod Idle
mod Examples

-- Position and offsets of X, Y and Z after a poll: `position`, `g5x_offset` and `g92_offset`.
pub record Place : Type 0 where
  pub x : Float
  pub y : Float
  pub z : Float
  pub g5x_x : Float
  pub g5x_y : Float
  pub g92_x : Float
  pub g92_y : Float

-- What the sequence reads of the machine beside the world: the number of errors before and after the
-- measurement, and the places after the move to safe height and after the entry move, `none` where
-- there is no position.
pub record Readings : Type 0 where
  pub errors_before : ℕ
  pub errors_after : ℕ
  pub at_safe_z : Option Place
  pub at_entry : Option Place
  pub in_mm : Bool

-- Arithmetic of floats.
pub record Arithmetic : Type 0 where
  pub add : Float → Float → Float
  pub sub : Float → Float → Float
  pub mul : Float → Float → Float

-- `moments` are the times that the clock will show when it is read; past their end the task waits.
pub record Run : Type 0 where
  pub world : World
  pub moments : List ℕ
  pub flag_armed : Bool

-- How a part of the task ends: with a value, by an early return, by an exception, or not yet.
pub data Step (A : Type 0) : Type 0 where
  done : A → Step A
  returned : Step A
  raised : Exn → Step A
  waiting : Step A

abbrev pub Task : Type 0 → Type 0
Task A = Run → Step A × Run

unfoldable pub pure : {A : Type 0} → A → Task A
pure a s = (done a, s)

unfoldable pub stop : {A : Type 0} → Task A
stop s = (returned, s)

unfoldable pub bind_step : {A B : Type 0} → Step A × Run → (A → Task B) → Step B × Run
bind_step (done a, s) f = f a s
bind_step (returned, s) f = (returned, s)
bind_step (raised e, s) f = (raised e, s)
bind_step (waiting, s) f = (waiting, s)

infixl 5 ◌>>=◌
infixr 4 ◌>>◌
unfoldable pub ◌>>=◌ : {A B : Type 0} → Task A → (A → Task B) → Task B
unfolding bind_step
(m >>= f) s = bind_step (m s) f

abbrev pub ◌>>◌ : {A B : Type 0} → Task A → Task B → Task B
m >> k = m >>= λ _. k

unfoldable pub of_result : {A : Type 0} → Run → Res A × World → Step A × Run
of_result s (ok a, w) = (done a, record s { world = w })
of_result s (raise e, w) = (raised e, record s { world = w })

-- A part of a command
unfoldable pub act : {A : Type 0} → Act A → Task A
unfolding of_result
act m s = of_result s (m s.world)

-- `_rfl_phase`
unfoldable pub report : Phase → Task (Unit {0})
report p = act (rfl_report p)

-- `if not ok: _rfl_phase(phase, False, ...); return`
unfoldable pub require : Phase → Bool → Task (Unit {0})
require p true = pure tt
require p false = report p >> stop

unfoldable pub arm_flag : Bool → Task (Unit {0})
arm_flag b s = (done tt, record s { flag_armed = b })
