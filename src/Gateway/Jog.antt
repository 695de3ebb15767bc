-- ===== src/Gateway/Jog.antt =====
-- The jog commands of `_handle_command_impl`, and the set `_active_jog_axes`.
use lcnc_suite.Base.{String, Bool, true, false, not, ◌&&◌, none, some, List, [], ◌∷◌, if◌then◌else◌}
use lcnc_suite.Base.Int.{ℤ, pos, eqb_ℤ}
use lcnc_suite.Value.{
  Value, null, bool, str, arr, obj, Items, Fields, Message, find, get, truth, Float, of_ℕ, float,
  abs_float, finite_int, finite_float, type_error, key_error, Res, ok, raise, or_raise,
}
use lcnc_suite.Gateway.Machine.{Mode, Call}
use lcnc_suite.Gateway.World.{
  World, Reply, done, Act, pure, gets, lift, modify, ◌>>=◌, ◌>>◌, finally_do,
}
use lcnc_suite.Gateway.Guards.{cmd_blocking, set_mode, auto_running, unless_running, require_armed}

abbrev pub Jog : Type 0
Jog = Bool × ℤ

abbrev pub same_flag : Bool → Bool → Bool
same_flag true true = true
same_flag false false = true
same_flag _ _ = false

abbrev pub same_jog : Jog → Jog → Bool
same_jog (f, a) (g, b) = same_flag f g && eqb_ℤ a b

-- `set.discard`
unfoldable pub discard : Jog → List Jog → List Jog
discard j [] = []
discard j (k ∷ js) = let rest = discard j js in if same_jog j k then rest else k ∷ rest

-- `set.add`; the representation lists each pair once.
unfoldable pub add : Jog → List Jog → List Jog
unfolding discard
add j js = j ∷ discard j js

unfoldable pub mark_jog_started : Bool → ℤ → World → World
unfolding add
mark_jog_started flag axis w = record w { active_jog_axes = add (flag, axis) w.active_jog_axes }

unfoldable pub mark_jog_stopped : Bool → ℤ → World → World
unfolding discard
mark_jog_stopped flag axis w = record w { active_jog_axes = discard (flag, axis) w.active_jog_axes }

unfoldable pub mark_all_jogs_stopped : World → World
mark_all_jogs_stopped w = record w { active_jog_axes = [] }

-- `finite_int(v, lo=0)` and `finite_float(v)`, with the built-ins of the world.
unfoldable pub read_index : Value → Act ℤ
unfolding finite_int
read_index v = do lift (← gets (λ w. finite_int w.env.builtins v none (some (pos 0)) none))

unfoldable pub read_float : Value → Act Float
unfolding finite_float
read_float v = do lift (← gets (λ w. finite_float w.env.builtins v (of_ℕ 0) none none))

-- `bool(msg.get("joint", False))`
abbrev pub joint_flag : Message → Bool
joint_flag msg = truth (get msg "joint" (bool false))

-- The flag of a jog: the teleop mode is the opposite of a joint jog.
unfoldable pub prepare_jog_mode : Message → Act Bool
prepare_jog_mode msg = do
  set_mode Mode.manual
  cmd_blocking (Call.teleop_enable (not (joint_flag msg)))
  pure (joint_flag msg)

-- `e[k]`
unfoldable pub subscript : Value → String → Res Value
unfolding find
subscript (obj fs) k = or_raise (find fs k) key_error
subscript _ k = raise type_error

abbrev pub elements : Items → List Value
elements Items.nil = []
elements (Items.cons v vs) = v ∷ elements vs

abbrev pub keys : Fields → List Value
keys Fields.end = []
keys (Fields.field k v fs) = str k ∷ keys fs

abbrev pub characters : String → List Value
characters String.[] = []
characters (String.◌∷◌ c s) = str (String.◌∷◌ c String.[]) ∷ characters s

-- What `for e in v` goes through.
unfoldable pub iterate : Value → Res (List Value)
iterate (arr vs) = ok (elements vs)
iterate (obj fs) = ok (keys fs)
iterate (str s) = ok (characters s)
iterate _ = raise type_error

unfoldable pub for_each : (Value → Act (Unit {0})) → List Value → Act (Unit {0})
for_each body [] = pure tt
for_each body (v ∷ vs) = let rest = for_each body vs in body v >> rest

unfoldable pub jog_cont : Message → Bool → Act Reply
jog_cont msg armed =
    require_armed armed
    >> unless_running do
      axis ← read_index (get msg "axis" null)
      vel ← read_float (get msg "vel" (float (of_ℕ 0)))
      jf ← prepare_jog_mode msg
      cmd_blocking (Call.jog_continuous jf axis vel)
      modify (mark_jog_started jf axis)
      pure done

-- The `try`/`finally` of the two stop commands.
unfoldable pub stop_axis : Bool → ℤ → Act (Unit {0})
stop_axis jf axis = finally_do (cmd_blocking (Call.jog_stop jf axis)) (mark_jog_stopped jf axis)

unfoldable pub jog_stop : Message → Act Reply
jog_stop msg = do
  busy ← gets (λ w. auto_running w.stat)
  (if busy
      then pure done
      else (do axis ← read_index (get msg "axis" null); stop_axis (joint_flag msg) axis; pure done))

-- One round of the loop of `jog_cont_multi`.
unfoldable pub start_entry : Bool → Value → Act (Unit {0})
start_entry jf entry = do
  axis ← read_index (← lift (subscript entry "axis"))
  vel ← read_float (← lift (subscript entry "vel"))
  cmd_blocking (Call.jog_continuous jf axis vel)
  modify (mark_jog_started jf axis)

unfoldable pub jog_cont_multi : Message → Bool → Act Reply
jog_cont_multi msg armed =
    require_armed armed
    >> unless_running do
      jf ← prepare_jog_mode msg
      axes ← lift (iterate (get msg "axes" (arr Items.nil)))
      for_each (start_entry jf) axes
      pure done

unfoldable pub stop_entry : Bool → Value → Act (Unit {0})
stop_entry jf a = read_index a >>= stop_axis jf

unfoldable pub jog_stop_multi : Message → Act Reply
jog_stop_multi msg = do
  busy ← gets (λ w. auto_running w.stat)
  (if busy then pure done else (do
    axes ← lift (iterate (get msg "axes" (arr Items.nil)))
    for_each (stop_entry (joint_flag msg)) axes
    pure done))

unfoldable pub jog_incr : Message → Bool → Act Reply
jog_incr msg armed =
    require_armed armed
    >> unless_running do
      axis ← read_index (get msg "axis" null)
      vel ← read_float (get msg "vel" (float (of_ℕ 0)))
      dist ← read_float (get msg "distance" (float (of_ℕ 0)))
      jf ← prepare_jog_mode msg
      cmd_blocking (Call.jog_increment jf axis (abs_float vel) dist)
      pure done

unfoldable pub step_entry : Bool → Value → Act (Unit {0})
step_entry jf entry = do
  axis ← read_index (← lift (subscript entry "axis"))
  vel ← read_float (← lift (subscript entry "vel"))
  dist ← read_float (← lift (subscript entry "distance"))
  cmd_blocking (Call.jog_increment jf axis (abs_float vel) dist)

unfoldable pub jog_incr_multi : Message → Bool → Act Reply
jog_incr_multi msg armed =
    require_armed armed
    >> unless_running do
      jf ← prepare_jog_mode msg
      axes ← lift (iterate (get msg "axes" (arr Items.nil)))
      for_each (step_entry jf) axes
      pure done
