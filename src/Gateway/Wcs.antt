-- ===== src/Gateway/Wcs.antt =====
-- The work offsets: `set_wcs`, `clear_wcs` and `get_wcs_table`.
use text.Mathlib.Text.{◌==◌ as str_eq}
use mathlib.Core.Option
use lcnc_suite.Base.{
  String, ℕ, zero, suc, ◌-◌, Bool, false, Option, none, some, List, [], ◌∷◌, map, if◌then◌else◌,
}
use lcnc_suite.Value.{
  Value, null, str, arr, obj, Message, get, is_null, Float, of_ℕ, to_float, type_error,
  attribute_error, Res, or_raise, ok, raise,
}
use lcnc_suite.Gateway.Machine.{Mode, Stat, MdiLine, Call, Offsets}
use lcnc_suite.Gateway.World.{
  Reply, refused, done_table, invalid_wcs, invalid_target, Act, pure, gets, lift, modify, ◌>>=◌,
  ◌>>◌,
}
use lcnc_suite.Gateway.Guards.{
  poll, cmd_blocking, set_mode, unless_running, require_armed, require_no_eoffset,
}

abbrev pub wcs_keys : List String
wcs_keys = "x" ∷ "y" ∷ "z" ∷ "a" ∷ "b" ∷ "c" ∷ "u" ∷ "v" ∷ "w" ∷ "r" ∷ []

abbrev pub g5x_map : List (String × ℕ)
g5x_map =
    ("G54", 1)
    ∷ ("G55", 2)
    ∷ ("G56", 3)
    ∷ ("G57", 4)
    ∷ ("G58", 5)
    ∷ ("G59", 6)
    ∷ ("G59.1", 7)
    ∷ ("G59.2", 8)
    ∷ ("G59.3", 9)
    ∷ []

unfoldable pub g5x_index : List (String × ℕ) → String → Option ℕ
g5x_index [] t = none
g5x_index ((n, p) ∷ rest) t = let later = g5x_index rest t in if str_eq n t then some p else later

-- `_G5X_MAP[target]` behind `target in _G5X_MAP`: the test hashes the target.
unfoldable pub system_of : Value → Res (Option ℕ)
unfolding g5x_index
system_of (str t) = ok (g5x_index g5x_map t)
system_of (arr _) = raise type_error
system_of (obj _) = raise type_error
system_of _ = ok none

-- `float(val)`
unfoldable pub as_float : Value → Act Float
unfolding to_float
as_float v = do lift (← gets (λ w. to_float w.env.builtins v))

-- The values of the message under the given keys; a null one counts as missing.
unfoldable pub axis_values : Message → List String → Act Offsets
axis_values msg [] = pure []
axis_values msg (k ∷ ks) =
    let rest = axis_values msg ks in
    if is_null (get msg k null)
    then rest
    else (do f ← as_float (get msg k null); fs ← rest; pure ((k, f) ∷ fs))

-- `row[k] = v`
unfoldable pub put : String → Float → Offsets → Offsets
put k v [] = (k, v) ∷ []
put k v ((j, u) ∷ row) =
    let rest = put k v row in if str_eq j k then (k, v) ∷ row else (j, u) ∷ rest

unfoldable pub put_all : Offsets → Offsets → Offsets
unfolding put
put_all [] row = row
put_all ((k, v) ∷ new) row = put_all new (put k v row)

-- The row at an index, changed.
unfoldable pub change_row : ℕ → (Offsets → Offsets) → List Offsets → List Offsets
change_row i f [] = []
change_row zero f (row ∷ rows) = f row ∷ rows
change_row (suc i) f (row ∷ rows) = row ∷ change_row i f rows

unfoldable pub table : Act Reply
table = gets (λ w. done_table w.wcs_cache)

abbrev no_values : Act Reply
no_values = pure (refused "No axis values provided")

-- `set_wcs` from its parts on; `p` is the number of the system, from 1.
unfoldable pub write_system : ℕ → Offsets → Act Reply
write_system p [] = no_values
write_system p (e ∷ es) = do
  set_mode Mode.mdi
  cmd_blocking (Call.mdi (MdiLine.write_offsets p (e ∷ es)))
  modify (λ w. record w { wcs_cache = change_row (p - 1) (put_all (e ∷ es)) w.wcs_cache })
  table

unfoldable pub set_wcs : Message → Bool → Act Reply
set_wcs msg armed =
    require_armed armed
    >> require_no_eoffset
    >> unless_running do
      system ← lift (system_of (get msg "target" null))
      elim system [
        | none ↦ pure (invalid_wcs (get msg "target" null))
        | some p ↦ axis_values msg wcs_keys >>= write_system p
      ]

abbrev pub is_str : String → Value → Bool
is_str t (str s) = str_eq s t
is_str t _ = false

abbrev systems : List ℕ
systems = 1 ∷ 2 ∷ 3 ∷ 4 ∷ 5 ∷ 6 ∷ 7 ∷ 8 ∷ 9 ∷ []

-- `[STAT.g5x_index]`, and an error where `STAT` is `None`.
unfoldable pub active_system : Act (List ℕ)
active_system = do
  lift (← gets (λ w. or_raise (Option.map (λ (s : Stat). s.g5x_index ∷ []) w.stat) attribute_error))

unfoldable pub named_system : Value → Act (Option (List ℕ))
named_system v = do
  system ← lift (system_of v)
  elim system [ none ↦ pure none | some p ↦ pure (some (p ∷ [])) ]

-- The systems that `clear_wcs` is asked to clear.
unfoldable pub cleared_systems : Value → Act (Option (List ℕ))
cleared_systems v =
    if is_str "active" v
    then (poll >> active_system >>= λ ps. pure (some ps))
    else (if is_str "all" v then pure (some systems) else named_system v)

unfoldable pub machine_axes : Act (List String)
machine_axes = do
  lift (← gets (λ w. or_raise (Option.map (λ (s : Stat). s.axes) w.stat) attribute_error))

unfoldable pub clear_each : List String → List ℕ → Act (Unit {0})
clear_each axes [] = pure tt
clear_each axes (p ∷ ps) =
    let rest = clear_each axes ps in cmd_blocking (Call.mdi (MdiLine.zero_offsets p axes)) >> rest

abbrev pub zero_row : Offsets
zero_row = map (λ k. (k, of_ℕ 0)) wcs_keys

-- The update of the cache: an index out of 1 to 9 is passed over.
unfoldable pub zero_rows : List ℕ → List Offsets → List Offsets
unfolding change_row
zero_rows [] rows = rows
zero_rows (zero ∷ ps) rows = zero_rows ps rows
zero_rows (suc i ∷ ps) rows = zero_rows ps (change_row i (λ _. zero_row) rows)

unfoldable pub clear_systems : List ℕ → Act Reply
clear_systems ps = do
  set_mode Mode.mdi
  poll
  axes ← machine_axes
  clear_each axes ps
  modify (λ w. record w { wcs_cache = zero_rows ps w.wcs_cache })
  table

unfoldable pub clear_wcs : Message → Bool → Act Reply
clear_wcs msg armed =
    require_armed armed
    >> unless_running do
      systems ← cleared_systems (get msg "target" (str "active"))
      elim systems [
        | none ↦ pure (invalid_target (get msg "target" (str "active")))
        | some ps ↦ clear_systems ps
      ]
