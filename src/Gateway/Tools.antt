-- ===== src/Gateway/Tools.antt =====
-- The tool-table commands of `_handle_command_impl`, over lcnc-gateway/tool_table.py. The table is
-- given by its rows; what a printed number or remark is read as is a parameter of the environment.
use lcnc_suite.Base.{
  String, ◌+◌, Bool, true, false, not, ◌&&◌, Option, none, some, List, [], ◌∷◌, ◌++◌, length,
  if◌then◌else◌, ◌==◌,
}
use lcnc_suite.Base.Int.{ℤ, pos, eqb_ℤ, leb_ℤ}
use lcnc_suite.Value.{
  Value, int, float, str, obj, Message, end, find, get, Float, of_ℕ, bound, finite_float, os_error,
  or_raise,
}
use lcnc_suite.Gateway.Machine.{Stat, Tool, Call}
use lcnc_suite.Gateway.World.{
  Environment, Reply, done, refused, done_renumbered, tool_missing, tool_exists, tool_in_use_delete,
  tool_in_use_renumber, Act, pure, gets, lift, modify, ◌>>=◌, ◌>>◌,
}
use lcnc_suite.Gateway.Guards.{poll, cmd_blocking, require_armed}
use lcnc_suite.Gateway.Jog.{read_index, read_float, subscript}
use lcnc_suite.Gateway.Library.{find_meta, drop_meta, put_meta, or_empty, meta_from, change_library}

-- `parse_tool_table(tbl_path)`
unfoldable pub parse_tool_table : Act (List Tool)
parse_tool_table = do lift (← gets (λ w. or_raise w.tool_file os_error))

-- `sorted(tools, key=T)`, which keeps the order of equal keys.
unfoldable pub insert_sorted : Tool → List Tool → List Tool
insert_sorted t [] = t ∷ []
insert_sorted t (u ∷ us) =
    let rest = insert_sorted t us in if leb_ℤ t.number u.number then t ∷ u ∷ us else u ∷ rest

unfoldable pub sort_tools : List Tool → List Tool
unfolding insert_sorted
sort_tools [] = []
sort_tools (t ∷ ts) = insert_sorted t (sort_tools ts)

-- One row of the file, written and read again: X and Y are not written. The remark is printed as it is,
-- so that its lines after the first are lines of the file.
unfoldable pub reread : Environment → Tool → List Tool
reread env t =
    record t {
      x = of_ℕ 0;
      y = of_ℕ 0;
      z = env.reread_float t.z;
      diameter = env.reread_float t.diameter;
      remark = env.reread_remark t.remark;
    }
    ∷ env.further_rows t.remark

unfoldable pub reread_all : Environment → List Tool → List Tool
unfolding reread
reread_all env [] = []
reread_all env (t ∷ ts) = reread env t ++ reread_all env ts

unfoldable pub write_tool_table : List Tool → Act (Unit {0})
write_tool_table ts = modify (λ w. record w { tool_file = some (reread_all w.env (sort_tools ts)) })

-- `_reload_tool_table_and_bump`
unfoldable pub reload_tool_table : Act (Unit {0})
reload_tool_table =
    cmd_blocking Call.load_tool_table
    >> modify (λ w. record w { tool_table_version = w.tool_table_version + 1 })

-- The first row of a number: `next((t for t in tbl_tools if t["T"] == n), None)`.
unfoldable pub find_tool : ℤ → List Tool → Option Tool
find_tool n [] = none
find_tool n (t ∷ ts) = let rest = find_tool n ts in if eqb_ℤ t.number n then some t else rest

-- The same list with its first row of a number replaced.
unfoldable pub replace_tool : ℤ → Tool → List Tool → List Tool
replace_tool n t' [] = []
replace_tool n t' (t ∷ ts) =
    let rest = replace_tool n t' ts in if eqb_ℤ t.number n then t' ∷ ts else t ∷ rest

-- `[t for t in tbl_tools if t["T"] != n]`
unfoldable pub without_tool : ℤ → List Tool → List Tool
without_tool n [] = []
without_tool n (t ∷ ts) =
    let rest = without_tool n ts in if eqb_ℤ t.number n then rest else t ∷ rest

-- `finite_float(v, lo=0)`
unfoldable pub read_length : Value → Act Float
unfolding finite_float
read_length v = do
  lift (← gets (λ w. finite_float w.env.builtins v (of_ℕ 0) (bound (some (pos 0))) none))

unfoldable pub text_of : Value → Act String
text_of v = gets (λ w. w.env.text_of v)

-- `if k in msg: ... else: the old value`
abbrev pub if_given : {A : Type 0} → Message → String → A → (Value → Act A) → Act A
if_given msg k old read = elim (find msg k) [ none ↦ pure old | some v ↦ read v ]

-- The fields of a row that `save_tool` updates.
unfoldable pub updated : Message → Tool → Act Tool
unfolding find
updated msg t = do
  p ← if_given msg "pocket" t.pocket read_index
  z ← if_given msg "z_offset" t.z read_float
  d ← if_given msg "diameter" t.diameter read_length
  r ← if_given msg "remark" t.remark text_of
  pure (record t { pocket = p; z = z; diameter = d; remark = r })

-- The behaviour without a path of the table.
abbrev pub with_table : Act Reply → Act Reply
with_table m = do
  found ← gets (λ w. w.env.has_tool_table)
  (if found then m else pure (refused "Tool table path not available"))

unfoldable pub number_of : Message → String → Act ℤ
number_of msg k = do read_index (← lift (subscript (obj msg) k))

unfoldable pub store_saved : Message → ℤ → List Tool → Tool → Act Reply
store_saved msg n ts t = do
  t' ← updated msg t
  write_tool_table (replace_tool n t' ts)
  reload_tool_table
  change_library (λ lib. put_meta n (meta_from msg (or_empty (find_meta n lib))) lib)
  modify (λ w. record w { tool_meta_dirty = true })
  pure done

unfoldable pub save_tool : Message → Bool → Act Reply
save_tool msg armed = do
  require_armed armed
  n ← number_of msg "tool_number"
  with_table (do
    ts ← parse_tool_table
    elim (find_tool n ts) [ none ↦ pure (tool_missing n) | some t ↦ store_saved msg n ts t ])

-- The row that `add_tool` appends.
unfoldable pub new_tool : Message → ℤ → Act Tool
new_tool msg n = do
  p ← read_index (get msg "pocket" (int n))
  z ← read_float (get msg "z_offset" (float (of_ℕ 0)))
  d ← read_length (get msg "diameter" (float (of_ℕ 0)))
  r ← text_of (get msg "remark" (str ""))
  pure (record { number = n; pocket = p; x = of_ℕ 0; y = of_ℕ 0; z = z; diameter = d; remark = r })

unfoldable pub store_added : Message → ℤ → List Tool → Act Reply
store_added msg n ts = do
  t ← new_tool msg n
  write_tool_table (ts ++ t ∷ [])
  reload_tool_table
  change_library (put_meta n (meta_from msg end))
  pure done

unfoldable pub add_tool : Message → Bool → Act Reply
add_tool msg armed = do
  require_armed armed
  n ← number_of msg "tool_number"
  with_table (do
    ts ← parse_tool_table
    elim (find_tool n ts) [ some t ↦ pure (tool_exists n) | none ↦ store_added msg n ts ])

-- `safe_get("tool_in_spindle", None) == n`
abbrev pub in_spindle : ℤ → Option Stat → Bool
in_spindle n none = false
in_spindle n (some s) = eqb_ℤ s.tool_in_spindle n

unfoldable pub store_deleted : ℤ → Act Reply
store_deleted n = do
  ts ← parse_tool_table
  (if length (without_tool n ts) == length ts then pure (tool_missing n) else (do
    write_tool_table (without_tool n ts)
    reload_tool_table
    change_library (drop_meta n)
    pure done))

unfoldable pub delete_tool : Message → Bool → Act Reply
delete_tool msg armed = do
  require_armed armed
  n ← number_of msg "tool_number"
  poll
  loaded ← gets (λ w. in_spindle n w.stat)
  (if loaded then pure (tool_in_use_delete n) else with_table (store_deleted n))

unfoldable pub is_taken : ℤ → List Tool → Bool
unfolding find_tool
is_taken n ts = elim (find_tool n ts) [ none ↦ false | some _ ↦ true ]

unfoldable pub renumbered : Message → ℤ → Tool → Act Tool
renumbered msg n t = do
  p ← read_index (get msg "pocket" (int n))
  z ← read_float (get msg "z_offset" (float t.z))
  d ← read_length (get msg "diameter" (float t.diameter))
  r ← text_of (get msg "remark" (str t.remark))
  pure (record t { number = n; pocket = p; z = z; diameter = d; remark = r })

unfoldable pub store_renumbered : Message → ℤ → ℤ → List Tool → Tool → Act Reply
store_renumbered msg old new ts t = do
  t' ← renumbered msg new t
  write_tool_table (replace_tool old t' ts)
  reload_tool_table
  change_library
      (λ lib. put_meta new (meta_from msg (or_empty (find_meta old lib))) (drop_meta old lib))
  pure (done_renumbered new)

-- `renumber_tool` from the row that was found on.
unfoldable pub renumber_found : Message → ℤ → ℤ → List Tool → Tool → Act Reply
renumber_found msg old new ts t =
    if not (eqb_ℤ new old) && is_taken new ts then pure (tool_exists new) else (do
      poll
      loaded ← gets (λ w. in_spindle old w.stat)
      (if loaded then pure (tool_in_use_renumber old) else store_renumbered msg old new ts t))

unfoldable pub renumber_tool : Message → Bool → Act Reply
renumber_tool msg armed = do
  require_armed armed
  old ← number_of msg "old_tool_number"
  new ← number_of msg "tool_number"
  with_table (do
    ts ← parse_tool_table
    elim (find_tool old ts) [
      | none ↦ pure (tool_missing old)
      | some t ↦ renumber_found msg old new ts t
    ])
