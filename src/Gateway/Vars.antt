-- ===== src/Gateway/Vars.antt =====
-- `set_probe_vars`: the parameter file (`write_var_file_updates` of status_runtime.py), and the
-- assignments sent to the interpreter in chunks.
use Prim.Native.String
use Prim.Native.String.{count}
use text.Mathlib.Text.{◌==◌ as str_eq}
use lcnc_suite.Base.{
  String, ℕ, ◌+◌, ltb, leb, Bool, true, false, not, ◌&&◌, Option, none, some, List, [], ◌∷◌, ◌++◌,
  map, if◌then◌else◌,
}
use lcnc_suite.Value.{
  Value, obj, Message, Fields, end, field, get, Float, os_error, or_raise, ok, raise,
}
use lcnc_suite.Gateway.Machine.{
  Mode, Stat, MdiLine, Call, VarLine, entry, junk, open_entry, open_junk, appended,
}
use lcnc_suite.Gateway.World.{
  Environment, Reply, refused, done_vars, Act, pure, gets, lift, modify, attempt, or_else, ◌>>=◌,
  ◌>>◌,
}
use lcnc_suite.Gateway.Guards.{poll, cmd_wait, set_mode, reject_if_auto_running, require_armed}
use lcnc_suite.Gateway.Wcs.{as_float}

abbrev pub Vars : Type 0
Vars = List (String × Float)

unfoldable pub find_var : String → Vars → Option Float
find_var k [] = none
find_var k ((j, v) ∷ vs) = let rest = find_var k vs in if str_eq j k then some v else rest

-- The first loop of `write_var_file_updates`: every line of a key gets its new value.
unfoldable pub update_line : Vars → VarLine → VarLine
unfolding find_var
update_line vars (junk t) = junk t
update_line vars (entry k v) = elim (find_var k vars) [ none ↦ entry k v | some u ↦ entry k u ]
update_line vars (open_junk t) = open_junk t
update_line vars (open_entry k v) = elim (find_var k vars) [
  | none ↦ open_entry k v
  | some u ↦ entry k u
]
update_line vars (appended k v) = appended k v

unfoldable pub has_key : String → List VarLine → Bool
has_key k [] = false
has_key k (junk t ∷ ls) = has_key k ls
has_key k (entry j v ∷ ls) = let rest = has_key k ls in if str_eq j k then true else rest
has_key k (open_junk t ∷ ls) = has_key k ls
has_key k (open_entry j v ∷ ls) = let rest = has_key k ls in if str_eq j k then true else rest
has_key k (appended j v ∷ ls) = let rest = has_key k ls in if str_eq j k then true else rest

-- The updates whose key no line has.
unfoldable pub missing_vars : List VarLine → Vars → Vars
unfolding has_key
missing_vars ls [] = []
missing_vars ls ((k, v) ∷ vs) =
    let rest = missing_vars ls vs in if has_key k ls then rest else (k, v) ∷ rest

-- `_var_key`: 999999 for a line that has no number.
abbrev pub or_last : Option ℕ → ℕ
or_last none = 999999
or_last (some n) = n

abbrev pub var_key : (String → Option ℕ) → VarLine → ℕ
var_key code (entry k v) = or_last (code k)
var_key code (junk t) = or_last (code t)
var_key code (open_entry k v) = or_last (code k)
var_key code (open_junk t) = or_last (code t)
var_key code (appended k v) = or_last (code k)

unfoldable pub insert_line : (String → Option ℕ) → VarLine → List VarLine → List VarLine
insert_line code l [] = l ∷ []
insert_line code l (m ∷ ms) =
    let rest = insert_line code l ms in
    if leb (var_key code l) (var_key code m) then l ∷ m ∷ ms else m ∷ rest

unfoldable pub sort_lines : (String → Option ℕ) → List VarLine → List VarLine
unfolding insert_line
sort_lines code [] = []
sort_lines code (l ∷ ls) = insert_line code l (sort_lines code ls)

abbrev pub as_line : String × Float → VarLine
as_line (k, v) = appended k v

-- The lines are sorted only if some are appended.
unfoldable pub append_missing : (String → Option ℕ) → Vars → List VarLine → List VarLine
unfolding sort_lines
append_missing code [] ls = ls
append_missing code (m ∷ ms) ls = sort_lines code (ls ++ map as_line (m ∷ ms))

-- `"".join(lines)`, by the lines that it is read as
unfoldable pub join_lines : Environment → List VarLine → List VarLine
join_lines env [] = []
join_lines env (entry k v ∷ ls) = entry k v ∷ join_lines env ls
join_lines env (junk t ∷ ls) = junk t ∷ join_lines env ls
join_lines env (appended k v ∷ ls) = env.scan k v ++ join_lines env ls
join_lines env (open_entry k v ∷ []) = open_entry k v ∷ []
join_lines env (open_entry k v ∷ l ∷ ls) = env.glue (open_entry k v) l ++ join_lines env ls
join_lines env (open_junk t ∷ []) = open_junk t ∷ []
join_lines env (open_junk t ∷ l ∷ ls) = env.glue (open_junk t) l ++ join_lines env ls

unfoldable pub write_var_file_updates : Environment → Vars → List VarLine → List VarLine
unfolding update_line missing_vars append_missing join_lines
write_var_file_updates env vars ls =
    join_lines env (append_missing env.code_of (missing_vars ls vars) (map (update_line vars) ls))

-- `{str(k): float(v) for k, v in vars_to_set.items()}`; the keys of a decoded object are texts.
unfoldable pub float_vars : Fields → Act Vars
float_vars end = pure []
float_vars (field k v fs) =
    let rest = float_vars fs in (do f ← as_float v; vs ← rest; pure ((k, f) ∷ vs))

abbrev printed : Environment → String × Float → String × Float
printed env (k, v) = (k, env.reread_float v)

unfoldable pub save_vars : Vars → Act (Unit {0})
save_vars vars = do
  ls ← lift (← gets (λ w. or_raise w.var_file os_error))
  modify (λ w. record w {
    var_file = some (write_var_file_updates w.env (map (printed w.env) vars) ls);
  })

-- Step 1: the file, if the INI names one. The result is `file_ok`.
unfoldable pub save_to_file : Fields → Act Bool
save_to_file fs = do
  found ← gets (λ w. w.env.has_var_file)
  (if found then (float_vars fs >>= λ vars. save_vars vars >> pure true) else pure false)

abbrev pub space : String
space = " "

-- The chunking loop: `current` is the chunk that is being filled. An item has no blank at its ends,
-- so the `strip` of the code changes nothing.
unfoldable pub chunks_from : String → List String → List String
chunks_from current [] = if str_eq current "" then [] else current ∷ []
chunks_from current (item ∷ items) =
    let close = current ∷ chunks_from item items in
    let fill =
      chunks_from (if str_eq current "" then item else String.◌++◌ current (String.◌++◌ space item))
        items in
    if not (str_eq current "") && ltb 250 (count current + 1 + count item) then close else fill

unfoldable pub chunks : List String → List String
unfolding chunks_from
chunks = chunks_from ""

-- The loop that sends the chunks, with `mdi_ok`, which stays as it was where a call raises.
unfoldable pub send_chunks : Bool → List String → Act Bool
send_chunks mdi_ok [] = pure mdi_ok
send_chunks mdi_ok (c ∷ cs) =
    attempt (cmd_wait (Call.mdi (MdiLine.assign c)))
      (λ r. elim r [ ok good ↦ send_chunks (mdi_ok && good) cs | raise e ↦ pure mdi_ok ])

abbrev items : Environment → Vars → List String
items env = map (λ (kv : String × Float). env.assignment kv.0 kv.1)

-- The `try` of step 2: an exception before the first chunk leaves `mdi_ok` false.
unfoldable pub send_vars : Fields → Act Bool
send_vars fs =
    or_else
      (do
        vars ← float_vars fs
        texts ← gets (λ w. chunks (items w.env vars))
        set_mode Mode.mdi
        send_chunks true texts)
      (λ _. false)

abbrev pub is_enabled : Option Stat → Bool
is_enabled none = false
is_enabled (some s) = s.enabled

-- Step 2: the interpreter's memory, on a machine that is on and not busy.
unfoldable pub set_in_memory : Bool → Fields → Act Bool
set_in_memory armed fs = do
  poll
  on ← gets (λ w. armed && is_enabled w.stat)
  (if on
      then (reject_if_auto_running >>= λ b. elim b [ some _ ↦ pure false | none ↦ send_vars fs ])
      else pure false)

unfoldable pub set_vars : Bool → Value → Act Reply
set_vars armed (obj (field k v fs)) = do
  file_ok ← save_to_file (field k v fs)
  mdi_ok ← set_in_memory armed (field k v fs)
  pure (done_vars file_ok mdi_ok)
set_vars armed _ = pure (refused "Missing vars dict")

unfoldable pub set_probe_vars : Message → Bool → Act Reply
set_probe_vars msg armed = require_armed armed >> set_vars armed (get msg "vars" (obj end))
