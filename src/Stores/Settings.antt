-- ===== src/Stores/Settings.antt =====
-- SettingsStore of lcnc-gateway/settings_store.py. The lock that serialises its operations is left out:
-- they run one after another.
use text.Mathlib.Text.{◌==◌ as str_eq, find?}
use lcnc_suite.Base.{
  String, ℕ, ◌+◌, Bool, true, false, ◌&&◌, ◌||◌, Option, none, some, List, [], ◌∷◌, is_some,
  if◌then◌else◌,
}
use lcnc_suite.Value.{Value, null, str, obj, arr, Fields, end, Items, cons, nil, find, assoc, drop}

-- What stands at the path of the store.
pub data File (Bytes : Type 0) : Type 0 where
  missing : File Bytes
  unreadable : File Bytes
  holds : Bytes → File Bytes

-- `cache` is `null` where the source has `None`; a file that holds `null` is read anew each time.
pub record Store (Bytes : Type 0) : Type 0 where
  pub file : File Bytes
  pub cache : Value
  pub load_failed : Bool
  pub version : ℕ

unfoldable pub exists : {Bytes : Type 0} → File Bytes → Bool
exists missing = false
exists _ = true

-- A store in a new process.
unfoldable pub start : {Bytes : Type 0} → File Bytes → Store Bytes
start f = record { file = f; cache = null; load_failed = false; version = 0 }

unfoldable pub or_empty : Option Value → Value
or_empty none = obj end
or_empty (some v) = v

-- `d.get(ini, {})`
unfoldable pub entry_of : String → Value → Option Value
unfolding find or_empty
entry_of ini (obj d) = some (or_empty (find d ini))
entry_of ini _ = none

-- The dict `d` with a section set in its entry, which is missing, a dict, or something else.
unfoldable pub put_section : String → String → Value → Fields → Option Value → Option Value
unfolding assoc
put_section ini section v d none = some (obj (assoc ini (obj (assoc section v end)) d))
put_section ini section v d (some (obj e)) = some (obj (assoc ini (obj (assoc section v e)) d))
put_section ini section v d (some _) = none

-- `d.setdefault(ini, {})[section] = v`
unfoldable pub with_section : String → String → Value → Value → Option Value
unfolding find put_section
with_section ini section v (obj d) = put_section ini section v d (find d ini)
with_section ini section v _ = none

unfoldable pub is_item : String → Items → Bool
is_item k nil = false
is_item k (cons (str s) rest) = str_eq s k || is_item k rest
is_item k (cons _ rest) = is_item k rest

-- `ini in d`
unfoldable pub is_in : String → Value → Option Bool
unfolding find is_item
is_in ini (obj d) = some (is_some (find d ini))
is_in ini (arr items) = some (is_item ini items)
is_in ini (str s) = some (is_some (find? s ini))
is_in ini _ = none

-- `del d[ini]`
unfoldable pub without : String → Value → Option Value
unfolding drop
without ini (obj d) = some (obj (drop ini d))
without ini _ = none

pub data Op : Type 0 where
  load_op : String → Op
  save_op : Bool → String → String → Value → Op
  reset_op : Bool → String → Op

module _ {Bytes : Type 0} (dumps : Value → Bytes) (loads : Bytes → Option Value) where
  -- `_load_all` with nothing cached
  unfoldable pub read : Store Bytes → Value × Store Bytes
  read s = parse s.file
    where
      failed : Value × Store Bytes
      failed = (obj end, record s { cache = obj end; load_failed = true })

      parsed : Option Value → Value × Store Bytes
      parsed none = failed
      parsed (some v) = (v, record s { cache = v; load_failed = false })

      parse : File Bytes → Value × Store Bytes
      parse missing = (obj end, record s { cache = obj end })
      parse unreadable = failed
      parse (holds b) = parsed (loads b)

  -- `_load_all`
  unfoldable pub load_all : Store Bytes → Value × Store Bytes
  unfolding read
  load_all s = cached s.cache
    where
      cached : Value → Value × Store Bytes
      cached null = read s
      cached v = (v, s)

  -- `_save_all`, with whether it returns; `writes` is false where the write of the file raises.
  unfoldable pub save_all : Bool → Value → Store Bytes → Bool × Store Bytes
  unfolding exists
  save_all writes v s =
      if s.load_failed && exists s.file
      then (false, s)
      else (if writes then (true, record s { file = holds (dumps v); cache = v }) else (false, s))

  -- `self.version += 1` after what did not raise.
  unfoldable pub bump : Bool × Store Bytes → Bool × Store Bytes
  bump (false, s) = (false, s)
  bump (true, s) = (true, record s { version = s.version + 1 })

  -- `all_data` is the cached dict itself, so its change stays in the cache if the save raises; `none`
  -- is a change that raises.
  unfoldable pub write_back : Bool → Option Value → Store Bytes → Bool × Store Bytes
  unfolding save_all bump
  write_back writes none s = (false, s)
  write_back writes (some d) s = bump (save_all writes d (record s { cache = d }))

  unfoldable pub load : String → Store Bytes → Option Value × Store Bytes
  unfolding load_all entry_of
  load ini s = (entry_of ini (load_all s).0, (load_all s).1)

  unfoldable pub save_section : Bool → String → String → Value → Store Bytes → Bool × Store Bytes
  unfolding load_all with_section write_back
  save_section writes ini section v s =
      write_back writes (with_section ini section v (load_all s).0) (load_all s).1

  unfoldable pub reset : Bool → String → Store Bytes → Bool × Store Bytes
  unfolding load_all is_in without write_back bump
  reset writes ini s = check (is_in ini (load_all s).0)
    where
      check : Option Bool → Bool × Store Bytes
      check none = (false, (load_all s).1)
      check (some false) = bump (true, (load_all s).1)
      check (some true) = write_back writes (without ini (load_all s).0) (load_all s).1

  -- One operation, whatever it gives, and a sequence of them.
  unfoldable pub step : Op → Store Bytes → Store Bytes
  unfolding load save_section reset
  step (load_op ini) s = (load ini s).1
  step (save_op writes ini section v) s = (save_section writes ini section v s).1
  step (reset_op writes ini) s = (reset writes ini s).1

  unfoldable pub steps : List Op → Store Bytes → Store Bytes
  unfolding step
  steps [] s = s
  steps (op ∷ ops) s = steps ops (step op s)
