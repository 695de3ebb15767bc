-- ===== src/Gateway/World.antt =====
-- The gateway's state, what reaches it from outside, and the monad of a command: a state that
-- survives an exception.
use lcnc_suite.Base.{String, ℕ, Bool, Option, List}
use lcnc_suite.Base.Int.{ℤ}
use lcnc_suite.Value.{Value, Fields, Float, Builtins, Exn, Res, ok, raise}
use lcnc_suite.Policy.{StatusPayload}
use lcnc_suite.Gateway.Machine.{Mode, Stat, Entry, Tool, Offsets, VarLine, Call, HalMessage}
use lcnc_suite.Policy.{Interp}

-- Python's built-ins and the file system, as the commands see them.
pub record Environment : Type 0 where
  pub builtins : Builtins
  pub mode_of : ℤ → Option Mode  -- the codes of linuxcnc.MODE_*
  pub abspath : String → String
  pub realpath : String → String
  pub extension : String → String  -- os.path.splitext(...)[1].lower()
  pub is_file : String → Bool
  pub nc_files_dir : String
  pub is_blank : String → Bool  -- not text.strip()
  pub text_of : Value → String  -- str(v)
  pub has_tool_table : Bool  -- get_tool_tbl_path() finds a path
  pub reread_float : Float → Float  -- float(f"{v:.6f}")
  pub has_var_file : Bool  -- the INI names a PARAMETER_FILE
  pub assignment : String → Float → String  -- f"#{k}={v:.6f}"
  pub code_of : String → Option ℕ  -- int(key), none if it raises
  pub scan : String → Float → List VarLine  -- the lines that f"{k}\t{v:.6f}\n" is read as
  pub glue : VarLine → VarLine → List VarLine  -- what a line without its newline and the next are read as
  pub reread_remark : String → String  -- a remark after ";", read from its first line and stripped
  pub further_rows : String → List Tool  -- the rows that the other lines of a remark are read as

-- What a call of `linuxcnc.command`, with its `wait_complete`, does: it returns 0, returns another
-- code, or raises.
pub data Outcome : Type 0 where
  returns incomplete fails : Outcome

-- The last phase of a run-from-line sequence that `_rfl_phase` reported.
pub data Phase : Type 0 where
  queued measuring safe_z positioning starting running : Phase
  measure_failed flag_failed safe_z_failed positioning_failed failed : Phase

-- The arguments of a spawned `_rfl_sequence`.
pub record Sequence : Type 0 where
  pub start_line : ℤ
  pub pre_tool : ℤ
  pub safe_z : Bool
  pub spindle_dir : Value
  pub spindle_speed : ℤ
  pub entry : Option Entry

-- `readings` and `outcomes` are what the coming calls of `STAT.poll` and `CMD` will meet, in order;
-- past their end a poll changes nothing and a call returns. `calls` and `hal` are what was sent, the
-- newest first. `tool_file` is what `parse_tool_table` reads, `none` if it raises; `library` is the
-- metadata of the active configuration.
pub record World : Type 0 where
  pub env : Environment
  pub lcnc_connected : Bool
  pub shared_status : Option StatusPayload
  pub stat : Option Stat
  pub readings : List (Option Stat)
  pub outcomes : List Outcome
  pub calls : List Call
  pub hal : List HalMessage
  pub estop_hold : Bool
  pub active_jog_axes : List (Bool × ℤ)
  pub emc_enable_in : Option Bool
  pub z_eoffset_enable : Option Bool
  pub rfl_active : Bool
  pub rfl_phase : Option Phase
  pub spawned : List Sequence
  pub tool_file : Option (List Tool)
  pub library : List (ℤ × Fields)
  pub tool_table_version : ℕ
  pub tool_meta_dirty : Bool
  pub wcs_cache : List Offsets
  pub var_file : Option (List VarLine)
  pub shutdown_signalled : Bool

-- The reply of a command.
pub data Reply : Type 0 where
  done : Reply
  done_scale : Float → Reply
  done_velocity : Float → Reply
  done_path : String → Reply
  rfl_started : Reply
  refused : String → Reply
  busy : String → Mode → Interp → Reply
  invalid_mode : ℤ → Reply
  failed : Exn → Reply
  done_table : List Offsets → Reply
  done_tools : List Tool → Option ℤ → Reply
  done_vars : Bool → Bool → Reply  -- file_saved, mdi_set
  done_renumbered : ℤ → Reply
  tool_missing tool_exists tool_in_use_delete tool_in_use_renumber : ℤ → Reply
  invalid_wcs invalid_target : Value → Reply
  unknown_command : String → Reply
  other_reply : Reply

abbrev pub Act : Type 0 → Type 0
Act A = World → Res A × World

-- The combinators are shut, so that a proof follows the shape of an action; `actions` opens them.
module _ {A : Type 0} where
  unfoldable pub pure : A → Act A
  pure a w = (ok a, w)

  unfoldable pub throw : Exn → Act A
  throw e w = (raise e, w)

  unfoldable pub gets : (World → A) → Act A
  gets f w = (ok (f w), w)

  unfoldable pub lift : Res A → Act A
  lift r w = (r, w)

unfoldable pub modify : (World → World) → Act (Unit {0})
modify f w = (ok tt, f w)

-- What follows an action that may have raised.
unfoldable pub attempt : {A B : Type 0} → Act A → (Res A → Act B) → Act B
attempt m f w = let (r, w') = m w in f r w'

infixl 5 ◌>>=◌
infixr 4 ◌>>◌
unfoldable pub ◌>>=◌ : {A B : Type 0} → Act A → (A → Act B) → Act B
unfolding attempt throw
m >>= f = attempt m (λ r. elim r [ ok a ↦ f a | raise e ↦ throw e ])

abbrev pub ◌>>◌ : {A B : Type 0} → Act A → Act B → Act B
m >> k = m >>= λ _. k

-- `try: m finally: f`
unfoldable pub finally_do : {A : Type 0} → Act A → (World → World) → Act A
unfolding ◌>>=◌ attempt modify lift
finally_do m f = attempt m (λ r. modify f >> lift r)

-- `try: m except Exception: return e`, by what is returned.
unfoldable pub or_else : {A : Type 0} → Act A → (Exn → A) → Act A
unfolding attempt pure
or_else m f = attempt m (λ r. elim r [ ok a ↦ pure a | raise e ↦ pure (f e) ])

unfoldable pub actions : Unit {0}
unfolding pure throw gets lift modify attempt ◌>>=◌ finally_do or_else
actions = tt
