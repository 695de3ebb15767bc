-- ===== src/Offsets.antt =====
-- The table of work offsets in lcnc-gateway/status_runtime.py: resolve_var_file_path, read_var_file,
-- seed_wcs_cache, and their part of poll_status. Files and INIs have numbers for their names.
use lcnc_suite.Base.{
  ℕ, zero, suc, ◌+◌, ◌-◌, ◌==◌, Bool, true, false, not, ◌&&◌, Option, none, some, List, [], ◌∷◌,
  if◌then◌else◌, is_some, ltb, leb,
}
mod Cells
mod Seeded
mod Resolved
mod Polled
mod Examples

-- A line of the parameter file: a number and a value, with `none` for a word that is no float, or
-- anything else
pub data Line (F : Type 0) : Type 0 where
  var : ℕ → Option F → Line F
  other_line : Line F

pub record File (F : Type 0) : Type 0 where
  pub lines : List (Line F)
  pub mtime : ℕ

-- What linuxcnc.ini makes of an INI: an exception, no PARAMETER_FILE, or its absolute path
pub data Ini : Type 0 where
  broken without : Ini
  names : ℕ → Ini

-- The fields of STAT; `g5x` is none if it is no list of floats.
pub record Stat (F : Type 0) : Type 0 where
  pub ini_filename : Option ℕ
  pub g5x_index : Option ℕ
  pub g5x : Option (List F)
  pub rotation_xy : Option F

-- `wcs_cache` has the value of a row at an axis, where the axis 9 is "r".
pub record World (F : Type 0) : Type 0 where
  pub path_key : Option ℕ
  pub path_val : Option ℕ
  pub mtime : Option ℕ
  pub wcs_cache : ℕ → ℕ → F
  pub inis : ℕ → Ini
  pub files : ℕ → Option (File F)

-- The columns of a row, from the axis `k` on: the numbers after its base
unfoldable pub columns : (i base k left : ℕ) → List (ℕ × (ℕ × ℕ)) → List (ℕ × (ℕ × ℕ))
columns i base k zero rest = rest
columns i base k (suc left) rest = (base + 1 + k, (i, k)) ∷ columns i base (k + 1) left rest

-- `WCS_BASES` from a row on, each with its nine axes and "r"
unfoldable pub rows : (i base left : ℕ) → List (ℕ × (ℕ × ℕ))
unfolding columns
rows i base zero = []
rows i base (suc left) = columns i base 0 10 (rows (i + 1) (base + 20) left)

unfoldable pub var_map : List (ℕ × (ℕ × ℕ))
unfolding rows
var_map = rows 0 5220 9

unfoldable pub lookup : {A : Type 0} → ℕ → List (ℕ × A) → Option A
lookup n [] = none
lookup n ((m, a) ∷ rest) = if m == n then some a else lookup n rest

unfoldable pub put : {A : Type 0} → ℕ → A → List (ℕ × A) → List (ℕ × A)
put n a [] = (n, a) ∷ []
put n a ((m, b) ∷ rest) = if m == n then (m, a) ∷ rest else (m, b) ∷ put n a rest

-- `var_map[n]`
unfoldable pub cell_of : ℕ → Option (ℕ × ℕ)
unfolding var_map lookup
cell_of n = lookup n var_map

module _ {F : Type 0} (zero_float : F) where
  -- `none` is the ValueError of a word that is no float.
  unfoldable pub read_var_file : List (Line F) → List (ℕ × F) → Option (List (ℕ × F))
  unfolding put
  read_var_file [] raw = some raw
  read_var_file (other_line ∷ lines) raw = read_var_file lines raw
  read_var_file (var n none ∷ lines) raw =
      let rest = read_var_file lines raw in if is_some (cell_of n) then none else rest
  read_var_file (var n (some x) ∷ lines) raw =
      read_var_file lines (if is_some (cell_of n) then put n x raw else raw)

  unfoldable pub set_cell : ℕ → ℕ → F → (ℕ → ℕ → F) → ℕ → ℕ → F
  set_cell i k x cache j l = if (j == i) && (l == k) then x else cache j l

  -- A number that is not in `var_map` would raise; none is read.
  unfoldable pub fill : List (ℕ × F) → (ℕ → ℕ → F) → ℕ → ℕ → F
  unfolding set_cell
  fill [] cache = cache
  fill ((n, x) ∷ raw) cache = elim (cell_of n) [
    | none ↦ cache
    | some (i, k) ↦ fill raw (set_cell i k x cache)
  ]

  unfoldable pub resolve_var_file_path : Option ℕ → World F → Option ℕ × World F
  resolve_var_file_path none w = (none, w)
  resolve_var_file_path (some ini) w =
      if elim w.path_key [ none ↦ false | some key ↦ ini == key ]
      then (w.path_val, w)
      else elim (w.inis ini) [
        | broken ↦ (none, w)
        | without ↦ (none, record w { path_key = some ini; path_val = none })
        | names path ↦ (some path, record w { path_key = some ini; path_val = some path })
      ]

  abbrev pub mtime_of : Option (File F) → Option ℕ
  mtime_of none = none
  mtime_of (some f) = some f.mtime

  -- `later` are the files when the mtime is taken, after the read.
  unfoldable pub seed_file : (later : ℕ → Option (File F)) → ℕ → World F → World F
  unfolding read_var_file fill
  seed_file later path w = elim (w.files path) [
    | none ↦ w
    | some file ↦ elim (read_var_file file.lines []) [
      | none ↦ w
      | some raw ↦ record w { wcs_cache = fill raw w.wcs_cache; mtime = mtime_of (later path) }
    ]
  ]

  unfoldable pub seed_wcs_cache : (later : ℕ → Option (File F)) → Stat F → World F → World F
  unfolding resolve_var_file_path seed_file
  seed_wcs_cache later s w =
      let (path, v) = resolve_var_file_path s.ini_filename w in
      elim path [ none ↦ v | some p ↦ seed_file later p v ]

  abbrev pub nth : ℕ → List F → F
  nth k [] = zero_float
  nth zero (x ∷ xs) = x
  nth (suc k) (x ∷ xs) = nth k xs

  abbrev pub or_zero : Option F → F
  or_zero none = zero_float
  or_zero (some x) = x

  -- The active row is that of STAT.
  unfoldable pub set_active : Stat F → (ℕ → ℕ → F) → ℕ → ℕ → F
  set_active s cache i k = elim s.g5x_index [
    | none ↦ cache i k
    | some index ↦ elim s.g5x [
      | none ↦ cache i k
      | some g5x ↦
          if leb 1 index && ltb (index - 1) 9 && (i == index - 1) && ltb k 10
          then (if k == 9 then or_zero s.rotation_xy else nth k g5x)
          else cache i k
    ]
  ]

  -- Whether the mtime of the file is another than that of the last seed
  unfoldable pub has_changed : Option ℕ → ℕ → Bool
  has_changed none mtime = true
  has_changed (some old) mtime = not (mtime == old)

  unfoldable pub refresh : (later : ℕ → Option (File F)) → Stat F → World F → World F
  unfolding resolve_var_file_path has_changed seed_wcs_cache
  refresh later s w =
      let (path, v) = resolve_var_file_path s.ini_filename w in
      elim path [
        | none ↦ v
        | some p ↦ elim (v.files p) [
          | none ↦ v
          | some file ↦ if has_changed v.mtime file.mtime then seed_wcs_cache later s v else v
        ]
      ]

  unfoldable pub poll : (later : ℕ → Option (File F)) → Stat F → World F → World F
  unfolding refresh set_active
  poll later s w =
      let v = refresh later s w in record v { wcs_cache = set_active s v.wcs_cache; files = later }

unfoldable pub at_start : {F : Type 0} → F → (ℕ → Ini) → (ℕ → Option (File F)) → World F
at_start zero_float inis files = record {
  path_key = none;
  path_val = none;
  mtime = none;
  wcs_cache = λ i k. zero_float;
  inis = inis;
  files = files;
}

unfoldable pub invalidate_var_file_path : {F : Type 0} → World F → World F
invalidate_var_file_path w = record w { path_key = none; path_val = none }

unfoldable pub invalidate_wcs_mtime : {F : Type 0} → World F → World F
invalidate_wcs_mtime w = record w { mtime = none }
