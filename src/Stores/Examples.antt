-- ===== src/Stores/Examples.antt =====
-- The theorems of the stores at concrete values, with values for their own bytes.
use lcnc_suite.Base.{◌≡◌, refl, String, Bool, true, false, Option, none, some, [], ◌∷◌}
use lcnc_suite.Base.Int.{pos}
use lcnc_suite.Value.{Value, null, int, obj, Fields, field, end}
use lcnc_suite.Stores.Settings.{Store, holds, start, save_op, reset_op, steps, save_section, load}
use lcnc_suite.Stores.Kept.{is_broken, broken_file_kept}
use lcnc_suite.Stores.Reread.{setting, same, setting-save_section}
use lcnc_suite.Stores.Tools
use lcnc_suite.Stores.Migrated.{load-save, entry}

abbrev dumps : Value → Value
dumps v = v

abbrev loads : Value → Option Value
loads v = some v

-- Bytes that no text of JSON has.
abbrev refuse : Value → Option Value
refuse v = none

abbrev two_mills : Value
two_mills = obj (field "/mill.ini" (obj (field "viewer" (int (pos 1)) end)) end)

abbrev at_start : Store Value
at_start = start (holds two_mills)

setting-save_section_example :
    let t = (save_section dumps loads true "/lathe.ini" "viewer" (int (pos 2)) at_start).1 in
    (setting dumps loads "/lathe.ini" "viewer" (start t.file) ≡ some (int (pos 2)))
    × ((i k : String)
        → same "/lathe.ini" "viewer" i k ≡ false
        → setting dumps loads i k (start t.file) ≡ setting dumps loads i k at_start)
    × (t.version ≡ 1)
unfolding save_section start
setting-save_section_example =
    setting-save_section dumps loads (λ v. refl) true "/lathe.ini" "viewer" (int (pos 2)) at_start
      refl

broken_file_kept_example :
    ((steps dumps refuse
        (save_op true "/mill.ini" "mdi" null ∷ reset_op true "/mill.ini" ∷ [])
        (start (holds two_mills))).file
      ≡ holds two_mills)
    × ((writes : Bool) (ini section : String) (v : Value)
        → (save_section dumps refuse writes ini section v (
            steps dumps refuse
              (save_op true "/mill.ini" "mdi" null ∷ reset_op true "/mill.ini" ∷ [])
              (start (holds two_mills)))).0
          ≡ false)
unfolding is_broken
broken_file_kept_example =
    broken_file_kept dumps refuse (holds two_mills)
      (save_op true "/mill.ini" "mdi" null ∷ reset_op true "/mill.ini" ∷ []) refl

-- A save that is refused is seen by a later load all the same.
refused_save_is_loaded :
    let t =
      (save_section dumps refuse true "/mill.ini" "viewer" null (start (holds two_mills))).1 in
    (load dumps refuse "/mill.ini" t).0 ≡ some (obj (field "viewer" null end))
unfolding load save_section start
refused_save_is_loaded = refl

abbrev disk : Tools.Disk
disk = record { stats = true; opens = true; writes = true; now = 7 }

abbrev tools : Tools.Store Value
tools = record { file = some (5, two_mills); cache = none }

load-save_example :
    let t = (Tools.save dumps loads disk "/lathe.ini" (obj end) tools).1 in
    (d : Fields) × (Tools.reread loads disk tools.file ≡ some (obj d))
    × ((Tools.load dumps loads (λ s. []) (λ s. false) disk "/lathe.ini" t).0 ≡ some (obj end))
    × ((i : String)
        → text.Mathlib.Text.◌==◌ "/lathe.ini" i ≡ false
        → (Tools.load dumps loads (λ s. []) (λ s. false) disk i t).0 ≡ some (entry d i))
unfolding Tools.save
load-save_example =
    load-save dumps loads (λ v. refl) (λ s. []) (λ s. false) disk disk "/lathe.ini" (obj end) tools
      refl refl refl refl
