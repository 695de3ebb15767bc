-- ===== src/Files.antt =====
-- File names and access: the checks of lcnc-gateway/gateway_util.py on paths, tokens and origins.
-- Python's path functions, text methods and `hmac` are parameters.
use text.Mathlib.Text.{◌==◌ as str_eq, starts_with}
use Prim.Native.String
use lcnc_suite.Base.{String, Bool, false, ◌||◌, List, [], ◌∷◌}
pub mod Containment
mod Examples

abbrev pub allowed_extensions : List String
allowed_extensions = ".ngc" ∷ ".nc" ∷ ".gcode" ∷ ".tap" ∷ ".txt" ∷ []

-- `x in xs` of texts.
unfoldable pub contains : List String → String → Bool
contains [] a = false
contains (x ∷ xs) a = str_eq x a || contains xs a

-- `extension` is `os.path.splitext(filename)[1].lower()`.
unfoldable pub validate_extension : (String → String) → String → Bool
unfolding contains
validate_extension extension filename = contains allowed_extensions (extension filename)

unfoldable pub validate_path_within : (String → String) → String → String → Bool
validate_path_within realpath path root =
    str_eq (realpath path) (realpath root)
    || starts_with (realpath path) (String.◌++◌ (realpath root) "/")
