-- ===== src/Files/Examples.antt =====
-- A test of the containment check.
use text.Mathlib.Text.{◌==◌ as str_eq}
use lcnc_suite.Base.{◌≡◌, refl, false, String, if◌then◌else◌}
use lcnc_suite.Files.{validate_path_within}

-- A link inside the root that leads out of it.
abbrev resolve : String → String
resolve s = if str_eq s "/nc/link" then "/etc/passwd" else s

link_refused : validate_path_within resolve "/nc/link" "/nc" ≡ false
unfolding validate_path_within
link_refused = refl
