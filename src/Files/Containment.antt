-- ===== src/Files/Containment.antt =====
-- What the containment check of lcnc-gateway/gateway_util.py means.
use Prim.Native.String
use text.Mathlib.Text.{◌==◌ as str_eq, starts_with}
use text.Mathlib.TextBridge.{IsPrefix}
use text.Mathlib.TextEquality.{eq_iff, starts_with_iff}
use lcnc_suite.Base.{◌≡◌, refl, ◌↔◌, ◌⊎◌, inl, inr, String, Bool, true, false, ◌||◌}
use lcnc_suite.Files.{validate_path_within}

either : (a b : Bool) → ((a || b) ≡ true) ↔ ((a ≡ true) ⊎ (b ≡ true))
either true b = (λ _. inl refl, λ _. refl)
either false b = (λ h. inr h, λ h. elim h [ inl e ↦ cc | inr e ↦ e ])

-- A path is accepted exactly if what it resolves to is the resolved root, or begins with the resolved
-- root and a slash.
pub validate_path_within-eq-true :
    (realpath : String → String) (path root : String)
    → (validate_path_within realpath path root ≡ true) ↔ (
        (realpath path ≡ realpath root)
        ⊎ IsPrefix (String.◌++◌ (realpath root) "/") (realpath path))
unfolding validate_path_within
validate_path_within-eq-true realpath path root =
    let (there, back) =
      either (str_eq (realpath path) (realpath root))
        (starts_with (realpath path) (String.◌++◌ (realpath root) "/")) in
    let (same, same') = eq_iff (realpath path) (realpath root) in
    let (start, start') = starts_with_iff (realpath path) (String.◌++◌ (realpath root) "/") in
    (
      λ h. elim (there h) [ inl e ↦ inl (same e) | inr e ↦ inr (start e) ],
      λ h. back (elim h [ inl e ↦ inl (same' e) | inr e ↦ inr (start' e) ]),
    )
