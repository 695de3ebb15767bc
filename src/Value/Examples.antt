-- ===== src/Value/Examples.antt =====
-- The theorems of the validators at concrete values.
use lcnc_suite.Base.{◌≡◌, refl, ◌↔◌, none, some}
use lcnc_suite.Base.Int.{ℤ, pos}
use lcnc_suite.Value.Floats.{finite, of_ℕ, truncate}
use lcnc_suite.Value.Json.{Value, str, null}
use lcnc_suite.Value.Numbers.{Builtins, ok, to_float, bound, finite_float, finite_int}
use lcnc_suite.Value.Bounds.{Chosen, AtLeast, AtMost, given, finite_float-eq-ok, finite_int_sound}

-- Every text reads as 3.0, and every int is too large.
abbrev py : Builtins
py = record { float_of_int = λ z. none; float_of_text = λ s. some (of_ℕ 3) }

finite_float-eq-ok_example :
    (finite_float py null (of_ℕ 1) (bound (some (pos 0))) (bound none) ≡ ok (of_ℕ 1)) ↔ (
      (z : ℤ) × (to_float py (given null (of_ℕ 1)) ≡ ok (finite z))
      × (of_ℕ 1 ≡ finite z)
      × AtLeast (some (pos 0)) z
      × AtMost none z)
finite_float-eq-ok_example = finite_float-eq-ok py null (of_ℕ 1) (some (pos 0)) none (of_ℕ 1)

finite_int_sound_example :
    (y : Value) × (z : ℤ) × Chosen (str "3.0") none y
    × (to_float py y ≡ ok (finite z))
    × (pos 3 ≡ truncate z)
    × AtLeast (some (pos 0)) (pos 3)
    × AtMost none (pos 3)
unfolding finite_int
finite_int_sound_example = finite_int_sound py (str "3.0") none (some (pos 0)) none (pos 3) refl
