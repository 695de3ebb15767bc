-- ===== src/Value/Numbers.antt =====
-- `finite_float` and `finite_int`. How Python rounds an int to a float and reads a text as a float
-- is not in the repository: `Builtins` gives both.
use lcnc_suite.Base.{String, Bool, true, false, Option, none, some, if◌then◌else◌}
use lcnc_suite.Base.Int.{ℤ, ltb_ℤ}
use lcnc_suite.Value.Floats.{Float, finite, is_finite, lt_float, of_ℕ, truncate}
use lcnc_suite.Value.Json.{Value, null, bool, int, float, str, arr, obj, is_null}

-- `none` is the exception: OverflowError of an int, ValueError of a text.
pub record Builtins : Type 0 where
  pub float_of_int : ℤ → Option Float
  pub float_of_text : String → Option Float

pub data Exn : Type 0 where
  permission_error : String → Exn
  value_error type_error key_error overflow_error attribute_error os_error lcnc_error : Exn

pub data Res {ℓ} (A : Type ℓ) : Type ℓ where
  ok : A → Res A
  raise : Exn → Res A

abbrev pub or_raise {ℓ} : {A : Type ℓ} → Option A → Exn → Res A
or_raise none e = raise e
or_raise (some a) e = ok a

-- `float(v)`
unfoldable pub to_float : Builtins → Value → Res Float
to_float py null = raise type_error
to_float py (bool false) = ok (of_ℕ 0)
to_float py (bool true) = ok (of_ℕ 1)
to_float py (int z) = or_raise (py.float_of_int z) overflow_error
to_float py (float f) = ok f
to_float py (str s) = or_raise (py.float_of_text s) value_error
to_float py (arr _) = raise type_error
to_float py (obj _) = raise type_error

-- A bound of `finite_float` that a caller gives as a number.
abbrev pub bound : Option ℤ → Option Float
bound none = none
bound (some z) = some (finite z)

abbrev pub below : Float → Option Float → Bool
below v none = false
below v (some lo) = lt_float v lo

abbrev pub above : Float → Option Float → Bool
above v none = false
above v (some hi) = lt_float hi v

-- The checks of `finite_float` on the converted number.
unfoldable pub check_float : Option Float → Option Float → Float → Res Float
check_float lo hi v =
    if is_finite v
    then (if below v lo
        then raise value_error
        else (if above v hi then raise value_error else ok v))
    else raise value_error

unfoldable pub finite_float : Builtins → Value → Float → Option Float → Option Float → Res Float
unfolding to_float check_float
finite_float py x default lo hi = elim (to_float py (if is_null x then float default else x)) [
  | ok v ↦ check_float lo hi v
  | raise e ↦ raise e
]

abbrev pub below_int : ℤ → Option ℤ → Bool
below_int v none = false
below_int v (some lo) = ltb_ℤ v lo

abbrev pub above_int : ℤ → Option ℤ → Bool
above_int v none = false
above_int v (some hi) = ltb_ℤ hi v

-- The checks of `finite_int` on the converted number.
unfoldable pub check_int : Option ℤ → Option ℤ → Float → Res ℤ
check_int lo hi (finite z) =
    let v = truncate z in
    if below_int v lo
    then raise value_error
    else (if above_int v hi then raise value_error else ok v)
check_int lo hi _ = raise value_error

-- A default that is not given is `none`.
abbrev pub or_default : Value → Option ℤ → Res Value
or_default null none = raise value_error
or_default null (some d) = ok (int d)
or_default v _ = ok v

unfoldable pub finite_int : Builtins → Value → Option ℤ → Option ℤ → Option ℤ → Res ℤ
unfolding to_float check_int
finite_int py x default lo hi = elim (or_default x default) [
  | raise e ↦ raise e
  | ok v ↦ elim (to_float py v) [ ok f ↦ check_int lo hi f | raise e ↦ raise e ]
]
