-- ===== src/Value/Bounds.antt =====
-- What the numeric validators let through.
use lcnc_suite.Base.{
  ◌≡◌, refl, sym, false, true, ◌⊎◌, inl, inr, Option, none, some, arith, ◌↔◌, ap, ◌∙◌,
  if◌then◌else◌,
}
use lcnc_suite.Base.Int.{ℤ, ◌≤ℤ◌, ltb_ℤ}
use lcnc_suite.Value.Floats.{Float, truncate, nan, inf, neg_inf, finite, min_float, max_float}
use lcnc_suite.Value.Json.{Value, null, bool, int, float, str, obj, arr, is_null}
use lcnc_suite.Value.Numbers.{
  Builtins, Res, ok, raise, bound, check_float, finite_float, check_int, finite_int, to_float,
  or_default,
}

abbrev pub AtLeast : Option ℤ → ℤ → Type 0
AtLeast none z = Unit
AtLeast (some l) z = l ≤ℤ z

abbrev pub AtMost : Option ℤ → ℤ → Type 0
AtMost none z = Unit
AtMost (some h) z = z ≤ℤ h

check_float_sound :
    (lo hi : Option ℤ) (v w : Float)
    → check_float (bound lo) (bound hi) v ≡ ok w
    → (z : ℤ) × (v ≡ finite z) × (w ≡ finite z) × AtLeast lo z × AtMost hi z
unfolding check_float
check_float_sound lo hi nan w h = cc
check_float_sound lo hi inf w h = cc
check_float_sound lo hi neg_inf w h = cc
check_float_sound lo hi (finite z) w h = (z, refl, ground arith, ground arith, ground arith)

check_float_complete :
    (lo hi : Option ℤ) (z : ℤ)
    → AtLeast lo z
    → AtMost hi z
    → check_float (bound lo) (bound hi) (finite z) ≡ ok (finite z)
unfolding check_float
check_float_complete lo hi z l h = ground arith

-- The value that is converted: the default stands for a missing or null one.
abbrev pub given : Value → Float → Value
given x default = if is_null x then float default else x

-- `finite_float` returns the converted number, which is then neither NaN nor infinite and lies in
-- the range that the caller asked for, exactly if it is such a number.
pub finite_float-eq-ok :
    (py : Builtins) (x : Value) (default : Float) (lo hi : Option ℤ) (w : Float)
    → (finite_float py x default (bound lo) (bound hi) ≡ ok w) ↔ (
        (z : ℤ) × (to_float py (given x default) ≡ ok (finite z))
        × (w ≡ finite z)
        × AtLeast lo z
        × AtMost hi z)
unfolding finite_float
finite_float-eq-ok py x default lo hi w = (there (to_float py (given x default)), back)
  where
    there :
        (r : Res Float)
        → elim r [ ok v ↦ check_float (bound lo) (bound hi) v | raise e ↦ raise e ] ≡ ok w
        → (z : ℤ) × (r ≡ ok (finite z)) × (w ≡ finite z) × AtLeast lo z × AtMost hi z
    there (raise e) h = cc
    there (ok v) h =
        let (z, is, gave, l, u) = check_float_sound lo hi v w h in (z, ap ok is, gave, l, u)

    back :
        ((z : ℤ) × (to_float py (given x default) ≡ ok (finite z))
          × (w ≡ finite z)
          × AtLeast lo z
          × AtMost hi z)
        → elim (to_float py (given x default)) [
          | ok v ↦ check_float (bound lo) (bound hi) v
          | raise e ↦ raise e
        ]
          ≡ ok w
    back (z, is, gave, l, u) = rw (is, gave) (check_float_complete lo hi z l u)

check_int_sound :
    (lo hi : Option ℤ) (f : Float) (v : ℤ)
    → check_int lo hi f ≡ ok v
    → (z : ℤ) × (f ≡ finite z) × (v ≡ truncate z) × AtLeast lo v × AtMost hi v
unfolding check_int
check_int_sound lo hi nan v h = cc
check_int_sound lo hi inf v h = cc
check_int_sound lo hi neg_inf v h = cc
check_int_sound lo hi (finite z) v h = (z, refl, ground arith, ground arith, ground arith)

-- The value that is converted: the one that was given, or the default for a missing or null one, if
-- there is a default.
abbrev pub Chosen : Value → Option ℤ → Value → Type 0
Chosen x default y =
    ((is_null x ≡ false) × (y ≡ x))
    ⊎ ((is_null x ≡ true) × (d : ℤ) × (default ≡ some d) × (y ≡ int d))

ok-injective : {a b : Value} → ok a ≡ ok b → a ≡ b
ok-injective {a} {b} e = ap (λ r. elim r [ ok x ↦ x | raise _ ↦ a ]) e

or_default-Chosen :
    (x : Value) (default : Option ℤ) (y : Value) → or_default x default ≡ ok y → Chosen x default y
or_default-Chosen null none y h = cc
or_default-Chosen null (some d) y h = inr (refl, d, refl, sym (ok-injective h))
or_default-Chosen (bool b) default y h = inl (refl, sym (ok-injective h))
or_default-Chosen (int z) default y h = inl (refl, sym (ok-injective h))
or_default-Chosen (float f) default y h = inl (refl, sym (ok-injective h))
or_default-Chosen (str s) default y h = inl (refl, sym (ok-injective h))
or_default-Chosen (obj fs) default y h = inl (refl, sym (ok-injective h))
or_default-Chosen (arr vs) default y h = inl (refl, sym (ok-injective h))

-- `finite_int` returns only the whole part, towards zero, of a finite number that was given, or that
-- is the default for a missing or null value, within the range that the caller asked for: it returns
-- nothing for a null value with no default.
pub finite_int_sound :
    (py : Builtins) (x : Value) (default lo hi : Option ℤ) (v : ℤ)
    → finite_int py x default lo hi ≡ ok v
    → (y : Value) × (z : ℤ) × Chosen x default y
      × (to_float py y ≡ ok (finite z))
      × (v ≡ truncate z)
      × AtLeast lo v
      × AtMost hi v
unfolding finite_int
finite_int_sound py x default lo hi v h = by_value (or_default x default) refl h
  where
    by_number :
        (y : Value) (r : Res Float)
        → to_float py y ≡ r
        → or_default x default ≡ ok y
        → elim r [ ok f ↦ check_int lo hi f | raise e ↦ raise e ] ≡ ok v
        → (y : Value) × (z : ℤ) × Chosen x default y
          × (to_float py y ≡ ok (finite z))
          × (v ≡ truncate z)
          × AtLeast lo v
          × AtMost hi v
    by_number y (raise e) is chosen g = cc
    by_number y (ok f) is chosen g =
        let (z, number, whole, l, u) = check_int_sound lo hi f v g in
        (y, z, or_default-Chosen x default y chosen, is ∙ ap ok number, whole, l, u)

    by_value :
        (d : Res Value)
        → or_default x default ≡ d
        → elim d [
          | raise e ↦ raise e
          | ok y ↦ elim (to_float py y) [ ok f ↦ check_int lo hi f | raise e ↦ raise e ]
        ]
          ≡ ok v
        → (y : Value) × (z : ℤ) × Chosen x default y
          × (to_float py y ≡ ok (finite z))
          × (v ≡ truncate z)
          × AtLeast lo v
          × AtMost hi v
    by_value (raise e) is g = cc
    by_value (ok y) is g = by_number y (to_float py y) refl is g

-- The clamp `max(lo, min(hi, v))` of the override commands.
abbrev pub clamp : Float → Float → Float → Float
clamp lo hi v = max_float lo (min_float hi v)

abbrev pub clamp_ℤ : ℤ → ℤ → ℤ → ℤ
clamp_ℤ a b z = let m : ℤ = if ltb_ℤ z b then z else b in if ltb_ℤ a m then m else a

pub clamp-finite : (a b z : ℤ) → clamp (finite a) (finite b) (finite z) ≡ finite (clamp_ℤ a b z)
clamp-finite a b z = ground arith

pub clamp_ℤ_bounds : (a b z : ℤ) → a ≤ℤ b → (a ≤ℤ clamp_ℤ a b z) × (clamp_ℤ a b z ≤ℤ b)
clamp_ℤ_bounds a b z h = ground arith
