-- ===== src/Value/Floats.antt =====
-- Python's floats. Every finite binary64 value is a multiple of 2^-1074, so it is given exactly by
-- an integer; the two zeros are one value. Comparison, `min`, `max`, `abs` and truncation are exact.
use lcnc_suite.Base.{ℕ, suc, ◌*◌, ◌/◌, ◌^◌, Bool, true, false, if◌then◌else◌}
use lcnc_suite.Base.Int.{ℤ, pos, negsuc, sub_ℕ, ltb_ℤ}

pub data Float : Type 0 where
  nan inf neg_inf : Float
  finite : ℤ → Float

-- The value 1.0.
abbrev pub unit : ℕ
unit = 2 ^ 1074

abbrev pub of_ℕ : ℕ → Float
of_ℕ n = finite (pos (n * unit))

-- 0.5
abbrev pub half : Float
half = finite (pos (2 ^ 1073))

abbrev pub is_finite : Float → Bool
is_finite (finite _) = true
is_finite _ = false

-- `a < b`, false wherever a NaN stands.
abbrev pub lt_float : Float → Float → Bool
lt_float (finite a) (finite b) = ltb_ℤ a b
lt_float neg_inf (finite _) = true
lt_float neg_inf inf = true
lt_float (finite _) inf = true
lt_float _ _ = false

-- `min(a, b)` and `max(a, b)`: the first argument unless the second is beyond it.
abbrev pub min_float : Float → Float → Float
min_float a b = if lt_float b a then b else a

abbrev pub max_float : Float → Float → Float
max_float a b = if lt_float a b then b else a

abbrev pub abs_float : Float → Float
abs_float (finite (negsuc n)) = finite (pos (suc n))
abs_float neg_inf = inf
abs_float (finite (pos n)) = finite (pos n)
abs_float inf = inf
abs_float nan = nan

-- `int(f)` of a finite value: towards zero.
abbrev pub truncate : ℤ → ℤ
truncate (pos n) = pos (n / unit)
truncate (negsuc n) = sub_ℕ 0 (suc n / unit)
