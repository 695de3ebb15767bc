-- ===== src/Preview/Examples.antt =====
-- The theorems of the preview at a concrete polyline, with numbers for floats.
use lcnc_suite.Base.{
  ◌≡◌, refl, ℕ, suc, ◌+◌, ◌-◌, ◌*◌, ◌/◌, ◌≤◌, ◌<◌, ltb, leb, false, some, List, [], ◌∷◌, arith,
  if◌then◌else◌, length, get_elem?, All,
}
use lcnc_suite.Preview.{Numpy, Point, rdp_keep, thin_feed}
use lcnc_suite.Preview.Argmax.{IsNumpy}
use lcnc_suite.Preview.Close.{IsThinned, rdp_keep-IsThinned}
use lcnc_suite.Preview.Lines.{KeepsLines, thin_feed-KeepsLines}

abbrev top : List ℕ → ℕ
top [] = 0
top (d ∷ ds) = if leb (top ds) d then d else top ds

abbrev arg_top : List ℕ → ℕ
arg_top [] = 0
arg_top (d ∷ ds) = if leb (top ds) d then 0 else suc (arg_top ds)

abbrev numbers : Numpy ℕ
numbers = record {
  origin = 0;
  add = λ a b. a + b;
  sub = λ a b. (a - b) + (b - a);
  mul = λ a b. a * b;
  div = λ a b. (a + b / 2) / b;
  clip = λ a. if ltb 1 a then 1 else a;
  gt = λ a b. ltb b a;
  argmax = arg_top;
}

arg_top-lt : (d : ℕ) (ds : List ℕ) → arg_top (d ∷ ds) < length (d ∷ ds)
arg_top-lt d [] = ground arith
arg_top-lt d (c ∷ ds) = ground (arith, arg_top-lt c ds)

arg_top-eq : (ds : List ℕ) (m : ℕ) → get_elem? ds (arg_top ds) ≡ some m → top ds ≡ m
arg_top-eq [] m h = cc
arg_top-eq (d ∷ ds) m h = ground (arith, arg_top-eq ds m, h)

All-le_top : (ds : List ℕ) (m : ℕ) → top ds ≤ m → All (λ d. ltb m d ≡ false) ds
All-le_top [] m h = tt
All-le_top (d ∷ ds) m h = (ground arith, All-le_top ds m (ground arith))

numbers-IsNumpy : IsNumpy numbers
numbers-IsNumpy = record {
  in_range = arg_top-lt;
  largest = λ ds m h. All-le_top ds m (omega (arith, arg_top-eq ds m h));
  not_above = λ a b c h k. ground (arith, h, k);
}

-- A corner at the third point: the second and the fourth are on a line with their neighbours.
abbrev corner : ℕ → Point ℕ
corner i = record { x = if ltb 2 i then 2 else i; y = i - 2; z = 0 }

rdp_keep-IsThinned_example :
    (kept : List ℕ) × (rdp_keep numbers corner 1 5 [] ≡ some kept)
    × IsThinned numbers corner 1 5 [] kept
rdp_keep-IsThinned_example = rdp_keep-IsThinned numbers corner 1 numbers-IsNumpy 5 []

-- The corner is kept, and the points on the lines are not.
corner_kept : rdp_keep numbers corner 1 5 [] ≡ some (0 ∷ 2 ∷ 4 ∷ [])
unfolding rdp_keep lcnc_suite.Preview.far lcnc_suite.Preview.dist_sq lcnc_suite.Preview.pivot
    lcnc_suite.Preview.kept_of
corner_kept = refl

thin_feed-KeepsLines_example :
    KeepsLines (λ i. i / 2) numbers corner 1 5 (thin_feed numbers corner 1 (λ i. i / 2) 5)
thin_feed-KeepsLines_example = thin_feed-KeepsLines (λ i. i / 2) numbers corner 1 numbers-IsNumpy 5
