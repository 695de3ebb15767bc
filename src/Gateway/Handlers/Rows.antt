-- ===== src/Gateway/Handlers/Rows.antt =====
-- How often a tool number stands in a table, through the operations on tables.
use mathlib.Core.Path.{subst}
use mathlib.Core.Option.{some-injective}
use lcnc_suite.Base.{
  ◌≡◌, refl, ◌∙◌, ℕ, ◌+◌, ◌≤◌, Bool, true, false, none, some, List, [], ◌∷◌, ◌++◌, arith, if-cases,
  Bool-cases, inl, inr, ◌⊎◌, ap,
}
use lcnc_suite.Base.Int.{ℤ, eqb_ℤ, leb_ℤ, eqb_ℤ→eq}
use lcnc_suite.Gateway.Machine.{Tool}
use lcnc_suite.Gateway.Tools.{insert_sorted, sort_tools, find_tool, replace_tool, without_tool}

abbrev pub one_if : Bool → ℕ
one_if true = 1
one_if false = 0

unfoldable pub occurs : ℤ → List Tool → ℕ
occurs n [] = 0
occurs n (t ∷ ts) = one_if (eqb_ℤ t.number n) + occurs n ts

-- No two rows have one number.
abbrev pub IsUnique : List Tool → Type 0
IsUnique ts = (n : ℤ) → occurs n ts ≤ 1

occurs-append : (n : ℤ) (ts us : List Tool) → occurs n (ts ++ us) ≡ occurs n ts + occurs n us
unfolding occurs
occurs-append n [] us = omega arith
occurs-append n (t ∷ ts) us = omega (arith, occurs-append n ts us)

occurs-insert_sorted :
    (n : ℤ) (t : Tool) (ts : List Tool)
    → occurs n (insert_sorted t ts) ≡ one_if (eqb_ℤ t.number n) + occurs n ts
unfolding occurs insert_sorted
occurs-insert_sorted n t [] = refl
occurs-insert_sorted n t (u ∷ us) =
    if-cases (λ ts. occurs n ts ≡ one_if (eqb_ℤ t.number n) + occurs n (u ∷ us))
      (leb_ℤ t.number u.number) _ _ (λ _. refl) (λ _. omega (arith, occurs-insert_sorted n t us))

pub occurs-sort_tools : (n : ℤ) (ts : List Tool) → occurs n (sort_tools ts) ≡ occurs n ts
unfolding occurs sort_tools
occurs-sort_tools n [] = refl
occurs-sort_tools n (t ∷ ts) =
    occurs-insert_sorted n t (sort_tools ts) ∙ omega (arith, occurs-sort_tools n ts)

occurs-find_tool : (n : ℤ) (ts : List Tool) → find_tool n ts ≡ none → occurs n ts ≡ 0
unfolding occurs find_tool
occurs-find_tool n [] h = refl
occurs-find_tool n (t ∷ ts) h = let ih = occurs-find_tool n ts in ground (arith, ih)

pub appended-IsUnique :
    (t : Tool) (ts : List Tool)
    → find_tool t.number ts ≡ none
    → IsUnique ts
    → IsUnique (ts ++ t ∷ [])
unfolding occurs
appended-IsUnique t ts new h n = elim (Bool-cases (eqb_ℤ t.number n)) [
  | inl e ↦
      let none_yet =
        occurs-find_tool n ts (subst (λ k. find_tool k ts ≡ none) (eqb_ℤ→eq t.number n e) new) in
      omega (arith, occurs-append n ts (t ∷ []), none_yet, ap one_if e)
  | inr e ↦ omega (arith, occurs-append n ts (t ∷ []), h n, ap one_if e)
]

occurs-without_tool : (n k : ℤ) (ts : List Tool) → occurs n (without_tool k ts) ≤ occurs n ts
unfolding occurs without_tool
occurs-without_tool n k [] = omega arith
occurs-without_tool n k (t ∷ ts) =
    if-cases (λ us. occurs n us ≤ occurs n (t ∷ ts)) (eqb_ℤ t.number k) _ _
      (λ _. omega (arith, occurs-without_tool n k ts))
      (λ _. omega (arith, occurs-without_tool n k ts))

pub without_tool-IsUnique : (k : ℤ) (ts : List Tool) → IsUnique ts → IsUnique (without_tool k ts)
without_tool-IsUnique k ts h n = omega (arith, occurs-without_tool n k ts, h n)

-- A replaced row leaves one number and brings another.
occurs-replace_tool :
    (n k : ℤ) (t' : Tool) (ts : List Tool) (t : Tool)
    → find_tool k ts ≡ some t
    → one_if (eqb_ℤ k n) + occurs n (replace_tool k t' ts)
      ≡ one_if (eqb_ℤ t'.number n) + occurs n ts
unfolding occurs replace_tool find_tool
occurs-replace_tool n k t' [] t h = cc
occurs-replace_tool n k t' (u ∷ us) t h =
    if-cases
      (λ ts. one_if (eqb_ℤ k n) + occurs n ts ≡ one_if (eqb_ℤ t'.number n) + occurs n (u ∷ us))
      (eqb_ℤ u.number k) _ _
      (λ e. let is = ap (λ m. one_if (eqb_ℤ m n)) (eqb_ℤ→eq u.number k e) in omega (arith, is))
      (λ e. omega (arith, occurs-replace_tool n k t' us t (rw e at h)))

-- A row that keeps its number, or takes one that no row has.
pub replaced-IsUnique :
    (k : ℤ) (t' : Tool) (ts : List Tool) (t : Tool)
    → find_tool k ts ≡ some t
    → (t'.number ≡ k) ⊎ (find_tool t'.number ts ≡ none)
    → IsUnique ts
    → IsUnique (replace_tool k t' ts)
replaced-IsUnique k t' ts t found (inl same) h n =
    omega (arith, occurs-replace_tool n k t' ts t found, ap (λ m. one_if (eqb_ℤ m n)) same, h n)
replaced-IsUnique k t' ts t found (inr new) h n = elim (Bool-cases (eqb_ℤ t'.number n)) [
  | inl e ↦
      let none_yet =
        occurs-find_tool n ts (subst (λ m. find_tool m ts ≡ none) (eqb_ℤ→eq t'.number n e) new) in
      omega (arith, occurs-replace_tool n k t' ts t found, none_yet, ap one_if e)
  | inr e ↦ omega (arith, occurs-replace_tool n k t' ts t found, h n, ap one_if e)
]

pub find_tool-number : (n : ℤ) (ts : List Tool) (t : Tool) → find_tool n ts ≡ some t → t.number ≡ n
unfolding find_tool
find_tool-number n [] t h = cc
find_tool-number n (u ∷ us) t h = elim (Bool-cases (eqb_ℤ u.number n)) [
  | inl e ↦ subst (λ v. v.number ≡ n) (some-injective _ _ (rw e at h)) (eqb_ℤ→eq u.number n e)
  | inr e ↦ find_tool-number n us t (rw e at h)
]
