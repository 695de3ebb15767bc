-- ===== src/Offsets/Cells.antt =====
-- The numbers of the parameters of work offsets, and the dicts of lcnc-gateway/status_runtime.py.
use lcnc_suite.Base.{
  ◌≡◌, refl, ap, ◌∙◌, ℕ, zero, suc, ◌+◌, ◌*◌, ◌<◌, ◌==◌, Bool, true, false, ◌&&◌, Option, none,
  some, List, [], ◌∷◌, arith, if◌then◌else◌, Bool-cases, inl, inr, is_some,
}
use mathlib.Core.Path.{subst}
use mathlib.Core.Option.{some-injective}
use lcnc_suite.Offsets.{var_map, cell_of, lookup, put}

-- The parameter with the offset of a row at an axis
abbrev pub number : ℕ → ℕ → ℕ
number i k = 5221 + 20 * i + k

abbrev all_below : (ℕ → Bool) → ℕ → Bool
all_below f zero = true
all_below f (suc n) = f n && all_below f n

all_below-lt : (f : ℕ → Bool) (n i : ℕ) → all_below f n ≡ true → i < n → f i ≡ true
all_below-lt f zero i h lt = absurd (omega (arith, lt))
all_below-lt f (suc n) i h lt = elim (Bool-cases (i == n)) [
  | inl same ↦ ground (arith, same, h)
  | inr other ↦ all_below-lt f n i (ground (arith, h)) (ground (arith, other, lt))
]

abbrev is_cell : ℕ → ℕ → Option (ℕ × ℕ) → Bool
is_cell i k none = false
is_cell i k (some (j, l)) = j == i && l == k

is_cell-eq : (i k : ℕ) (c : Option (ℕ × ℕ)) → is_cell i k c ≡ true → c ≡ some (i, k)
is_cell-eq i k none h = cc
is_cell-eq i k (some (j, l)) h =
    let e : j ≡ i = ground (arith, h) in let f : l ≡ k = ground (arith, h) in rw (e, f) refl

cells_found :
    all_below (λ i. all_below (λ k. is_cell i k (lookup (number i k) var_map)) 10) 9 ≡ true
unfolding var_map lookup
cells_found = refl

pub cell_of-number : (i k : ℕ) → i < 9 → k < 10 → cell_of (number i k) ≡ some (i, k)
unfolding cell_of
cell_of-number i k i_lt k_lt = is_cell-eq i k (lookup (number i k) var_map) (
    all_below-lt (λ l. is_cell i l (lookup (number i l) var_map)) 10 k
      (all_below-lt (λ j. all_below (λ l. is_cell j l (lookup (number j l) var_map)) 10) 9 i
        cells_found i_lt)
      k_lt)

abbrev all_numbered : List (ℕ × (ℕ × ℕ)) → Bool
all_numbered [] = true
all_numbered ((n, (i, k)) ∷ rest) = n == number i k && all_numbered rest

map_numbered : all_numbered var_map ≡ true
unfolding var_map
map_numbered = refl

same_number :
    (m n j l i k : ℕ) → (m == n) ≡ true → (m == number j l) ≡ true → j ≡ i → l ≡ k → n ≡ number i k
same_number m n j l i k same numbered row axis = ground (arith, same, numbered, row, axis)

all_numbered-lookup :
    (cells : List (ℕ × (ℕ × ℕ))) (n i k : ℕ)
    → all_numbered cells ≡ true
    → lookup n cells ≡ some (i, k)
    → n ≡ number i k
unfolding lookup
all_numbered-lookup [] n i k h e = cc
all_numbered-lookup ((m, (j, l)) ∷ rest) n i k h e = elim (Bool-cases (m == n)) [
  | inl same ↦
      let first : (m == number j l) ≡ true = ground (arith, h) in
      let c : (j, l) ≡ (i, k) = some-injective (j, l) (i, k) (rw same at e) in
      same_number m n j l i k same first (ap (λ d. d.0) c) (ap (λ d. d.1) c)
  | inr other ↦ all_numbered-lookup rest n i k (ground (arith, h)) (rw other at e)
]

pub cell_of-eq : (n i k : ℕ) → cell_of n ≡ some (i, k) → n ≡ number i k
unfolding cell_of
cell_of-eq n i k = all_numbered-lookup var_map n i k map_numbered

-- The dicts
module _ {A : Type 0} where
  lookup-put-same : (n : ℕ) (a : A) (d : List (ℕ × A)) → lookup n (put n a d) ≡ some a
  unfolding lookup put
  lookup-put-same n a [] = ground arith
  lookup-put-same n a ((m, b) ∷ d) = elim (Bool-cases (m == n)) [
    | inl same ↦ rw same (rw same refl)
    | inr other ↦ rw other (rw other (lookup-put-same n a d))
  ]

  lookup-put-other :
      (n k : ℕ) (a : A) (d : List (ℕ × A)) → (n == k) ≡ false → lookup k (put n a d) ≡ lookup k d
  unfolding lookup put
  lookup-put-other n k a [] ne = rw ne refl
  lookup-put-other n k a ((m, b) ∷ d) ne = elim (Bool-cases (m == n)) [
    | inl same ↦ let away : (m == k) ≡ false = ground (arith, same, ne) in rw same (rw away refl)
    | inr other ↦ rw other (ap (λ q. if m == k then some b else q) (lookup-put-other n k a d ne))
  ]

  pub lookup-put :
      (n k : ℕ) (a : A) (d : List (ℕ × A))
      → lookup k (put n a d) ≡ (if n == k then some a else lookup k d)
  lookup-put n k a d = elim (Bool-cases (n == k)) [
    | inl same ↦
        let e : n ≡ k = ground (arith, same) in
        rw same (subst (λ j. lookup j (put n a d) ≡ some a) e (lookup-put-same n a d))
    | inr other ↦ rw other (lookup-put-other n k a d other)
  ]

  -- The numbers are of offsets, and none stands twice.
  abbrev pub IsRaw : List (ℕ × A) → Type 0
  IsRaw [] = Unit
  IsRaw ((n, a) ∷ d) = (is_some (cell_of n) ≡ true) × (lookup n d ≡ none) × IsRaw d

  pub put-IsRaw :
      (n : ℕ) (a : A) (d : List (ℕ × A)) → is_some (cell_of n) ≡ true → IsRaw d → IsRaw (put n a d)
  unfolding lookup put
  put-IsRaw n a [] wanted h = (wanted, refl, tt)
  put-IsRaw n a ((m, b) ∷ d) wanted h = elim (Bool-cases (m == n)) [
    | inl same ↦ rw same h
    | inr other ↦
        rw other
          (h.0, lookup-put-other n m a d (ground (arith, other)) ∙ h.1, put-IsRaw n a d wanted h.2)
  ]
