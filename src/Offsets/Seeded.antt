-- ===== src/Offsets/Seeded.antt =====
-- What a poll of lcnc-gateway/status_runtime.py leaves in the table of work offsets.
use mathlib.Core.Path.{subst}
use mathlib.Core.Option.{some-injective, none-ne-some}
use lcnc_suite.Base.{
  ◌≡◌, refl, ap, sym, ◌∙◌, ℕ, ◌<◌, ◌==◌, Bool, true, false, not, ◌&&◌, Option, none, some, List, [],
  ◌∷◌, arith, if◌then◌else◌, Bool-cases, Option-cases, inl, inr, is_some,
}
use lcnc_suite.Offsets.{Line, var, other_line, lookup, put, cell_of, read_var_file, set_cell, fill}
use lcnc_suite.Offsets.Cells.{number, cell_of-number, cell_of-eq, lookup-put, IsRaw, put-IsRaw}

away : (m n : ℕ) → is_some (cell_of m) ≡ false → is_some (cell_of n) ≡ true → (m == n) ≡ false
away m n not_wanted wanted = elim (Bool-cases (m == n)) [
  | inl same ↦ let e : m ≡ n = ground (arith, same) in cc
  | inr other ↦ other
]

cell_here : (i k j l : ℕ) → i ≡ j → k ≡ l → ((i == j) && (k == l)) ≡ true
cell_here i k j l e f = ground (arith, e, f)

wanted_missing : (n : ℕ) → is_some (cell_of n) ≡ true → cell_of n ≡ none → ⊥
wanted_missing n wanted missing = cc

module _ {F : Type 0} where
  abbrev pub or_else : F → Option F → F
  or_else old none = old
  or_else old (some x) = x

  -- The value of the last line for a number
  abbrev pub last_value : ℕ → List (Line F) → Option F → Option F
  last_value n [] before = before
  last_value n (other_line ∷ lines) before = last_value n lines before
  last_value n (var m none ∷ lines) before = last_value n lines before
  last_value n (var m (some x) ∷ lines) before =
      last_value n lines (if m == n then some x else before)

  -- What is wanted is found with its last value.
  abbrev IsRead : List (Line F) → List (ℕ × F) → List (ℕ × F) → Type 0
  IsRead lines raw d =
      IsRaw d
      × ((n : ℕ) → is_some (cell_of n) ≡ true → lookup n d ≡ last_value n lines (lookup n raw))

  module _ (zero_float : F) where
    read_var_file_lem :
        (lines : List (Line F)) (raw d : List (ℕ × F))
        → IsRaw raw
        → read_var_file zero_float lines raw ≡ some d
        → IsRead lines raw d
    unfolding read_var_file
    read_var_file_lem [] raw d h e =
        let same : raw ≡ d = some-injective _ _ e in
        (subst IsRaw same h, λ n _. ap (lookup n) (sym same))
    read_var_file_lem (other_line ∷ lines) raw d h e = read_var_file_lem lines raw d h e
    read_var_file_lem (var m none ∷ lines) raw d h e = elim (Bool-cases (is_some (cell_of m))) [
      | inl wanted ↦ absurd (none-ne-some d (rw wanted at e))
      | inr not_wanted ↦ read_var_file_lem lines raw d h (rw not_wanted at e)
    ]
    read_var_file_lem (var m (some x) ∷ lines) raw d h e = elim (Bool-cases (is_some (cell_of m))) [
      | inl wanted ↦
          let (is_raw, found) =
            read_var_file_lem lines (put m x raw) d (put-IsRaw m x raw wanted h) (rw wanted at e) in
          (is_raw, λ n n_wanted. found n n_wanted ∙ ap (last_value n lines) (lookup-put m n x raw))
      | inr not_wanted ↦
          let (is_raw, found) = read_var_file_lem lines raw d h (rw not_wanted at e) in
          (
            is_raw,
            λ n n_wanted.
                found n n_wanted ∙ ap (last_value n lines) (rw (away m n not_wanted n_wanted) refl),
          )
    ]

    -- One cell is set.
    fill_step :
        (n j l i k : ℕ) (x : F) (d : List (ℕ × F)) (cache : ℕ → ℕ → F)
        → cell_of n ≡ some (j, l)
        → lookup n d ≡ none
        → i < 9
        → k < 10
        → or_else (set_cell zero_float j l x cache i k) (lookup (number i k) d)
          ≡ or_else (cache i k) (if n == number i k then some x else lookup (number i k) d)
    unfolding set_cell
    fill_step n j l i k x d cache cell fresh i_lt k_lt = elim (Bool-cases (n == number i k)) [
      | inl same ↦
          let e : n ≡ number i k = ground (arith, same) in
          let gone : lookup (number i k) d ≡ none = subst (λ m. lookup m d ≡ none) e fresh in
          let c : (j, l) ≡ (i, k) =
            some-injective (j, l) (i, k) (sym cell ∙ ap cell_of e ∙ cell_of-number i k i_lt k_lt) in
          let here : ((i == j) && (k == l)) ≡ true =
            cell_here i k j l (sym (ap (λ q. q.0) c)) (sym (ap (λ q. q.1) c)) in
          rw (same, gone, here) refl
      | inr other ↦
          let e : n ≡ number j l = cell_of-eq n j l cell in
          let there : ((i == j) && (k == l)) ≡ false = ground (arith, other, e) in
          rw (other, there) refl
    ]

    fill_lem :
        (d : List (ℕ × F)) (cache : ℕ → ℕ → F) (i k : ℕ)
        → IsRaw d
        → i < 9
        → k < 10
        → fill zero_float d cache i k ≡ or_else (cache i k) (lookup (number i k) d)
    unfolding fill lookup set_cell
    fill_lem [] cache i k h i_lt k_lt = refl
    fill_lem ((n, x) ∷ d) cache i k h i_lt k_lt = elim (Option-cases (cell_of n)) [
      | inl missing ↦ absurd (wanted_missing n h.0 missing)
      | inr ((j, l), cell) ↦
          rw (fill, cell)
            (fill_lem d (set_cell zero_float j l x cache) i k h.2 i_lt k_lt
              ∙ fill_step n j l i k x d cache cell h.1 i_lt k_lt)
    ]

  -- Every value that is wanted is a float.
  abbrev pub is_readable : List (Line F) → Bool
  is_readable [] = true
  is_readable (other_line ∷ lines) = is_readable lines
  is_readable (var n none ∷ lines) = not (is_some (cell_of n)) && is_readable lines
  is_readable (var n (some x) ∷ lines) = is_readable lines

  -- What a seed makes of a cell
  abbrev pub seeded : List (Line F) → (ℕ → ℕ → F) → ℕ → ℕ → F
  seeded lines cache i k = or_else (cache i k) (last_value (number i k) lines none)

  module _ (zero_float : F) where
    pub readable-some :
        (lines : List (Line F)) (raw : List (ℕ × F))
        → is_readable lines ≡ true
        → (d : List (ℕ × F)) × (read_var_file zero_float lines raw ≡ some d)
    unfolding read_var_file
    readable-some [] raw h = (raw, refl)
    readable-some (other_line ∷ lines) raw h = readable-some lines raw h
    readable-some (var n none ∷ lines) raw h = elim (Bool-cases (is_some (cell_of n))) [
      | inl wanted ↦ let no : false ≡ true = rw wanted at h in absurd (ground (arith, no))
      | inr skipped ↦ rw skipped (readable-some lines raw (rw skipped at h))
    ]
    readable-some (var n (some x) ∷ lines) raw h = readable-some lines _ h

    pub unreadable-none :
        (lines : List (Line F)) (raw : List (ℕ × F))
        → is_readable lines ≡ false
        → read_var_file zero_float lines raw ≡ none
    unfolding read_var_file
    unreadable-none [] raw h = cc
    unreadable-none (other_line ∷ lines) raw h = unreadable-none lines raw h
    unreadable-none (var n none ∷ lines) raw h = elim (Bool-cases (is_some (cell_of n))) [
      | inl wanted ↦ rw wanted refl
      | inr skipped ↦ rw skipped (unreadable-none lines raw (rw skipped at h))
    ]
    unreadable-none (var n (some x) ∷ lines) raw h = unreadable-none lines _ h

    pub fill-seeded :
        (lines : List (Line F)) (d : List (ℕ × F)) (cache : ℕ → ℕ → F) (i k : ℕ)
        → read_var_file zero_float lines [] ≡ some d
        → i < 9
        → k < 10
        → fill zero_float d cache i k ≡ seeded lines cache i k
    unfolding lookup
    fill-seeded lines d cache i k e i_lt k_lt =
        let (is_raw, found) = read_var_file_lem zero_float lines [] d tt e in
        fill_lem zero_float d cache i k is_raw i_lt k_lt
        ∙ ap (or_else (cache i k)) (found (number i k) (rw (cell_of-number i k i_lt k_lt) refl))
