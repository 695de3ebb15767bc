-- ===== src/Gateway/Handlers/Chunks.antt =====
-- The chunks of `set_probe_vars` fit the interpreter's buffer and hold every assignment, in order.
use Prim.Native.String
use Prim.Native.String.{count}
use text.Mathlib.Text.{◌==◌ as str_eq}
use text.Mathlib.TextEquality.{eq_iff}
use text.Mathlib.TextLemmas.{append_assoc, length-append as count-append}
use lcnc_suite.Base.{
  ◌≡◌, refl, ap, ◌∙◌, String, ◌+◌, ◌≤◌, ltb, false, not, ◌&&◌, List, [], ◌∷◌, All, arith, inl, inr,
  Bool-cases, if-cases,
}
use lcnc_suite.Gateway.Vars.{chunks_from, chunks, space}

abbrev pub Fits : String → Type 0
Fits s = count s ≤ 250

abbrev pub IsNonempty : String → Type 0
IsNonempty s = str_eq s "" ≡ false

-- The texts one after another, each behind a blank.
unfoldable pub spread : List String → String
spread [] = ""
spread (x ∷ xs) = String.◌++◌ " " (String.◌++◌ x (spread xs))

abbrev joined : String → String → String
joined current item = String.◌++◌ current (String.◌++◌ space item)

joined-count : (a b : String) → count (joined a b) ≡ count a + 1 + count b
joined-count a b = omega (arith, count-append a (String.◌++◌ space b), count-append space b)

joined-IsNonempty : (a b : String) → IsNonempty a → IsNonempty (joined a b)
joined-IsNonempty a b h = elim (Bool-cases (str_eq (joined a b) "")) [
  | inl e ↦
      let none_left : count (joined a b) ≡ 0 = ap count ((eq_iff (joined a b) "").0 e) in
      absurd (omega (arith, none_left, joined-count a b))
  | inr e ↦ e
]

chunks_from-spread :
    (current : String) (items : List String)
    → IsNonempty current
    → All IsNonempty items
    → spread (chunks_from current items) ≡ String.◌++◌ " " (String.◌++◌ current (spread items))
unfolding chunks_from spread
chunks_from-spread current [] h hs =
    if-cases (λ cs. spread cs ≡ String.◌++◌ " " (String.◌++◌ current "")) (str_eq current "") []
      (current ∷ []) (λ e. cc) (λ e. refl)
chunks_from-spread current (item ∷ items) h (i, is) =
    if-cases (λ cs. spread cs ≡ spread (current ∷ item ∷ items))
      (not (str_eq current "") && ltb 250 (count current + 1 + count item)) _ _
      (λ _. ap (λ s. String.◌++◌ " " (String.◌++◌ current s)) (chunks_from-spread item items i is))
      (λ _. rw h (
        filled
          (chunks_from-spread (joined current item) items (joined-IsNonempty current item h) is)))
  where
    filled :
        spread (chunks_from (joined current item) items)
          ≡ String.◌++◌ " " (String.◌++◌ (joined current item) (spread items))
        → spread (chunks_from (joined current item) items) ≡ spread (current ∷ item ∷ items)
    filled ih =
        ih
        ∙ ap (String.◌++◌ " ") (
            append_assoc current (String.◌++◌ space item) (spread items)
            ∙ ap (String.◌++◌ current) (append_assoc space item (spread items)))

chunks_from-Fits :
    (current : String) (items : List String)
    → Fits current
    → All Fits items
    → All Fits (chunks_from current items)
unfolding chunks_from
chunks_from-Fits current [] h hs =
    if-cases (All Fits) (str_eq current "") [] (current ∷ []) (λ _. tt) (λ _. (h, tt))
chunks_from-Fits current (item ∷ items) h (i, is) =
    if-cases (All Fits) (not (str_eq current "") && ltb 250 (count current + 1 + count item)) _ _
      (λ _. (h, chunks_from-Fits item items i is))
      (λ short.
        chunks_from-Fits _ items
          (if-cases Fits (str_eq current "") item (joined current item) (λ _. i)
            (λ e. within (joined-count current item) e short))
          is)
  where
    within :
        count (joined current item) ≡ count current + 1 + count item
        → str_eq current "" ≡ false
        → (not (str_eq current "") && ltb 250 (count current + 1 + count item)) ≡ false
        → Fits (joined current item)
    within c e short = ground arith

-- For assignments that are not empty and fit the buffer of 250 characters, every chunk fits it, and
-- the chunks one after another, a blank before each, are the assignments one after another: none is
-- lost, split or moved.
pub chunks_lem :
    (items : List String)
    → All IsNonempty items
    → All Fits items
    → All Fits (chunks items) × (spread (chunks items) ≡ spread items)
unfolding chunks chunks_from spread
chunks_lem [] full fit = (tt, refl)
chunks_lem (item ∷ items) (i, is) (f, fs) =
    (chunks_from-Fits item items f fs, chunks_from-spread item items i is)
