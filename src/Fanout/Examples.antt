-- ===== src/Fanout/Examples.antt =====
-- The theorems of the fan-out at concrete values.
use lcnc_suite.Base.{refl, ℕ, ◌==◌, none, some, [], ◌∷◌, ◌++◌, arith}
use lcnc_suite.Fanout.{Status, start, ticks, find_field}
use lcnc_suite.Fanout.View.{IsDistinct, Shows, ticks_lem}

abbrev first : Status ℕ
first = ("vel", 1) ∷ ("pos", 2) ∷ []

abbrev second : Status ℕ
second = ("vel", 1) ∷ ("pos", 3) ∷ []

ticks_lem_example :
    Shows
      (λ a b. a == b)
      (ticks (λ a b. a == b) 5 ((some first ∷ none ∷ []) ++ some second ∷ []) (start, [])).1
      second
unfolding IsDistinct find_field
ticks_lem_example =
    ticks_lem (λ a b. a == b) (λ a b c h k. ground arith) 5 (some first ∷ none ∷ []) second
      ((refl, (refl, tt)), tt) (refl, (refl, tt))
