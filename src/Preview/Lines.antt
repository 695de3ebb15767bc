-- ===== src/Preview/Lines.antt =====
-- The lines of the program in the feed that lcnc-gateway/gcode_parse_worker.py leaves.
use native.Mathlib.Decide.{ℕ_discrete}
use lcnc_suite.Base.{
  ◌≡◌, ◌≢◌, refl, sym, ◌∙◌, ℕ, zero, suc, ◌+◌, ◌-◌, ◌≤◌, ◌<◌, ltb, ◌==◌, false, Option, some, List,
  ◌∷◌, arith, if-cases, length, Bool-cases, inl, inr,
}
use lcnc_suite.Preview.{Numpy, Point, line_changes, thin_feed}
use lcnc_suite.Preview.Argmax.{IsNumpy}
use lcnc_suite.Preview.Close.{Has, IsThinned, rdp_keep-IsThinned, range-IsThinned}

module _ (lines : ℕ → ℕ) where
  Has-line_changes :
      (k count i : ℕ)
      → k ≤ i
      → i < k + count
      → lines i ≢ lines (i - 1)
      → Has i (line_changes lines k count)
  unfolding line_changes
  Has-line_changes k zero i l h ne = absurd (omega arith)
  Has-line_changes k (suc count) i l h ne = elim (ℕ_discrete i k) [
    | yes e ↦
        let here : (lines k == lines (k - 1)) ≡ false = ground (arith, rw e at ne) in
        rw here (inl e)
    | no later ↦
        let rest = Has-line_changes (k + 1) count i (omega arith) (omega arith) ne in
        if-cases (Has i) (lines k == lines (k - 1)) _ _ (λ _. rest) (λ _. inr rest)
  ]

  -- What parse anchors
  abbrev pub line_starts : ℕ → List ℕ
  line_starts n = 0 ∷ line_changes lines 1 (n - 1)

  module _ {F : Type 0} (np : Numpy F) (points : ℕ → Point F) (eps_sq : F) where
    -- A point of the line that is kept, and where
    abbrev pub HasLine : List ℕ → ℕ → Type 0
    HasLine kept i = (j : ℕ) × Has j kept × (j ≤ i) × (lines j ≡ lines i)

    IsThinned-line :
        (n : ℕ) (kept : List ℕ)
        → IsThinned np points eps_sq n (line_starts n) kept
        → (i : ℕ) → i < n
        → HasLine kept i
    IsThinned-line n kept t zero h = (0, t.first (omega arith), omega arith, refl)
    IsThinned-line n kept t (suc i) h = elim (ℕ_discrete (lines (suc i)) (lines i)) [
      | yes e ↦
          let (j, has, le, same) = IsThinned-line n kept t i (omega arith) in
          (j, has, omega arith, same ∙ sym e)
      | no ne ↦
          let e : suc i - 1 ≡ i = omega arith in
          let start = Has-line_changes 1 (n - 1) (suc i) (omega arith) (omega arith) (rw e ne) in
          (suc i, t.anchored (suc i) (inr start) h, omega arith, refl)
    ]

    -- If some list of indices is left, it is a thinned polyline that has a point of each line.
    abbrev pub KeepsLines : ℕ → Option (List ℕ) → Type 0
    KeepsLines n r =
        (kept : List ℕ) × (r ≡ some kept)
        × IsThinned np points eps_sq n (line_starts n) kept
        × ((i : ℕ) → i < n → HasLine kept i)

    thinned-KeepsLines :
        (n : ℕ) (kept : List ℕ)
        → IsThinned np points eps_sq n (line_starts n) kept
        → KeepsLines n (some kept)
    thinned-KeepsLines n kept t = (kept, refl, t, IsThinned-line n kept t)

    -- The thinning of the feed ends, and for every point of the feed it keeps a point that is not later
    -- and is of the same line of the program; and between two points that it keeps next to each other no
    -- point is farther from their chord than the tolerance.
    pub thin_feed-KeepsLines :
        (laws : IsNumpy np) (n : ℕ) → KeepsLines n (thin_feed np points eps_sq lines n)
    unfolding thin_feed
    thin_feed-KeepsLines laws n = elim (Bool-cases (ltb 2 n)) [
      | inr small ↦
          rw small (thinned-KeepsLines n _ (range-IsThinned np points eps_sq n (line_starts n)))
      | inl large ↦
          let (kept, e, t) = rdp_keep-IsThinned np points eps_sq laws n (line_starts n) in
          rw large (
            rw (e, thin_feed)
              (thinned-KeepsLines n _ (
                if-cases (IsThinned np points eps_sq n (line_starts n)) (ltb (length kept) n) _ _
                  (λ _. t) (λ _. range-IsThinned np points eps_sq n (line_starts n)))))
    ]
