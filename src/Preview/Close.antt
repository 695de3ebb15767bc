-- ===== src/Preview/Close.antt =====
-- What is left of a polyline by lcnc-gateway/gcode_parse_worker.py, and how far the rest is from it.
use native.Mathlib.Decide.{ℕ_discrete}
use lcnc_suite.Base.{
  ◌≡◌, refl, ap, ℕ, zero, suc, ◌+◌, ◌-◌, ◌≤◌, ◌<◌, ltb, leb, true, false, some, List, [], ◌∷◌,
  arith, if◌then◌else◌, Bool-cases, ◌⊎◌, inl, inr, All,
}
use lcnc_suite.Preview.{
  Numpy, Point, Keep, mark, range_from, flat_nonzero, mark_anchors, start_marks, thin_spans,
  kept_of, rdp_keep,
}
use lcnc_suite.Preview.Linked.{Next, Linked, marked-Linked, flat_nonzero-Linked, Free-one}
use lcnc_suite.Preview.Argmax.{IsNumpy, IsClose}
use lcnc_suite.Preview.Pairs.{last_of, Done, thin_spans_total}

abbrev pub Has : ℕ → List ℕ → Type 0
Has a [] = ⊥
Has a (x ∷ xs) = (a ≡ x) ⊎ Has a xs

module _ (keep : Keep) where
  Has-flat_nonzero :
      (k count j : ℕ) → keep j ≡ true → k ≤ j → j < k + count → Has j (flat_nonzero keep k count)
  unfolding flat_nonzero
  Has-flat_nonzero k zero j on l h = absurd (omega arith)
  Has-flat_nonzero k (suc count) j on l h = elim (ℕ_discrete j k) [
    | yes e ↦ let here : keep k ≡ true = ground (arith, on) in rw here (inl e)
    | no ne ↦
        let rest = Has-flat_nonzero (k + 1) count j on (omega arith) (omega arith) in
        elim (Bool-cases (keep k)) [ inl e ↦ rw e (inr rest) | inr e ↦ rw e rest ]
  ]

  below-flat_nonzero :
      (k count n : ℕ) → k + count ≤ n → All (λ j. j < n) (flat_nonzero keep k count)
  unfolding flat_nonzero
  below-flat_nonzero k zero n h = tt
  below-flat_nonzero k (suc count) n h =
      let rest = below-flat_nonzero (k + 1) count n (omega arith) in
      elim (Bool-cases (keep k)) [ inl e ↦ rw e (omega arith, rest) | inr e ↦ rw e rest ]

  last_of-flat_nonzero :
      (k count a j : ℕ)
      → keep j ≡ true
      → k + count ≡ j
      → last_of a (flat_nonzero keep k (suc count)) ≡ j
  unfolding flat_nonzero
  last_of-flat_nonzero k zero a j on e =
      let here : keep k ≡ true = ground (arith, on) in rw here (omega arith)
  last_of-flat_nonzero k (suc count) a j on e = elim (Bool-cases (keep k)) [
    | inl here ↦ rw (here, flat_nonzero) (last_of-flat_nonzero (k + 1) count k j on (omega arith))
    | inr here ↦ rw (here, flat_nonzero) (last_of-flat_nonzero (k + 1) count a j on (omega arith))
  ]

flat_nonzero-first :
    (keep : Keep) (count : ℕ)
    → keep 0 ≡ true
    → flat_nonzero keep 0 (suc count) ≡ 0 ∷ flat_nonzero keep 1 count
unfolding flat_nonzero
flat_nonzero-first keep count on = rw on refl

-- All indices are marked in a range.
range-flat_nonzero : (k count : ℕ) → range_from k count ≡ flat_nonzero (λ _. true) k count
unfolding range_from flat_nonzero
range-flat_nonzero k zero = refl
range-flat_nonzero k (suc count) = ap (λ xs. k ∷ xs) (range-flat_nonzero (k + 1) count)

mark_anchors-grows :
    (n : ℕ) (anchors : List ℕ) (keep : Keep) (j : ℕ)
    → keep j ≡ true
    → mark_anchors n anchors keep j ≡ true
unfolding mark_anchors mark
mark_anchors-grows n [] keep j h = h
mark_anchors-grows n (a ∷ anchors) keep j h =
    mark_anchors-grows n anchors (if ltb a n then mark a keep else keep) j (ground (arith, h))

mark_anchors-marks :
    (n : ℕ) (anchors : List ℕ) (keep : Keep) (j : ℕ)
    → Has j anchors
    → j < n
    → mark_anchors n anchors keep j ≡ true
unfolding mark_anchors mark
mark_anchors-marks n [] keep j h lt = elim h [ ]
mark_anchors-marks n (a ∷ anchors) keep j (inl e) lt =
    mark_anchors-grows n anchors (if ltb a n then mark a keep else keep) j (ground arith)
mark_anchors-marks n (a ∷ anchors) keep j (inr h) lt =
    mark_anchors-marks n anchors (if ltb a n then mark a keep else keep) j h lt

module _ {F : Type 0} (np : Numpy F) (points : ℕ → Point F) (eps_sq : F) where
  -- What is kept of `n` points
  pub record IsThinned (n : ℕ) (anchors kept : List ℕ) : Type 0 where
    pub first : 0 < n → Has 0 kept
    pub last : 0 < n → Has (n - 1) kept
    pub anchored : (a : ℕ) → Has a anchors → a < n → Has a kept
    pub below : All (λ j. j < n) kept
    pub linked : Linked (λ a b. (a < b) × IsClose np points eps_sq a b) kept

  marked-IsThinned :
      (n end : ℕ) (anchors : List ℕ) (keep : Keep)
      → end ≡ n - 1
      → keep 0 ≡ true
      → keep end ≡ true
      → ((a : ℕ) → Has a anchors → a < n → keep a ≡ true)
      → ((x y : ℕ) → y < n → Next keep x y → IsClose np points eps_sq x y)
      → IsThinned n anchors (flat_nonzero keep 0 n)
  marked-IsThinned n end anchors keep at_end on_first on_last on close = record {
    first = λ h. Has-flat_nonzero keep 0 n 0 on_first (omega arith) (omega arith);
    last = λ h. rw (← at_end) (Has-flat_nonzero keep 0 n end on_last (omega arith) (omega arith));
    anchored = λ a h lt. Has-flat_nonzero keep 0 n a (on a h lt) (omega arith) (omega arith);
    below = below-flat_nonzero keep 0 n n (omega arith);
    linked = marked-Linked keep _ n (λ x y lt m. (m.below, close x y lt m)) on_first;
  }

  pub range-IsThinned : (n : ℕ) (anchors : List ℕ) → IsThinned n anchors (range_from 0 n)
  range-IsThinned n anchors = rw (range-flat_nonzero 0 n) (
      marked-IsThinned n (n - 1) anchors (λ _. true) refl refl refl (λ a h lt. refl)
        (λ x y lt m k l l'. absurd (ground (arith, m.free k l l'))))

  kept_of-some :
      (m : ℕ) (keep keep' : Keep)
      → keep 0 ≡ true
      → thin_spans np points eps_sq (0 ∷ flat_nonzero keep 1 (suc m)) keep ≡ some keep'
      → kept_of np points eps_sq (suc (suc m)) keep ≡ some (flat_nonzero keep' 0 (suc (suc m)))
  unfolding kept_of
  kept_of-some m keep keep' on e =
      rw (flat_nonzero-first keep (suc m) on, kept_of) (rw (e, kept_of) refl)

  module _ (laws : IsNumpy np) where
    kept_of_total :
        (m : ℕ) (keep : Keep)
        → keep 0 ≡ true
        → keep (suc m) ≡ true
        → (keep' : Keep) × (kept_of np points eps_sq (suc (suc m)) keep
            ≡ some (flat_nonzero keep' 0 (suc (suc m))))
          × Done np points eps_sq keep 0 (suc m) keep'
    unfolding kept_of
    kept_of_total m keep on_first on_last =
        let linked =
          flat_nonzero-Linked keep (Next keep) 1 (suc m) 0 (λ x y _ h. h) on_first (omega arith)
            (Free-one keep 0) in
        let (keep', e, d) =
          thin_spans_total np points eps_sq laws 0 (flat_nonzero keep 1 (suc m)) keep linked in
        (
          keep',
          kept_of-some m keep keep' on_first e,
          rw (last_of-flat_nonzero keep 1 m 0 (suc m) on_last (omega arith)) at d,
        )

    start_marks-on :
        (n : ℕ) (anchors : List ℕ) (j : ℕ)
        → ((j ≡ 0) ⊎ (j ≡ n - 1)) ⊎ (Has j anchors × (j < n))
        → start_marks n anchors j ≡ true
    unfolding start_marks mark
    start_marks-on n anchors j (inl e) =
        mark_anchors-grows n anchors (mark (n - 1) (mark 0 (λ _. false))) j
          (elim e [ inl first ↦ ground arith | inr last ↦ ground arith ])
    start_marks-on n anchors j (inr (h, lt)) = mark_anchors-marks n anchors _ j h lt

    kept_of-IsThinned :
        (m : ℕ) (anchors : List ℕ)
        → (kept : List ℕ) × (kept_of np points eps_sq
              (suc (suc m))
              (start_marks (suc (suc m)) anchors)
            ≡ some kept)
          × IsThinned (suc (suc m)) anchors kept
    kept_of-IsThinned m anchors =
        let n : ℕ = suc (suc m) in
        let on_first = start_marks-on n anchors 0 (inl (inl refl)) in
        let on_last = start_marks-on n anchors (suc m) (inl (inr (omega arith))) in
        let (keep', e, d) = kept_of_total m (start_marks n anchors) on_first on_last in
        (
          flat_nonzero keep' 0 n,
          e,
          marked-IsThinned n (suc m) anchors keep' (omega arith) (d.grows 0 on_first)
              (d.grows (suc m) on_last)
              (λ a h lt. d.grows a (start_marks-on n anchors a (inr (h, lt))))
              (λ x y lt h. d.close x y (omega arith) (omega arith) h),
        )

    -- Whatever the anchors, _rdp_keep ends, and keeps the first and the last point and the anchors; it
    -- keeps no index twice and none out of range, in ascending order; and every point between two that
    -- it keeps next to each other is no farther from their chord than the tolerance.
    pub rdp_keep-IsThinned :
        (n : ℕ) (anchors : List ℕ)
        → (kept : List ℕ) × (rdp_keep np points eps_sq n anchors ≡ some kept)
          × IsThinned n anchors kept
    unfolding rdp_keep
    rdp_keep-IsThinned zero anchors = (range_from 0 0, refl, range-IsThinned 0 anchors)
    rdp_keep-IsThinned (suc zero) anchors = (range_from 0 1, refl, range-IsThinned 1 anchors)
    rdp_keep-IsThinned (suc (suc m)) anchors = elim (Bool-cases (leb (suc (suc m)) 2)) [
      | inl small ↦
          rw small (range_from 0 (suc (suc m)), refl, range-IsThinned (suc (suc m)) anchors)
      | inr large ↦ rw large (kept_of-IsThinned m anchors)
    ]
