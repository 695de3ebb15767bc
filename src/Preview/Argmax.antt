-- ===== src/Preview/Argmax.antt =====
-- What the loop of lcnc-gateway/gcode_parse_worker.py relies on in np.argmax and in the order of floats.
use lcnc_suite.Base.{
  ◌≡◌, refl, ℕ, zero, suc, ◌+◌, ◌-◌, ◌<◌, true, false, some, List, [], ◌∷◌, map, arith, length,
  get_elem?, All,
}
use lcnc_suite.Preview.{Numpy, Point, range_from, far, pivot, splits}

-- `in_range` and `largest` are the documented behaviour of np.argmax; the order is that of floats other
-- than NaN.
pub record IsNumpy {F : Type 0} (np : Numpy F) : Type 0 where
  pub in_range : (d : F) (ds : List F) → np.argmax (d ∷ ds) < length (d ∷ ds)
  pub largest :
      (ds : List F) (m : F) → get_elem? ds (np.argmax ds) ≡ some m → All (λ d. np.gt d m ≡ false) ds
  pub not_above : (a b c : F) → np.gt a b ≡ false → np.gt b c ≡ false → np.gt a c ≡ false

module _ {F : Type 0} (f : ℕ → F) where
  length-map_range : (k count : ℕ) → length (map f (range_from k count)) ≡ count
  unfolding range_from
  length-map_range k zero = refl
  length-map_range k (suc count) = omega (arith, length-map_range (k + 1) count)

  get-map_range :
      (k count i : ℕ) → i < count → get_elem? (map f (range_from k count)) i ≡ some (f (k + i))
  unfolding range_from
  get-map_range k zero i h = absurd (omega arith)
  get-map_range k (suc count) zero h = let e : k + 0 ≡ k = omega arith in rw e refl
  get-map_range k (suc count) (suc i) h =
      let e : k + suc i ≡ k + 1 + i = omega arith in
      rw e (get-map_range (k + 1) count i (omega arith))

  All-map_range :
      (P : F → Type 0) (k count i : ℕ)
      → All P (map f (range_from k count))
      → i < count
      → P (f (k + i))
  unfolding range_from
  All-map_range P k zero i a h = absurd (omega arith)
  All-map_range P k (suc count) zero (a, rest) h = let e : k + 0 ≡ k = omega arith in rw e a
  All-map_range P k (suc count) (suc i) (a, rest) h =
      let e : k + suc i ≡ k + 1 + i = omega arith in
      rw e (All-map_range P (k + 1) count i rest (omega arith))

module _ {F : Type 0} (np : Numpy F) (points : ℕ → Point F) (eps_sq : F) where
  -- No point between the two is farther from their chord than the tolerance.
  abbrev pub IsClose : ℕ → ℕ → Type 0
  IsClose a b = (k : ℕ) → a < k → k < b → np.gt (far np points eps_sq a b k) eps_sq ≡ false

module _ {F : Type 0} (np : Numpy F) (laws : IsNumpy np) (points : ℕ → Point F) (eps_sq : F) where
  argmax-lt : (ds : List F) → 0 < length ds → np.argmax ds < length ds
  argmax-lt [] h = absurd (omega arith)
  argmax-lt (d ∷ ds) h = laws.in_range d ds

  -- What np.argmax is called with
  abbrev distances : ℕ → ℕ → List F
  distances i0 i1 = map (far np points eps_sq i0 i1) (range_from (i0 + 1) (i1 - i0 - 1))

  offset : (i0 i1 : ℕ) → i0 + 1 < i1 → np.argmax (distances i0 i1) < i1 - i0 - 1
  offset i0 i1 h =
      let e = length-map_range (far np points eps_sq i0 i1) (i0 + 1) (i1 - i0 - 1) in
      omega (arith, e, argmax-lt (distances i0 i1) (omega (arith, e)))

  pub pivot_between :
      (i0 i1 : ℕ)
      → splits np points eps_sq i0 i1 ≡ true
      → (i0 < pivot np points eps_sq i0 i1) × (pivot np points eps_sq i0 i1 < i1)
  unfolding pivot
  pivot_between i0 i1 h =
      let inside : i0 + 1 < i1 = ground (arith, h) in
      (omega arith, omega (arith, offset i0 i1 inside))

  far_largest :
      (i0 i1 i : ℕ)
      → i0 + 1 < i1
      → i < i1 - i0 - 1
      → np.gt
          (far np points eps_sq i0 i1 (i0 + 1 + i))
          (far np points eps_sq i0 i1 (pivot np points eps_sq i0 i1))
        ≡ false
  unfolding pivot
  far_largest i0 i1 i inside h =
      All-map_range (far np points eps_sq i0 i1) _ (i0 + 1) (i1 - i0 - 1) i
        (laws.largest (distances i0 i1) _ (
          get-map_range (far np points eps_sq i0 i1) (i0 + 1) (i1 - i0 - 1) _
            (offset i0 i1 inside)))
        h

  -- A span that is not split has no point farther from its chord than the tolerance.
  pub unsplit_close :
      (i0 i1 k : ℕ)
      → splits np points eps_sq i0 i1 ≡ false
      → i0 < k
      → k < i1
      → np.gt (far np points eps_sq i0 i1 k) eps_sq ≡ false
  unsplit_close i0 i1 k h below above =
      let e : i0 + 1 + (k - i0 - 1) ≡ k = omega arith in
      laws.not_above (far np points eps_sq i0 i1 k)
        (far np points eps_sq i0 i1 (pivot np points eps_sq i0 i1)) eps_sq
        (rw e at (far_largest i0 i1 (k - i0 - 1) (omega arith) (omega arith))) (ground (arith, h))
