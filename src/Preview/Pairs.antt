-- ===== src/Preview/Pairs.antt =====
-- The loop of _rdp_keep in lcnc-gateway/gcode_parse_worker.py over the pairs of anchors.
use native.Mathlib.Decide.{dec_lt}
use lcnc_suite.Base.{
  ◌≡◌, refl, ◌∙◌, ℕ, ◌+◌, ◌-◌, ◌*◌, ◌≤◌, ltb, true, false, some, List, [], ◌∷◌, arith, Bool-cases,
  inl, inr,
}
use lcnc_suite.Preview.{Numpy, Point, Keep, thin_pair, thin_spans}
use lcnc_suite.Preview.Linked.{Next, Linked}
use lcnc_suite.Preview.Argmax.{IsNumpy}
use lcnc_suite.Preview.Spans.{passes, Inv, thin_span_total}

abbrev pub last_of : ℕ → List ℕ → ℕ
last_of a [] = a
last_of a (b ∷ xs) = last_of b xs

-- Marks that are the same from `b` on have the same neighbours there.
Linked-same :
    (keep keep' : Keep) (b : ℕ) (xs : List ℕ)
    → ((j : ℕ) → b ≤ j → keep' j ≡ keep j)
    → Linked (Next keep) (b ∷ xs)
    → Linked (Next keep') (b ∷ xs)
Linked-same keep keep' b [] same l = tt
Linked-same keep keep' b (c ∷ xs) same (n, l) = (
  record {
    below = n.below;
    left = same b (omega arith) ∙ n.left;
    right = same c (omega (arith, n.below)) ∙ n.right;
    free = λ j h h'. same j (omega arith) ∙ n.free j h h';
  },
  Linked-same keep keep' c xs (λ j h. same j (omega (arith, n.below))) l,
)

module _ {F : Type 0} (np : Numpy F) (points : ℕ → Point F) (eps_sq : F) where
  -- All from `lo` to `hi` is done.
  abbrev pub Done : Keep → ℕ → ℕ → Keep → Type 0
  Done start lo hi keep = Inv np points eps_sq start lo hi lo [] keep

  Done-short : (keep : Keep) (lo hi : ℕ) → lo ≤ hi → hi ≤ lo + 1 → Done keep lo hi keep
  Done-short keep lo hi h' h = record {
    chain = refl;
    within = h';
    close = λ x y l l' m k b b'. absurd (omega arith);
    before = λ j _. refl;
    after = λ j _. refl;
    grows = λ j e. e;
  }

  Inv-first :
      (keep : Keep) (lo hi : ℕ)
      → Next keep lo hi
      → Inv np points eps_sq keep lo hi hi ((lo, hi) ∷ []) keep
  Inv-first keep lo hi n = record {
    chain = (refl, n, refl);
    within = omega arith;
    close = λ x y l l' m. absurd (omega (arith, m.below));
    before = λ j _. refl;
    after = λ j _. refl;
    grows = λ j e. e;
  }

  -- One part after another.
  Done-trans :
      (start mid keep : Keep) (lo b hi : ℕ)
      → start b ≡ true
      → Done start lo b mid
      → Done mid b hi keep
      → Done start lo hi keep
  Done-trans start mid keep lo b hi on d e = record {
    chain = refl;
    within = omega (arith, d.within, e.within);
    close = λ x y l l' m. elim (dec_lt x b) [
      | yes lt ↦
          let upto : y ≤ b = ground (arith, m.free b, e.grows b, d.grows b, on) in
          d.close x y l upto (record {
            below = m.below;
            left = sym_before x (omega arith) m.left;
            right = sym_before y upto m.right;
            free = λ j h h'. sym_before_off j (omega arith) (m.free j h h');
          })
      | no ge ↦ e.close x y (omega arith) l' m
    ];
    before = λ j h. e.before j (omega (arith, d.within)) ∙ d.before j h;
    after = λ j h. e.after j h ∙ d.after j (omega (arith, e.within));
    grows = λ j h. e.grows j (d.grows j h);
  }
    where
      sym_before : (j : ℕ) → j ≤ b → keep j ≡ true → mid j ≡ true
      sym_before j h k = ground (arith, e.before j h, k)

      sym_before_off : (j : ℕ) → j ≤ b → keep j ≡ false → mid j ≡ false
      sym_before_off j h k = ground (arith, e.before j h, k)

  module _ (laws : IsNumpy np) where
    thin_pair_total :
        (keep : Keep) (lo hi : ℕ)
        → Next keep lo hi
        → (keep' : Keep) × (thin_pair np points eps_sq lo hi keep ≡ some keep')
          × Done keep lo hi keep'
    unfolding thin_pair
    thin_pair_total keep lo hi n = elim (Bool-cases (ltb (hi - lo) 2)) [
      | inl short ↦
          rw short
            (keep, refl, Done-short keep lo hi (omega (arith, n.below)) (ground (arith, short)))
      | inr long ↦ rw long (
          thin_span_total np points eps_sq laws keep lo hi (2 * (hi - lo)) hi ((lo, hi) ∷ []) keep
            (Inv-first keep lo hi n) (unfold passes in (omega arith)))
    ]

    pub thin_spans_total :
        (a : ℕ) (xs : List ℕ) (keep : Keep)
        → Linked (Next keep) (a ∷ xs)
        → (keep' : Keep) × (thin_spans np points eps_sq (a ∷ xs) keep ≡ some keep')
          × Done keep a (last_of a xs) keep'
    unfolding thin_spans
    thin_spans_total a [] keep l = (keep, refl, Done-short keep a a (omega arith) (omega arith))
    thin_spans_total a (b ∷ xs) keep (n, l) =
        let (mid, e, d) = thin_pair_total keep a b n in
        let (keep', e', d') = thin_spans_total b xs mid (Linked-same keep mid b xs d.after l) in
        (keep', rw (e, thin_spans) e', Done-trans keep mid keep' a b (last_of b xs) n.right d d')
