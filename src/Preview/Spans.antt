-- ===== src/Preview/Spans.antt =====
-- The inner loop of _rdp_keep in lcnc-gateway/gcode_parse_worker.py: its stack goes back from the right
-- end of a span without gaps.
use lcnc_suite.Base.{
  ◌≡◌, ◌≢◌, refl, ◌∙◌, ℕ, zero, suc, ◌+◌, ◌-◌, ◌*◌, ◌≤◌, ◌<◌, true, some, List, [], ◌∷◌, arith,
  if-cases,
}
use native.Mathlib.Decide.{dec_lt}
use lcnc_suite.Preview.{Numpy, Point, Keep, Span, mark, pivot, splits, pass, thin_span}
use lcnc_suite.Preview.Linked.{Next}
use lcnc_suite.Preview.Argmax.{IsNumpy, IsClose, pivot_between, unsplit_close}

-- The spans of the stack, from `r` back to `lo`
abbrev pub Chain : Keep → ℕ → ℕ → List Span → Type 0
Chain keep lo r [] = r ≡ lo
Chain keep lo r ((a, b) ∷ stack) = (b ≡ r) × Next keep a b × Chain keep lo a stack

-- The passes that the stack asks for, at most
unfoldable pub passes : List Span → ℕ
passes [] = 0
passes ((a, b) ∷ stack) = 2 * (b - a) - 1 + passes stack

Chain-le : (keep : Keep) (lo r : ℕ) (stack : List Span) → Chain keep lo r stack → lo ≤ r
Chain-le keep lo r [] c = omega arith
Chain-le keep lo r ((a, b) ∷ stack) (e, n, c) = omega (arith, n.below, Chain-le keep lo a stack c)

-- A mark beyond the two
Next-mark : (keep : Keep) (p a b : ℕ) → Next keep a b → b < p → Next (mark p keep) a b
unfolding mark
Next-mark keep p a b n h = record {
  below = n.below;
  left = ground (arith, n.left);
  right = ground (arith, n.right);
  free = λ j l g. ground (arith, n.free j l g);
}

Chain-mark :
    (keep : Keep) (p lo r : ℕ) (stack : List Span)
    → Chain keep lo r stack
    → r < p
    → Chain (mark p keep) lo r stack
Chain-mark keep p lo r [] c h = c
Chain-mark keep p lo r ((a, b) ∷ stack) (e, n, c) h = (
  e,
  Next-mark keep p a b n (omega arith),
  Chain-mark keep p lo a stack c (omega (arith, n.below)),
)

-- A mark between the two
mark-left : (keep : Keep) (p a b : ℕ) → Next keep a b → a < p → p < b → Next (mark p keep) a p
unfolding mark
mark-left keep p a b n h h' = record {
  below = h;
  left = ground (arith, n.left);
  right = ground arith;
  free = λ j l g. ground (arith, n.free j l (omega arith));
}

mark-right : (keep : Keep) (p a b : ℕ) → Next keep a b → a < p → p < b → Next (mark p keep) p b
unfolding mark
mark-right keep p a b n h h' = record {
  below = h';
  left = ground arith;
  right = ground (arith, n.right);
  free = λ j l g. ground (arith, n.free j (omega arith) g);
}

-- A mark before the two
Next-unmark : (keep : Keep) (p x y : ℕ) → Next (mark p keep) x y → p < x → Next keep x y
unfolding mark
Next-unmark keep p x y n h = record {
  below = n.below;
  left = ground (arith, n.left);
  right = ground (arith, n.right, n.below);
  free = λ j l g. ground (arith, n.free j l g);
}

mark-other : (keep : Keep) (p j : ℕ) → j ≢ p → mark p keep j ≡ keep j
unfolding mark
mark-other keep p j h = ground (arith, h)

mark-grows : (keep : Keep) (p j : ℕ) → keep j ≡ true → mark p keep j ≡ true
unfolding mark
mark-grows keep p j h = ground (arith, h)

-- Neighbours from `a` on are `a` and `b`, or stand from `b` on.
Next-from :
    (keep : Keep) (a b x y : ℕ) → Next keep a b → Next keep x y → a ≤ x → x < b → (x ≡ a) × (y ≡ b)
Next-from keep a b x y n m h h' = (
  ground (arith, n.free x, m.left),
  ground (arith, n.free x, m.left, n.free y, m.right, m.free b, n.right, m.below, n.below),
)

module _ {F : Type 0} (np : Numpy F) (points : ℕ → Point F) (eps_sq : F) where
  -- Between passes, for the span from `lo` to `hi` of `start`: what is right of `r` is done.
  pub record Inv (start : Keep) (lo hi r : ℕ) (stack : List Span) (keep : Keep) : Type 0 where
    pub chain : Chain keep lo r stack
    pub within : r ≤ hi
    pub close : (x y : ℕ) → r ≤ x → y ≤ hi → Next keep x y → IsClose np points eps_sq x y
    pub before : (j : ℕ) → j ≤ lo → keep j ≡ start j
    pub after : (j : ℕ) → hi ≤ j → keep j ≡ start j
    pub grows : (j : ℕ) → start j ≡ true → keep j ≡ true

  -- The top of the stack is divided.
  split-Inv :
      (start keep : Keep) (lo hi r a b p : ℕ) (stack : List Span)
      → Inv start lo hi r ((a, b) ∷ stack) keep
      → a < p
      → p < b
      → Inv start lo hi b ((p, b) ∷ (a, p) ∷ stack) (mark p keep)
  split-Inv start keep lo hi r a b p stack i left right =
      let (e, n, c) = i.chain in
      record {
        chain = (
          refl,
          mark-right keep p a b n left right,
          (refl, mark-left keep p a b n left right, Chain-mark keep p lo a stack c left),
        );
        within = omega (arith, e, i.within);
        close = λ x y h h' m.
            i.close x y (omega (arith, e)) h' (Next-unmark keep p x y m (omega arith));
        before =
            λ j h. mark-other keep p j (omega (arith, Chain-le keep lo a stack c)) ∙ i.before j h;
        after = λ j h. mark-other keep p j (omega (arith, e, i.within)) ∙ i.after j h;
        grows = λ j h. mark-grows keep p j (i.grows j h);
      }

  -- The top of the stack is done.
  drop-Inv :
      (start keep : Keep) (lo hi r a b : ℕ) (stack : List Span)
      → Inv start lo hi r ((a, b) ∷ stack) keep
      → IsClose np points eps_sq a b
      → Inv start lo hi a stack keep
  drop-Inv start keep lo hi r a b stack i c =
      let (e, n, rest) = i.chain in
      record {
        chain = rest;
        within = omega (arith, e, i.within, n.below);
        close = λ x y h h' m. elim (dec_lt x b) [
          | yes lt ↦ let (ex, ey) = Next-from keep a b x y n m h lt in rw (ex, ey) c
          | no ge ↦ i.close x y (omega (arith, e)) h' m
        ];
        before = i.before;
        after = i.after;
        grows = i.grows;
      }

  module _ (laws : IsNumpy np) where
    -- What is left of the stack, and the right end of what is not done
    record Goes (start : Keep) (lo hi fuel : ℕ) (r : List Span × Keep) : Type 0 where
      right : ℕ
      inv : Inv start lo hi right r.0 r.1
      enough : passes r.0 ≤ fuel

    pass-Goes :
        (start keep : Keep) (lo hi fuel r a b : ℕ) (stack : List Span)
        → Inv start lo hi r ((a, b) ∷ stack) keep
        → passes ((a, b) ∷ stack) ≤ suc fuel
        → Goes start lo hi fuel (pass np points eps_sq (a, b) stack keep)
    unfolding pass passes
    pass-Goes start keep lo hi fuel r a b stack i enough =
        if-cases (Goes start lo hi fuel) (splits np points eps_sq a b) _ _
          (λ h.
            let (left, right) = pivot_between np laws points eps_sq a b h in
            record {
              right = b;
              inv =
                  split-Inv start keep lo hi r a b (pivot np points eps_sq a b) stack i left right;
              enough = omega arith;
            })
          (λ h. record {
            right = a;
            inv =
                drop-Inv start keep lo hi r a b stack i
                  (λ k. unsplit_close np laws points eps_sq a b k h);
            enough = omega (arith, i.chain.1.below);
          })

    -- With fuel for the stack the loop ends, and all of the span is done.
    pub thin_span_total :
        (start : Keep) (lo hi fuel r : ℕ) (stack : List Span) (keep : Keep)
        → Inv start lo hi r stack keep
        → passes stack ≤ fuel
        → (keep' : Keep) × (thin_span np points eps_sq fuel stack keep ≡ some keep')
          × Inv start lo hi lo [] keep'
    unfolding thin_span passes
    thin_span_total start lo hi fuel r [] keep i h = (
      keep,
      refl,
      record {
        chain = refl;
        within = omega (arith, i.chain, i.within);
        close = λ x y l. i.close x y (omega (arith, i.chain));
        before = i.before;
        after = i.after;
        grows = i.grows;
      },
    )
    thin_span_total start lo hi zero r ((a, b) ∷ stack) keep i h =
        absurd (omega (arith, i.chain.1.below))
    thin_span_total start lo hi (suc fuel) r ((a, b) ∷ stack) keep i h =
        let g = pass-Goes start keep lo hi fuel r a b stack i h in
        thin_span_total start lo hi fuel g.right (pass np points eps_sq (a, b) stack keep).0
          (pass np points eps_sq (a, b) stack keep).1 g.inv g.enough
