-- ===== src/Preview/Linked.antt =====
-- Neighbours among the marked indices of an array.
use lcnc_suite.Base.{
  ◌≡◌, ℕ, zero, suc, ◌+◌, ◌<◌, true, false, List, [], ◌∷◌, arith, Bool-cases, inl, inr,
}
use lcnc_suite.Preview.{Keep, flat_nonzero}

-- No index between the two is marked.
abbrev pub Free : Keep → ℕ → ℕ → Type 0
Free keep a b = (j : ℕ) → a < j → j < b → keep j ≡ false

-- The two are marked, and nothing between them.
pub record Next (keep : Keep) (a b : ℕ) : Type 0 where
  pub below : a < b
  pub left : keep a ≡ true
  pub right : keep b ≡ true
  pub free : Free keep a b

-- Each element and the one after it are in the relation.
abbrev pub Linked : (ℕ → ℕ → Type 0) → List ℕ → Type 0
Linked P [] = Unit
Linked P (a ∷ []) = Unit
Linked P (a ∷ b ∷ xs) = P a b × Linked P (b ∷ xs)

pub Free-suc : (keep : Keep) (a k : ℕ) → Free keep a k → keep k ≡ false → Free keep a (k + 1)
Free-suc keep a k free e j h h' = ground (arith, free j h)

pub Free-one : (keep : Keep) (k : ℕ) → Free keep k (k + 1)
Free-one keep k j h h' = absurd (omega arith)

module _ (keep : Keep) (P : ℕ → ℕ → Type 0) where
  -- What holds of neighbours links `a` and the marked indices from `k` on.
  pub flat_nonzero-Linked :
      (k count a : ℕ)
      → ((x y : ℕ) → y < k + count → Next keep x y → P x y)
      → keep a ≡ true
      → a < k
      → Free keep a k
      → Linked P (a ∷ flat_nonzero keep k count)
  unfolding flat_nonzero
  flat_nonzero-Linked k zero a h on below free = tt
  flat_nonzero-Linked k (suc count) a h on below free = elim (Bool-cases (keep k)) [
    | inl e ↦ rw e (
      h a k (omega arith) (record { below = below; left = on; right = e; free = free }),
      flat_nonzero-Linked (k + 1) count k (λ x y lt. h x y (omega arith)) e (omega arith)
          (Free-one keep k),
    )
    | inr e ↦ rw e (
        flat_nonzero-Linked (k + 1) count a (λ x y lt. h x y (omega arith)) on (omega arith)
          (Free-suc keep a k free e))
  ]

  -- All of the marked indices below `n`, if 0 is one
  pub marked-Linked :
      (n : ℕ)
      → ((x y : ℕ) → y < n → Next keep x y → P x y)
      → keep 0 ≡ true
      → Linked P (flat_nonzero keep 0 n)
  unfolding flat_nonzero
  marked-Linked zero h on = tt
  marked-Linked (suc n) h on =
      rw on (
        flat_nonzero-Linked 1 n 0 (λ x y lt. h x y (omega arith)) on (omega arith)
          (Free-one keep 0))
