-- ===== src/Preview.antt =====
-- The thinning of the preview's polylines in lcnc-gateway/gcode_parse_worker.py: _rdp_keep, and its use
-- in parse. An array is a function of its index, beside its length; numpy is a parameter.
use lcnc_suite.Base.{
  ℕ, zero, suc, ◌+◌, ◌-◌, ◌*◌, ltb, leb, ◌==◌, Bool, true, false, not, ◌&&◌, ◌||◌, Option, none,
  some, List, [], ◌∷◌, map, if◌then◌else◌, length,
}
mod Linked
mod Argmax
mod Spans
mod Pairs
mod Close
mod Lines
mod Examples

-- The operations of numpy that the worker uses: `clip` is np.clip to 0 and 1 at one number.
pub record Numpy (F : Type 0) : Type 0 where
  pub origin : F
  pub add : F → F → F
  pub sub : F → F → F
  pub mul : F → F → F
  pub div : F → F → F
  pub clip : F → F
  pub gt : F → F → Bool
  pub argmax : List F → ℕ

pub record Point (F : Type 0) : Type 0 where
  pub x : F
  pub y : F
  pub z : F

abbrev pub Keep : Type 0
Keep = ℕ → Bool

abbrev pub Span : Type 0
Span = ℕ × ℕ

-- `keep[a] = True`
unfoldable pub mark : ℕ → Keep → Keep
mark a keep j = j == a || keep j

-- `count` numbers from `k` on
unfoldable pub range_from : ℕ → ℕ → List ℕ
range_from k zero = []
range_from k (suc count) = k ∷ range_from (k + 1) count

-- `np.flatnonzero(keep).tolist()`, for the `count` indices from `k` on
unfoldable pub flat_nonzero : Keep → ℕ → ℕ → List ℕ
flat_nonzero keep k zero = []
flat_nonzero keep k (suc count) =
    let rest = flat_nonzero keep (k + 1) count in if keep k then k ∷ rest else rest

-- `keep[a] = True` for the anchors that are indices
unfoldable pub mark_anchors : ℕ → List ℕ → Keep → Keep
unfolding mark
mark_anchors n [] keep = keep
mark_anchors n (a ∷ anchors) keep = mark_anchors n anchors (if ltb a n then mark a keep else keep)

unfoldable pub start_marks : ℕ → List ℕ → Keep
unfolding mark mark_anchors
start_marks n anchors = mark_anchors n anchors (mark (n - 1) (mark 0 (λ _. false)))

-- The anchors of `count` points from `k` on: where the line of the source changes
unfoldable pub line_changes : (ℕ → ℕ) → ℕ → ℕ → List ℕ
line_changes lines k zero = []
line_changes lines k (suc count) =
    let rest = line_changes lines (k + 1) count in
    if lines k == lines (k - 1) then rest else k ∷ rest

module _ {F : Type 0} (np : Numpy F) where
  open np use {origin, add, sub, mul, div, clip, gt, argmax}

  unfoldable pub minus : Point F → Point F → Point F
  minus p q = record { x = sub p.x q.x; y = sub p.y q.y; z = sub p.z q.z }

  unfoldable pub dot : Point F → Point F → F
  dot p q = add (add (mul p.x q.x) (mul p.y q.y)) (mul p.z q.z)

  -- `p + t * q`
  unfoldable pub shifted : Point F → F → Point F → Point F
  shifted p t q = record {
    x = add p.x (mul t q.x);
    y = add p.y (mul t q.y);
    z = add p.z (mul t q.z);
  }

  -- The squared distance of `p` from the chord from `p0` to `p1`
  unfoldable pub dist_sq : Point F → Point F → Point F → F
  unfolding minus dot shifted
  dist_sq p0 p1 p =
      let seg = minus p1 p0 in
      let seg_len_sq = dot seg seg in
      let rel = minus p p0 in
      let diff =
        if gt seg_len_sq origin
        then minus p (shifted p0 (clip (div (dot rel seg) seg_len_sq)) seg)
        else rel in
      dot diff diff

  module _ (points : ℕ → Point F) (eps_sq : F) where
    unfoldable pub far : ℕ → ℕ → ℕ → F
    far i0 i1 k = dist_sq (points i0) (points i1) (points k)

    -- The point between two others that is farthest from their chord
    unfoldable pub pivot : ℕ → ℕ → ℕ
    pivot i0 i1 = i0 + 1 + argmax (map (far i0 i1) (range_from (i0 + 1) (i1 - i0 - 1)))

    abbrev pub splits : ℕ → ℕ → Bool
    splits i0 i1 = not (ltb (i1 - i0) 2) && gt (far i0 i1 (pivot i0 i1)) eps_sq

    -- One pass of the inner loop, with the span that it takes from the stack
    unfoldable pub pass : Span → List Span → Keep → List Span × Keep
    unfolding mark
    pass (i0, i1) stack keep =
        if splits i0 i1
        then ((pivot i0 i1, i1) ∷ (i0, pivot i0 i1) ∷ stack, mark (pivot i0 i1) keep)
        else (stack, keep)

    -- `while stack`, with fuel
    unfoldable pub thin_span : ℕ → List Span → Keep → Option Keep
    unfolding pass
    thin_span fuel [] keep = some keep
    thin_span zero (s ∷ stack) keep = none
    thin_span (suc fuel) (s ∷ stack) keep =
        let (stack', keep') = pass s stack keep in thin_span fuel stack' keep'

    -- A pair of anchors. The fuel is twice the length of the span.
    unfoldable pub thin_pair : ℕ → ℕ → Keep → Option Keep
    unfolding thin_span
    thin_pair lo hi keep =
        if ltb (hi - lo) 2 then some keep else thin_span (2 * (hi - lo)) ((lo, hi) ∷ []) keep

    -- The loop over the pairs of neighbours among the anchors
    unfoldable pub thin_spans : List ℕ → Keep → Option Keep
    unfolding thin_pair
    thin_spans [] keep = some keep
    thin_spans (lo ∷ []) keep = some keep
    thin_spans (lo ∷ hi ∷ anchors) keep = elim (thin_pair lo hi keep) [
      | none ↦ none
      | some keep' ↦ thin_spans (hi ∷ anchors) keep'
    ]

    -- The marks that are left, as indices
    unfoldable pub kept_of : ℕ → Keep → Option (List ℕ)
    unfolding flat_nonzero thin_spans
    kept_of n keep = elim (thin_spans (flat_nonzero keep 0 n) keep) [
      | none ↦ none
      | some keep' ↦ some (flat_nonzero keep' 0 n)
    ]

    unfoldable pub rdp_keep : ℕ → List ℕ → Option (List ℕ)
    unfolding range_from kept_of start_marks
    rdp_keep n anchors =
        if leb n 2 then some (range_from 0 n) else kept_of n (start_marks n anchors)

    -- The indices of the feed's points that are left
    unfoldable pub thin_feed : (ℕ → ℕ) → ℕ → Option (List ℕ)
    unfolding rdp_keep line_changes range_from
    thin_feed lines n =
        if ltb 2 n
        then elim (rdp_keep n (0 ∷ line_changes lines 1 (n - 1))) [
          | none ↦ none
          | some keep ↦ some (if ltb (length keep) n then keep else range_from 0 n)
        ]
        else some (range_from 0 n)
