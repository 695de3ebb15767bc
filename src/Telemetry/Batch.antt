-- ===== src/Telemetry/Batch.antt =====
-- The bounds of a telemetry batch of lcnc-gateway/gateway_util.py.
use text.Mathlib.Text.{◌==◌ as str_eq}
use lcnc_suite.Base.{
  ◌≡◌, refl, String, ℕ, ◌+◌, ◌≤◌, leb, Bool, true, false, ◌||◌, Option, none, some, List, [], ◌∷◌,
  ◌++◌, length, length-append, All, arith, if◌then◌else◌, if-cases,
}
use lcnc_suite.Value.{Value, obj, Fields, field, end, find}
use lcnc_suite.Telemetry.{
  Event, other_fields, event_of, add_line, parse_lines, parse_telemetry_batch,
}

-- The event has neither "kind" nor "tag" among its fields.
abbrev pub IsClean : Event → Type 0
IsClean e = (find e.fields "kind" ≡ none) × (find e.fields "tag" ≡ none)

other_fields-missing :
    (k : String) (d : Fields)
    → ((j : String) → str_eq j k ≡ true → (str_eq j "kind" || str_eq j "tag") ≡ true)
    → find (other_fields d) k ≡ none
unfolding find other_fields
other_fields-missing k end h = refl
other_fields-missing k (field j v rest) h =
    let ih = other_fields-missing k rest h in let hj = h j in ground (arith, ih, hj)

All-append :
    {A : Type 0} (P : A → Type 0) (xs : List A) (x : A) → All P xs → P x → All P (xs ++ x ∷ [])
All-append P [] x hs h = (h, tt)
All-append P (y ∷ ys) x (hy, hs) h = (hy, All-append P ys x hs h)

-- No more events than allowed, each without the two fields; with the rejected lines they are `n`.
abbrev pub IsParsed : ℕ → ℕ → List Event × ℕ → Type 0
IsParsed max_events n r = (length r.0 ≤ max_events) × (length r.0 + r.1 ≡ n) × All IsClean r.0

rejected-IsParsed :
    (m n rejected : ℕ) (es : List Event)
    → IsParsed m n (es, rejected)
    → IsParsed m (n + 1) (es, rejected + 1)
rejected-IsParsed m n rejected es (h, k, c) = (h, omega (arith, k), c)

module _ {Bytes Line : Type 0} (splitlines : Bytes → List Line) (strip : Line → Line)
    (is_empty : Line → Bool) (loads : Line → Option Value) (text_of : Value → String) where
  event_of-IsClean : (d : Fields) → IsClean (event_of splitlines strip is_empty loads text_of d)
  unfolding event_of
  event_of-IsClean d = (
    other_fields-missing "kind" d (λ j e. ground (arith, e)),
    other_fields-missing "tag" d (λ j e. ground (arith, e)),
  )

  add_line-IsParsed :
      (m n rejected : ℕ) (es : List Event) (v : Option Value)
      → leb m (length es) ≡ false
      → IsParsed m n (es, rejected)
      → IsParsed m (n + 1) (add_line splitlines strip is_empty loads text_of v (es, rejected))
  unfolding add_line
  add_line-IsParsed m n rejected es none short p = rejected-IsParsed m n rejected es p
  add_line-IsParsed m n rejected es (some (obj d)) short (h, k, c) =
      let size = length-append es (event_of splitlines strip is_empty loads text_of d ∷ []) in
      (
        ground (arith, size, short),
        omega (arith, size, k),
        All-append IsClean es _ c (event_of-IsClean d),
      )
  add_line-IsParsed m n rejected es (some v) short p = rejected-IsParsed m n rejected es p

  -- The lines that are not blank.
  unfoldable pub lines_in : List Line → ℕ
  lines_in [] = 0
  lines_in (l ∷ ls) = (if is_empty (strip l) then 0 else 1) + lines_in ls

  parse_lines-IsParsed :
      (m n total : ℕ) (ls : List Line) (r : List Event × ℕ)
      → total ≡ n + lines_in ls
      → IsParsed m n r
      → IsParsed m total (parse_lines splitlines strip is_empty loads text_of m ls r)
  unfolding parse_lines lines_in
  parse_lines-IsParsed m n total [] r e (h, k, c) = (h, omega (arith, k, e), c)
  parse_lines-IsParsed m n total (l ∷ ls) (es, rejected) e p =
      if-cases (λ q. IsParsed m total (parse_lines splitlines strip is_empty loads text_of m ls q))
        (is_empty (strip l)) _ _ (λ b. parse_lines-IsParsed m n total ls _ (ground (arith, e, b)) p)
        (λ b.
          let one = sized b in
          parse_lines-IsParsed m (n + 1) total ls _ one (
            if-cases (IsParsed m (n + 1)) (leb m (length es)) _ _
              (λ _. rejected-IsParsed m n rejected es p)
              (λ short. add_line-IsParsed m n rejected es (loads (strip l)) short p)))
    where
      sized : is_empty (strip l) ≡ false → total ≡ n + 1 + lines_in ls
      sized b = ground (arith, e, b)

  -- A batch never gives more events than the maximum; with the rejected lines they are as many as the
  -- lines that are not blank; and no event keeps a field "kind" or "tag".
  pub parse_telemetry_batch-IsParsed :
      (raw : Bytes) (max_events : ℕ)
      → IsParsed max_events
          (lines_in (splitlines raw))
          (parse_telemetry_batch splitlines strip is_empty loads text_of raw max_events)
  unfolding parse_telemetry_batch
  parse_telemetry_batch-IsParsed raw max_events =
      parse_lines-IsParsed max_events 0 _ (splitlines raw) ([], 0) (omega arith)
        (omega arith, omega arith, tt)
