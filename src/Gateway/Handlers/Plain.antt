-- ===== src/Gateway/Handlers/Plain.antt =====
-- Tables whose remarks, printed as they are, add no rows when the file is read again.
use mathlib.Core.Path.{subst}
use mathlib.Core.Option.{some-injective}
use lcnc_suite.Base.{
  ◌≡◌, refl, some, List, [], ◌∷◌, ◌++◌, String, All, arith, if-cases, Bool-cases, inl, inr,
}
use lcnc_suite.Base.Int.{ℤ, eqb_ℤ, leb_ℤ}
use lcnc_suite.Value.{str}
use lcnc_suite.Gateway.Machine.{Tool}
use lcnc_suite.Gateway.World.{Environment}
use lcnc_suite.Gateway.Tools.{
  insert_sorted, sort_tools, reread_all, find_tool, replace_tool, without_tool,
}
use lcnc_suite.Gateway.Handlers.Rows.{occurs, IsUnique, occurs-sort_tools}

-- A remark none of whose lines after the first reads as a row
abbrev pub IsPlain : Environment → String → Type 0
IsPlain env s = env.further_rows s ≡ []

abbrev pub ArePlain : Environment → List Tool → Type 0
ArePlain env ts = All (λ t. IsPlain env t.remark) ts

occurs-reread_all :
    (n : ℤ) (env : Environment) (ts : List Tool)
    → ArePlain env ts
    → occurs n (reread_all env ts) ≡ occurs n ts
unfolding occurs reread_all
occurs-reread_all n env [] plain = refl
occurs-reread_all n env (t ∷ ts) (p, ps) = rw p (omega (arith, occurs-reread_all n env ts ps))

module _ (P : Tool → Type 0) where
  pub append-All : (ts us : List Tool) → All P ts → All P us → All P (ts ++ us)
  append-All [] us h k = k
  append-All (t ∷ ts) us (h, hs) k = (h, append-All ts us hs k)

  insert_sorted-All : (t : Tool) (ts : List Tool) → P t → All P ts → All P (insert_sorted t ts)
  unfolding insert_sorted
  insert_sorted-All t [] h hs = (h, tt)
  insert_sorted-All t (u ∷ us) h (k, ks) =
      if-cases (All P) (leb_ℤ t.number u.number) _ _ (λ _. (h, (k, ks)))
        (λ _. (k, insert_sorted-All t us h ks))

  sort_tools-All : (ts : List Tool) → All P ts → All P (sort_tools ts)
  unfolding sort_tools
  sort_tools-All [] h = h
  sort_tools-All (t ∷ ts) (h, hs) = insert_sorted-All t (sort_tools ts) h (sort_tools-All ts hs)

  pub without_tool-All : (n : ℤ) (ts : List Tool) → All P ts → All P (without_tool n ts)
  unfolding without_tool
  without_tool-All n [] h = h
  without_tool-All n (t ∷ ts) (h, hs) =
      if-cases (All P) (eqb_ℤ t.number n) _ _ (λ _. without_tool-All n ts hs)
        (λ _. (h, without_tool-All n ts hs))

  pub replace_tool-All :
      (n : ℤ) (t' : Tool) (ts : List Tool) → P t' → All P ts → All P (replace_tool n t' ts)
  unfolding replace_tool
  replace_tool-All n t' [] h hs = hs
  replace_tool-All n t' (t ∷ ts) h (k, ks) =
      if-cases (All P) (eqb_ℤ t.number n) _ _ (λ _. (h, ks))
        (λ _. (k, replace_tool-All n t' ts h ks))

  pub find_tool-All : (n : ℤ) (ts : List Tool) (t : Tool) → All P ts → find_tool n ts ≡ some t → P t
  unfolding find_tool
  find_tool-All n [] t h e = cc
  find_tool-All n (u ∷ us) t (h, hs) e = elim (Bool-cases (eqb_ℤ u.number n)) [
    | inl same ↦ subst P (some-injective _ _ (rw same at e)) h
    | inr ne ↦ find_tool-All n us t hs (rw ne at e)
  ]

-- What the methods of str and the reading of lines promise: a remark that was read is one line, and so
-- is the empty one; and `str` of a text is the text.
pub record IsReader (env : Environment) : Type 0 where
  pub one_line : (s : String) → IsPlain env (env.reread_remark s)
  pub empty : IsPlain env ""
  pub same : (s : String) → env.text_of (str s) ≡ s

reread_all-ArePlain :
    (env : Environment)
    → IsReader env
    → (ts : List Tool) → ArePlain env ts
    → ArePlain env (reread_all env ts)
unfolding reread_all
reread_all-ArePlain env reader [] h = tt
reread_all-ArePlain env reader (t ∷ ts) (p, ps) =
    rw p (reader.one_line t.remark, reread_all-ArePlain env reader ts ps)

-- A table with no number twice and plain remarks
abbrev pub IsFine : Environment → List Tool → Type 0
IsFine env ts = IsUnique ts × ArePlain env ts

-- What is written is read as the rows of what was given.
pub written-IsFine :
    (env : Environment)
    → IsReader env
    → (ts : List Tool) → IsFine env ts
    → IsFine env (reread_all env (sort_tools ts))
written-IsFine env reader ts (h, plain) =
    let sorted = sort_tools-All (λ t. IsPlain env t.remark) ts plain in
    (
      λ n.
          omega
            (arith, occurs-reread_all n env (sort_tools ts) sorted, occurs-sort_tools n ts, h n),
      reread_all-ArePlain env reader (sort_tools ts) sorted,
    )
