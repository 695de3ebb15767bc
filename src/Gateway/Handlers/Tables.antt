-- ===== src/Gateway/Handlers/Tables.antt =====
-- The four commands that edit the tool table keep its numbers apart.
use mathlib.Core.Path.{subst}
use lcnc_suite.Base.{
  ◌≡◌, refl, ◌∙◌, Bool, true, false, not, String, ◌&&◌, Option, none, some, List, [], ◌∷◌, ◌++◌,
  length, ◌==◌, inl, inr, Bool-cases, if-cases, ◌⊎◌, sym,
}
use lcnc_suite.Base.Int.{ℤ, eqb_ℤ, eqb_ℤ→eq}
use lcnc_suite.Value.{Value, Message, str, find, get, or_value}
use lcnc_suite.Gateway.Machine.{Tool}
use lcnc_suite.Gateway.World.{World, Environment, Reply, Act, pure, gets, tool_missing, tool_exists}
use lcnc_suite.Gateway.Guards.{poll, require_armed}
use lcnc_suite.Gateway.Frame.{after, require_armed-Keeps, gets-Keeps}
use lcnc_suite.Gateway.Jog.{read_index, read_float}
use lcnc_suite.Gateway.Tools.{
  parse_tool_table, if_given, find_tool, replace_tool, without_tool, read_length, text_of, updated,
  store_saved, save_tool, new_tool, store_added, add_tool, in_spindle, store_deleted, delete_tool,
  is_taken, renumbered, store_renumbered, renumber_found, renumber_tool,
}
use lcnc_suite.Gateway.Handlers.Rows.{
  appended-IsUnique, without_tool-IsUnique, replaced-IsUnique, find_tool-number,
}
use lcnc_suite.Gateway.Handlers.Plain.{
  IsPlain, IsReader, IsFine, append-All, without_tool-All, replace_tool-All, find_tool-All,
}
use lcnc_suite.Gateway.Handlers.Gives.{
  IsSound, Gives, Any, text_of-Gives, pure-Gives, >>=-Gives, if-Gives, parse_tool_table-Gives,
  poll-file, kept-Gives, found-Gives, read_index-file, read_float-file, read_length-file,
  number_of-file, if_given-file, with_table-Gives, stored-Gives, tail,
}

not_taken :
    (new old : ℤ) (ts : List Tool)
    → (not (eqb_ℤ new old) && is_taken new ts) ≡ false
    → (new ≡ old) ⊎ (find_tool new ts ≡ none)
unfolding is_taken
not_taken new old ts h = elim (Bool-cases (eqb_ℤ new old)) [
  | inl e ↦ inl (eqb_ℤ→eq new old e)
  | inr e ↦ inr (none_found (find_tool new ts) (rw e at h))
]
  where
    none_found : (o : Option Tool) → (elim o [ none ↦ false | some _ ↦ true ]) ≡ false → o ≡ none
    none_found none h = refl
    none_found (some t) h = cc

-- The remark of a message adds no rows.
abbrev pub HasPlainRemark : Environment → Message → Type 0
HasPlainRemark env msg = (v : Value) → find msg "remark" ≡ some v → IsPlain env (env.text_of v)

module _ (env : Environment) (reader : IsReader env) (msg : Message)
    (asked : HasPlainRemark env msg) where
  given-Gives :
      (old : String)
      → IsPlain env old
      → Gives env (IsPlain env) (text_of (get msg "remark" (str old)))
  unfolding get
  given-Gives old h = way (find msg "remark") refl
    where
      way :
          (o : Option Value)
          → find msg "remark" ≡ o
          → Gives env (IsPlain env) (text_of (or_value o (str old)))
      way none e = text_of-Gives env (str old) (subst (IsPlain env) (sym (reader.same old)) h)
      way (some v) e = text_of-Gives env v (asked v e)

  remark-Gives :
      (old : String) → IsPlain env old → Gives env (IsPlain env) (if_given msg "remark" old text_of)
  remark-Gives old h = way (find msg "remark") refl
    where
      way :
          (o : Option Value)
          → find msg "remark" ≡ o
          → Gives env
              (IsPlain env)
              (elim o as (λ _. Act String) [ none ↦ pure old | some v ↦ text_of v ])
      way none e = pure-Gives (IsPlain env) old h
      way (some v) e = text_of-Gives env v (asked v e)

  -- The number of a row is none of the fields that `save_tool` updates.
  updated-Gives :
      (t : Tool)
      → IsPlain env t.remark
      → Gives env (λ t'. (t'.number ≡ t.number) × IsPlain env t'.remark) (updated msg t)
  unfolding updated
  updated-Gives t h =
      kept-Gives _ _ (if_given-file msg "pocket" t.pocket read_index read_index-file) (λ p.
        kept-Gives _ _ (if_given-file msg "z_offset" t.z read_float read_float-file) (λ z.
          kept-Gives _ _ (if_given-file msg "diameter" t.diameter read_length read_length-file)
            (λ d.
              >>=-Gives (IsPlain env) _ (if_given msg "remark" t.remark text_of) _
                (remark-Gives t.remark h) (λ r plain. pure-Gives _ _ (refl, plain)))))

  new_tool-Gives : (n : ℤ) → Gives env (λ t. (t.number ≡ n) × IsPlain env t.remark) (new_tool msg n)
  unfolding new_tool
  new_tool-Gives n = kept-Gives _ _ (read_index-file _) (λ p.
      kept-Gives _ _ (read_float-file _) (λ z. kept-Gives _ _ (read_length-file _) (λ d.
        >>=-Gives (IsPlain env) _ (text_of (get msg "remark" (str ""))) _
          (given-Gives "" reader.empty) (λ r plain. pure-Gives _ _ (refl, plain)))))

  renumbered-Gives :
      (n : ℤ) (t : Tool)
      → IsPlain env t.remark
      → Gives env (λ t'. (t'.number ≡ n) × IsPlain env t'.remark) (renumbered msg n t)
  unfolding renumbered
  renumbered-Gives n t h = kept-Gives _ _ (read_index-file _) (λ p.
      kept-Gives _ _ (read_float-file _) (λ z. kept-Gives _ _ (read_length-file _) (λ d.
        >>=-Gives (IsPlain env) _ (text_of (get msg "remark" (str t.remark))) _
          (given-Gives t.remark h) (λ r plain. pure-Gives _ _ (refl, plain)))))

  store_saved-Gives :
      (n : ℤ) (ts : List Tool) (t : Tool)
      → find_tool n ts ≡ some t
      → IsFine env ts
      → Gives env Any (store_saved msg n ts t)
  unfolding store_saved
  store_saved-Gives n ts t found unique =
      let plain = find_tool-All (λ t. IsPlain env t.remark) n ts t unique.1 found in
      >>=-Gives _ _ (updated msg t) _ (updated-Gives t plain) (λ t' (same, plain').
        stored-Gives env reader (replace_tool n t' ts) _
          (
            replaced-IsUnique n t' ts t found (inl (same ∙ find_tool-number n ts t found)) unique.0,
            replace_tool-All (λ t. IsPlain env t.remark) n t' ts plain' unique.1,
          )
          (search tail depth 10))

  save_tool-Gives : (armed : Bool) → Gives env Any (save_tool msg armed)
  unfolding save_tool
  save_tool-Gives armed = kept-Gives (require_armed armed) _ (require_armed-Keeps armed) (λ _.
      kept-Gives _ _ (number_of-file msg "tool_number") (λ n. with_table-Gives _ (
        >>=-Gives _ _ parse_tool_table _ parse_tool_table-Gives (λ ts unique.
          found-Gives (find_tool n ts) (store_saved msg n ts) (pure (tool_missing n))
            (λ t e. store_saved-Gives n ts t e unique) (λ _. pure-Gives _ _ tt)))))

  store_added-Gives :
      (n : ℤ) (ts : List Tool)
      → find_tool n ts ≡ none
      → IsFine env ts
      → Gives env Any (store_added msg n ts)
  unfolding store_added
  store_added-Gives n ts new unique =
      >>=-Gives _ _ (new_tool msg n) _ (new_tool-Gives n) (λ t (is, plain).
        stored-Gives env reader (ts ++ t ∷ []) _
          (
            appended-IsUnique t ts (subst (λ k. find_tool k ts ≡ none) (sym is) new) unique.0,
            append-All (λ t. IsPlain env t.remark) ts (t ∷ []) unique.1 (plain, tt),
          )
          (search tail depth 10))

  add_tool-Gives : (armed : Bool) → Gives env Any (add_tool msg armed)
  unfolding add_tool
  add_tool-Gives armed = kept-Gives (require_armed armed) _ (require_armed-Keeps armed) (λ _.
      kept-Gives _ _ (number_of-file msg "tool_number") (λ n. with_table-Gives _ (
        >>=-Gives _ _ parse_tool_table _ parse_tool_table-Gives (λ ts unique.
          found-Gives (find_tool n ts) (λ _. pure (tool_exists n)) (store_added msg n ts)
            (λ t e. pure-Gives _ _ tt) (λ e. store_added-Gives n ts e unique)))))

  store_deleted-Gives : (n : ℤ) → Gives env Any (store_deleted n)
  unfolding store_deleted
  store_deleted-Gives n = >>=-Gives _ _ parse_tool_table _ parse_tool_table-Gives (λ ts unique.
      if-Gives Any (length (without_tool n ts) == length ts) _ _ (pure-Gives _ _ tt) (
        stored-Gives env reader (without_tool n ts) _
          (
            without_tool-IsUnique n ts unique.0,
            without_tool-All (λ t. IsPlain env t.remark) n ts unique.1,
          )
          (search tail depth 10)))

  delete_tool-Gives : (armed : Bool) → Gives env Any (delete_tool msg armed)
  unfolding delete_tool
  delete_tool-Gives armed = kept-Gives (require_armed armed) _ (require_armed-Keeps armed) (λ _.
      kept-Gives _ _ (number_of-file msg "tool_number") (λ n. kept-Gives poll _ poll-file (λ _.
        kept-Gives (gets (λ w. in_spindle n w.stat)) _ (gets-Keeps _) (λ loaded.
          if-Gives Any loaded _ _ (pure-Gives _ _ tt)
            (with_table-Gives _ (store_deleted-Gives n))))))

  renumber_found-Gives :
      (old new : ℤ) (ts : List Tool) (t : Tool)
      → find_tool old ts ≡ some t
      → IsFine env ts
      → Gives env Any (renumber_found msg old new ts t)
  unfolding renumber_found store_renumbered
  renumber_found-Gives old new ts t found unique =
      let plain = find_tool-All (λ t. IsPlain env t.remark) old ts t unique.1 found in
      if-cases (Gives env Any) (not (eqb_ℤ new old) && is_taken new ts) _ _ (λ _. pure-Gives _ _ tt)
        (λ free. kept-Gives poll _ poll-file (λ _.
          kept-Gives (gets (λ w. in_spindle old w.stat)) _ (gets-Keeps _) (λ loaded.
            if-Gives Any loaded _ _ (pure-Gives _ _ tt) (
              >>=-Gives _ _ (renumbered msg new t) _ (renumbered-Gives new t plain)
                (λ t' (is, plain').
                  stored-Gives env reader (replace_tool old t' ts) _
                    (
                      replaced-IsUnique old t' ts t found
                          (subst (λ m. (m ≡ old) ⊎ (find_tool m ts ≡ none)) (sym is)
                            (not_taken new old ts free))
                          unique.0,
                      replace_tool-All (λ t. IsPlain env t.remark) old t' ts plain' unique.1,
                    )
                    (search tail depth 10))))))

  renumber_tool-Gives : (armed : Bool) → Gives env Any (renumber_tool msg armed)
  unfolding renumber_tool
  renumber_tool-Gives armed = kept-Gives (require_armed armed) _ (require_armed-Keeps armed) (λ _.
      kept-Gives _ _ (number_of-file msg "old_tool_number") (λ old.
        kept-Gives _ _ (number_of-file msg "tool_number") (λ new. with_table-Gives _ (
          >>=-Gives _ _ parse_tool_table _ parse_tool_table-Gives (λ ts unique.
            found-Gives (find_tool old ts) (renumber_found msg old new ts) (pure (tool_missing old))
              (λ t e. renumber_found-Gives old new ts t e unique) (λ _. pure-Gives _ _ tt))))))

-- Where a remark that was read is one line, and `str` of a text is the text: if the rows of the tool
-- table have different numbers, and no line of a remark after its first reads as a row, neither in the
-- table nor in the message, then this is so of the table that is read after `save_tool`, `add_tool`,
-- `delete_tool` and `renumber_tool` too, whatever else the message asks for and whatever comes of the
-- calls.
pub edits-IsSound :
    (msg : Message) (armed : Bool) (w : World)
    → IsReader w.env
    → HasPlainRemark w.env msg
    → IsSound w
    → IsSound (after (save_tool msg armed) w)
      × IsSound (after (add_tool msg armed) w)
      × IsSound (after (delete_tool msg armed) w)
      × IsSound (after (renumber_tool msg armed) w)
edits-IsSound msg armed w reader asked sound = (
  kept _ (save_tool-Gives w.env reader msg asked armed),
  kept _ (add_tool-Gives w.env reader msg asked armed),
  kept _ (delete_tool-Gives w.env reader msg asked armed),
  kept _ (renumber_tool-Gives w.env reader msg asked armed),
)
  where
    kept : (m : Act Reply) → Gives w.env Any m → IsSound (after m w)
    kept m h ts e =
        let (same, fine) = (h.gave w (refl, sound)).0 in
        subst (λ v. IsFine v ts) (sym same) (fine ts e)
