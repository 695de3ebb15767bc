-- ===== src/Gateway/Handlers/VarFile.antt =====
-- What `write_var_file_updates` leaves in the parameter file.
use text.Mathlib.Text.{◌==◌ as str_eq}
use text.Mathlib.TextEquality.{eq_iff}
use mathlib.Core.Path.{subst}
use lcnc_suite.Base.{
  ◌≡◌, refl, sym, ap, ◌∙◌, inl, inr, ℕ, leb, String, Bool, true, false, Option, none, some, List,
  [], ◌∷◌, ◌++◌, map, All, Bool-cases, if-cases, arith, ◌||◌,
}
use lcnc_suite.Value.{Float}
use lcnc_suite.Gateway.Machine.{VarLine, entry, junk, open_entry, open_junk, appended}
use lcnc_suite.Gateway.World.{Environment}
use lcnc_suite.Gateway.Vars.{
  Vars, find_var, update_line, has_key, missing_vars, var_key, insert_line, sort_lines, as_line,
  append_missing, write_var_file_updates,
}
use lcnc_suite.Gateway.Handlers.VarJoin.{
  Agrees, IsClosed, HasPlainKeys, IsWhole, updated-All, updated-IsWhole, missing-IsWhole, join-All,
  has_key-join,
}

-- A dict: each pair is the one that its key finds.
abbrev pub IsDict : Vars → Type 0
IsDict vars = All (λ (kv : String × Float). find_var kv.0 vars ≡ some kv.1) vars

module _ (P : VarLine → Type 0) (code : String → Option ℕ) where
  insert_line-All :
      (l : VarLine) (ls : List VarLine) → P l → All P ls → All P (insert_line code l ls)
  unfolding insert_line
  insert_line-All l [] h hs = (h, tt)
  insert_line-All l (m ∷ ms) h (g, gs) =
      if-cases (All P) (leb (var_key code l) (var_key code m)) _ _ (λ _. (h, (g, gs)))
        (λ _. (g, insert_line-All l ms h gs))

  sort_lines-All : (ls : List VarLine) → All P ls → All P (sort_lines code ls)
  unfolding sort_lines
  sort_lines-All [] h = h
  sort_lines-All (l ∷ ls) (h, hs) = insert_line-All l (sort_lines code ls) h (sort_lines-All ls hs)

  append-All : (ls ms : List VarLine) → All P ls → All P ms → All P (ls ++ ms)
  append-All [] ms h g = g
  append-All (l ∷ ls) ms (h, hs) g = (h, append-All ls ms hs g)

missing-All :
    (all vars : Vars) (ls : List VarLine)
    → All (λ (kv : String × Float). find_var kv.0 all ≡ some kv.1) vars
    → All (Agrees all) (map as_line (missing_vars ls vars))
unfolding missing_vars
missing-All all [] ls h = tt
missing-All all ((k, v) ∷ vars) ls (h, hs) =
    if-cases (λ vs. All (Agrees all) (map as_line vs)) (has_key k ls) _ _
      (λ _. missing-All all vars ls hs) (λ _. (inr h, missing-All all vars ls hs))

append_missing-All :
    (P : VarLine → Type 0) (code : String → Option ℕ) (ms : Vars) (ls : List VarLine)
    → All P ls
    → All P (map as_line ms)
    → All P (append_missing code ms ls)
unfolding append_missing
append_missing-All P code [] ls h g = h
append_missing-All P code (m ∷ ms) ls h g =
    sort_lines-All P code (ls ++ map as_line (m ∷ ms))
      (append-All P code ls (map as_line (m ∷ ms)) h g)

abbrev key_is : String → VarLine → Bool
key_is k (junk t) = false
key_is k (open_junk t) = false
key_is k (entry j v) = str_eq j k
key_is k (open_entry j v) = str_eq j k
key_is k (appended j v) = str_eq j k

has_key-cons :
    (k : String) (l : VarLine) (ls : List VarLine)
    → has_key k (l ∷ ls) ≡ (key_is k l || has_key k ls)
unfolding has_key
has_key-cons k (junk t) ls = refl
has_key-cons k (open_junk t) ls = refl
has_key-cons k (entry j v) ls = ground arith
has_key-cons k (open_entry j v) ls = ground arith
has_key-cons k (appended j v) ls = ground arith

or_swap : (a b c : Bool) → (a || (b || c)) ≡ (b || (a || c))
or_swap a b c = ground arith

has_key-append :
    (k : String) (ls ms : List VarLine) → has_key k (ls ++ ms) ≡ (has_key k ls || has_key k ms)
unfolding has_key
has_key-append k [] ms = refl
has_key-append k (junk t ∷ ls) ms = has_key-append k ls ms
has_key-append k (open_junk t ∷ ls) ms = has_key-append k ls ms
has_key-append k (open_entry j v ∷ ls) ms = let ih = has_key-append k ls ms in ground (arith, ih)
has_key-append k (appended j v ∷ ls) ms = let ih = has_key-append k ls ms in ground (arith, ih)
has_key-append k (entry j v ∷ ls) ms = let ih = has_key-append k ls ms in ground (arith, ih)

has_key-insert_line :
    (k : String) (code : String → Option ℕ) (l : VarLine) (ls : List VarLine)
    → has_key k (insert_line code l ls) ≡ has_key k (l ∷ ls)
unfolding has_key insert_line
has_key-insert_line k code l [] = refl
has_key-insert_line k code l (m ∷ ms) =
    if-cases (λ xs. has_key k xs ≡ has_key k (l ∷ m ∷ ms)) (leb (var_key code l) (var_key code m)) _
      _ (λ _. refl)
      (λ _.
        has_key-cons k m (insert_line code l ms)
        ∙ ap (λ b. key_is k m || b) (has_key-insert_line k code l ms ∙ has_key-cons k l ms)
        ∙ or_swap (key_is k m) (key_is k l) (has_key k ms)
        ∙ sym (has_key-cons k l (m ∷ ms) ∙ ap (λ b. key_is k l || b) (has_key-cons k m ms)))

has_key-sort_lines :
    (k : String) (code : String → Option ℕ) (ls : List VarLine)
    → has_key k (sort_lines code ls) ≡ has_key k ls
unfolding has_key sort_lines
has_key-sort_lines k code [] = refl
has_key-sort_lines k code (l ∷ ls) =
    has_key-insert_line k code l (sort_lines code ls)
    ∙ has_key-cons k l (sort_lines code ls)
    ∙ ap (λ b. key_is k l || b) (has_key-sort_lines k code ls)
    ∙ sym (has_key-cons k l ls)

key_is-update :
    (k : String) (vars : Vars) (j : String) (v : Float)
    → key_is k (update_line vars (entry j v)) ≡ str_eq j k
unfolding update_line
key_is-update k vars j v = way (find_var j vars)
  where
    way :
        (o : Option Float)
        → key_is k (elim o [ none ↦ entry j v | some u ↦ entry j u ]) ≡ str_eq j k
    way none = refl
    way (some u) = refl

has_key-update :
    (k : String) (vars : Vars) (ls : List VarLine)
    → All IsClosed ls
    → has_key k (map (update_line vars) ls) ≡ has_key k ls
unfolding has_key update_line
has_key-update k vars [] h = refl
has_key-update k vars (junk t ∷ ls) (h, hs) = has_key-update k vars ls hs
has_key-update k vars (open_junk t ∷ ls) (h, hs) = absurd h
has_key-update k vars (open_entry j v ∷ ls) (h, hs) = absurd h
has_key-update k vars (appended j v ∷ ls) (h, hs) = absurd h
has_key-update k vars (entry j v ∷ ls) (h, hs) =
    has_key-cons k _ (map (update_line vars) ls)
    ∙ ap (λ b. key_is k (update_line vars (entry j v)) || b) (has_key-update k vars ls hs)
    ∙ ap (λ b. b || has_key k ls) (key_is-update k vars j v)
    ∙ sym (has_key-cons k (entry j v) ls)

-- The keys of the lines, and of those that are appended.
abbrev reached : String → List VarLine → Vars → Bool
reached k ls vs = has_key k ls || has_key k (map as_line vs)

has_key-missing :
    (k : String) (v : Float) (vars : Vars) (ls : List VarLine)
    → find_var k vars ≡ some v
    → reached k ls (missing_vars ls vars) ≡ true
unfolding has_key missing_vars find_var
has_key-missing k v [] ls h = cc
has_key-missing k v ((j, u) ∷ vars) ls h =
    if-cases (λ vs. reached k ls vs ≡ true) (has_key j ls) _ _
      (λ there. elim (Bool-cases (str_eq j k)) [
        | inl e ↦
            let is = subst (λ i. has_key i ls ≡ true) ((eq_iff j k).0 e) there in ground (arith, is)
        | inr e ↦ has_key-missing k v vars ls (rw e at h)
      ])
      (λ absent. elim (Bool-cases (str_eq j k)) [
        | inl e ↦ ground (arith, e)
        | inr e ↦ let ih = has_key-missing k v vars ls (rw e at h) in ground (arith, e, ih)
      ])

has_key-appended :
    (k : String) (code : String → Option ℕ) (ms : Vars) (ls : List VarLine)
    → has_key k (append_missing code ms ls) ≡ reached k ls ms
unfolding append_missing has_key
has_key-appended k code [] ls = ground arith
has_key-appended k code (m ∷ ms) ls =
    has_key-sort_lines k code (ls ++ map as_line (m ∷ ms))
    ∙ has_key-append k ls (map as_line (m ∷ ms))

-- For a file whose last line ends in a newline, and keys whose printed lines are read as one line of that
-- key: after the update every line of an updated key holds the new value, and every updated key has a
-- line, whether it had one before or not.
pub write_var_file_updates_lem :
    (env : Environment) (vars : Vars) (ls : List VarLine)
    → IsDict vars
    → HasPlainKeys env vars
    → All IsClosed ls
    → All (Agrees vars) (write_var_file_updates env vars ls)
      × ((k : String) (v : Float)
          → find_var k vars ≡ some v
          → has_key k (write_var_file_updates env vars ls) ≡ true)
unfolding write_var_file_updates
write_var_file_updates_lem env vars ls dict plain closed =
    let old = map (update_line vars) ls in
    let new = missing_vars ls vars in
    let whole =
      append_missing-All (IsWhole env) env.code_of new old (updated-IsWhole env vars ls closed)
        (missing-IsWhole env vars ls plain) in
    (
      join-All env vars (append_missing env.code_of new old) whole (
          append_missing-All (Agrees vars) env.code_of new old (updated-All vars ls closed)
            (missing-All vars vars ls dict)),
      λ k v h.
          has_key-join k env (append_missing env.code_of new old) whole
          ∙ has_key-appended k env.code_of new old
          ∙ ap (λ b. b || has_key k (map as_line new)) (has_key-update k vars ls closed)
          ∙ has_key-missing k v vars ls h,
    )
