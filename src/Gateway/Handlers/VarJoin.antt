-- ===== src/Gateway/Handlers/VarJoin.antt =====
-- The lines of the parameter file that an update prints, and how they are read again.
use text.Mathlib.Text.{◌==◌ as str_eq}
use lcnc_suite.Base.{
  ◌≡◌, refl, ap, ◌⊎◌, inl, inr, String, true, Option, none, some, List, [], ◌∷◌, map, All, if-cases,
  if◌then◌else◌,
}
use lcnc_suite.Value.{Float}
use lcnc_suite.Gateway.Machine.{VarLine, entry, junk, open_entry, open_junk, appended}
use lcnc_suite.Gateway.World.{Environment}
use lcnc_suite.Gateway.Vars.{
  Vars, find_var, update_line, has_key, missing_vars, as_line, join_lines,
}

-- A line of an updated key holds the new value.
abbrev pub Agrees : Vars → VarLine → Type 0
Agrees vars (junk t) = Unit
Agrees vars (open_junk t) = Unit
Agrees vars (entry k v) = (find_var k vars ≡ none) ⊎ (find_var k vars ≡ some v)
Agrees vars (open_entry k v) = (find_var k vars ≡ none) ⊎ (find_var k vars ≡ some v)
Agrees vars (appended k v) = (find_var k vars ≡ none) ⊎ (find_var k vars ≡ some v)

-- A line of a file whose last line ends in a newline
abbrev pub IsClosed : VarLine → Type 0
IsClosed (entry k v) = Unit
IsClosed (junk t) = Unit
IsClosed _ = ⊥

-- Keys whose lines are read as they are printed
abbrev pub HasPlainKeys : Environment → Vars → Type 0
HasPlainKeys env vars =
    All (λ (kv : String × Float). env.scan kv.0 kv.1 ≡ entry kv.0 kv.1 ∷ []) vars

-- A line that the join leaves as it is
abbrev pub IsWhole : Environment → VarLine → Type 0
IsWhole env (entry k v) = Unit
IsWhole env (junk t) = Unit
IsWhole env (appended k v) = env.scan k v ≡ entry k v ∷ []
IsWhole env _ = ⊥

update_line-Agrees : (vars : Vars) (l : VarLine) → IsClosed l → Agrees vars (update_line vars l)
unfolding update_line
update_line-Agrees vars (junk t) h = tt
update_line-Agrees vars (open_junk t) h = absurd h
update_line-Agrees vars (open_entry k v) h = absurd h
update_line-Agrees vars (appended k v) h = absurd h
update_line-Agrees vars (entry k v) h = way (find_var k vars) refl
  where
    way :
        (o : Option Float)
        → find_var k vars ≡ o
        → Agrees vars (elim o [ none ↦ entry k v | some u ↦ entry k u ])
    way none e = inl e
    way (some u) e = inr e

pub updated-All :
    (vars : Vars) (ls : List VarLine)
    → All IsClosed ls
    → All (Agrees vars) (map (update_line vars) ls)
updated-All vars [] h = tt
updated-All vars (l ∷ ls) (h, hs) = (update_line-Agrees vars l h, updated-All vars ls hs)

update_line-IsWhole :
    (env : Environment) (vars : Vars) (l : VarLine) → IsClosed l → IsWhole env (update_line vars l)
unfolding update_line
update_line-IsWhole env vars (junk t) h = tt
update_line-IsWhole env vars (open_junk t) h = absurd h
update_line-IsWhole env vars (open_entry k v) h = absurd h
update_line-IsWhole env vars (appended k v) h = absurd h
update_line-IsWhole env vars (entry k v) h = way (find_var k vars)
  where
    way : (o : Option Float) → IsWhole env (elim o [ none ↦ entry k v | some u ↦ entry k u ])
    way none = tt
    way (some u) = tt

pub updated-IsWhole :
    (env : Environment) (vars : Vars) (ls : List VarLine)
    → All IsClosed ls
    → All (IsWhole env) (map (update_line vars) ls)
updated-IsWhole env vars [] h = tt
updated-IsWhole env vars (l ∷ ls) (h, hs) =
    (update_line-IsWhole env vars l h, updated-IsWhole env vars ls hs)

pub missing-IsWhole :
    (env : Environment) (vars : Vars) (ls : List VarLine)
    → HasPlainKeys env vars
    → All (IsWhole env) (map as_line (missing_vars ls vars))
unfolding missing_vars
missing-IsWhole env [] ls h = tt
missing-IsWhole env ((k, v) ∷ vars) ls (h, hs) =
    if-cases (λ vs. All (IsWhole env) (map as_line vs)) (has_key k ls) _ _
      (λ _. missing-IsWhole env vars ls hs) (λ _. (h, missing-IsWhole env vars ls hs))

pub join-All :
    (env : Environment) (vars : Vars) (ls : List VarLine)
    → All (IsWhole env) ls
    → All (Agrees vars) ls
    → All (Agrees vars) (join_lines env ls)
unfolding join_lines
join-All env vars [] w h = tt
join-All env vars (entry k v ∷ ls) (w, ws) (h, hs) = (h, join-All env vars ls ws hs)
join-All env vars (junk t ∷ ls) (w, ws) (h, hs) = (h, join-All env vars ls ws hs)
join-All env vars (appended k v ∷ ls) (w, ws) (h, hs) = rw w (h, join-All env vars ls ws hs)
join-All env vars (open_entry k v ∷ ls) (w, ws) h = absurd w
join-All env vars (open_junk t ∷ ls) (w, ws) h = absurd w

pub has_key-join :
    (k : String) (env : Environment) (ls : List VarLine)
    → All (IsWhole env) ls
    → has_key k (join_lines env ls) ≡ has_key k ls
unfolding has_key join_lines
has_key-join k env [] w = refl
has_key-join k env (entry j v ∷ ls) (w, ws) =
    ap (λ b. if str_eq j k then true else b) (has_key-join k env ls ws)
has_key-join k env (junk t ∷ ls) (w, ws) = has_key-join k env ls ws
has_key-join k env (appended j v ∷ ls) (w, ws) =
    rw w (ap (λ b. if str_eq j k then true else b) (has_key-join k env ls ws))
has_key-join k env (open_entry j v ∷ ls) (w, ws) = absurd w
has_key-join k env (open_junk t ∷ ls) (w, ws) = absurd w
