-- ===== src/Stores/Reread.antt =====
-- The settings of lcnc-gateway/settings_store.py: what a gateway that starts later reads of a save.
use text.Mathlib.Text.{◌==◌ as str_eq}
use mathlib.Core.Path.{subst}
use mathlib.Core.Option.{some-injective}
use lcnc_suite.Base.{
  ◌≡◌, refl, sym, ap, ◌∙◌, inl, inr, String, ◌+◌, Bool, true, false, ◌&&◌, Option, none, some,
  arith, Bool-cases,
}
use lcnc_suite.Value.{Value, Fields, end, obj, find, assoc, find-assoc, find-assoc_other, text-eq}
use lcnc_suite.Stores.Settings.{
  File, holds, Store, start, read, load_all, put_section, or_empty, save_all, bump, write_back,
  load, save_section, with_section, entry_of,
}

unfoldable pub look_up : String → Option Value → Option Value
unfolding find
look_up section (some (obj e)) = find e section
look_up section _ = none

-- `d.get(ini, {}).get(section)`
unfoldable pub section_of : String → String → Value → Option Value
unfolding entry_of look_up
section_of ini section d = look_up section (entry_of ini d)

section_of-assoc :
    (ini section : String) (e d : Fields)
    → section_of ini section (obj (assoc ini (obj e) d)) ≡ find e section
unfolding section_of entry_of look_up or_empty
section_of-assoc ini section e d = rw (find-assoc ini (obj e) d) refl

section_of-assoc_other :
    (ini i k : String) (w : Value) (d : Fields)
    → str_eq ini i ≡ false
    → section_of i k (obj (assoc ini w d)) ≡ section_of i k (obj d)
unfolding section_of entry_of look_up or_empty
section_of-assoc_other ini i k w d h = rw (find-assoc_other ini i w d h) refl

second : (a b : Bool) → a ≡ true → (a && b) ≡ false → b ≡ false
second a b e n = ground arith

-- The same section of the same configuration.
abbrev pub same : String → String → String → String → Bool
same ini section i k = str_eq ini i && str_eq section k

-- `d'` is `d` with one section set.
abbrev Sets : String → String → Value → Value → Value → Type 0
Sets ini section v d d' =
    (section_of ini section d' ≡ some v)
    × ((i k : String) → same ini section i k ≡ false → section_of i k d' ≡ section_of i k d)

assoc-Sets :
    (ini section : String) (v : Value) (e d : Fields)
    → ((k : String) → find e k ≡ section_of ini k (obj d))
    → Sets ini section v (obj d) (obj (assoc ini (obj (assoc section v e)) d))
assoc-Sets ini section v e d h =
    (section_of-assoc ini section (assoc section v e) d ∙ find-assoc section v e, others)
  where
    within :
        (i k : String)
        → str_eq ini i ≡ true
        → str_eq section k ≡ false
        → section_of i k (obj (assoc ini (obj (assoc section v e)) d)) ≡ section_of i k (obj d)
    within i k a b =
        subst
          (λ x.
            section_of x k (obj (assoc ini (obj (assoc section v e)) d)) ≡ section_of x k (obj d))
          (text-eq ini i a)
          (section_of-assoc ini k (assoc section v e) d ∙ find-assoc_other section k v e b ∙ h k)

    others :
        (i k : String)
        → same ini section i k ≡ false
        → section_of i k (obj (assoc ini (obj (assoc section v e)) d)) ≡ section_of i k (obj d)
    others i k n = elim (Bool-cases (str_eq ini i)) [
      | inl a ↦ within i k a (second (str_eq ini i) (str_eq section k) a n)
      | inr b ↦ section_of-assoc_other ini i k (obj (assoc section v e)) d b
    ]

-- The entry of `d` under `ini`, when it is a dict or missing.
section_of-entry :
    (ini : String) (d e : Fields)
    → or_empty (find d ini) ≡ obj e
    → (k : String) → find e k ≡ section_of ini k (obj d)
unfolding section_of entry_of look_up
section_of-entry ini d e h k = rw h refl

put_section-Sets :
    (ini section : String) (v d' : Value) (d : Fields) (o : Option Value)
    → find d ini ≡ o
    → put_section ini section v d o ≡ some d'
    → Sets ini section v (obj d) d'
unfolding put_section or_empty
put_section-Sets ini section v d' d none e h =
    subst (Sets ini section v (obj d)) (some-injective _ _ h)
      (assoc-Sets ini section v end d (section_of-entry ini d end (ap or_empty e)))
put_section-Sets ini section v d' d (some (obj f)) e h =
    subst (Sets ini section v (obj d)) (some-injective _ _ h)
      (assoc-Sets ini section v f d (section_of-entry ini d f (ap or_empty e)))
put_section-Sets ini section v d' d (some w) e h = absurd (ground (arith, h))

with_section-Sets :
    (ini section : String) (v d d' : Value)
    → with_section ini section v d ≡ some d'
    → Sets ini section v d d'
unfolding with_section
with_section-Sets ini section v (obj d) d' h =
    put_section-Sets ini section v d' d (find d ini) refl h
with_section-Sets ini section v d d' h = absurd (ground (arith, h))

module _ {Bytes : Type 0} (dumps : Value → Bytes) (loads : Bytes → Option Value) where
  -- The section that `load` gives.
  unfoldable pub setting : String → String → Store Bytes → Option Value
  unfolding load look_up
  setting ini section s = look_up section (load dumps loads ini s).0

  write_back_returns :
      (writes : Bool) (o : Option Value) (s : Store Bytes)
      → (write_back dumps loads writes o s).0 ≡ true
      → (d : Value) × (o ≡ some d)
        × ((write_back dumps loads writes o s).1.file ≡ holds (dumps d))
        × ((write_back dumps loads writes o s).1.version ≡ s.version + 1)
  unfolding write_back save_all bump
  write_back_returns writes none s h = absurd (ground (arith, h))
  write_back_returns writes (some d) s h = (d, refl, ground arith, ground arith)

  setting-start :
      (ini section : String) (d : Value) (f : File Bytes)
      → f ≡ holds (dumps d)
      → loads (dumps d) ≡ some d
      → setting ini section (start f) ≡ section_of ini section d
  unfolding setting section_of load load_all read start
  setting-start ini section d f e l = rw (e, l) refl

  setting-load_all :
      (ini section : String) (s : Store Bytes)
      → setting ini section s ≡ section_of ini section (load_all dumps loads s).0
  unfolding setting load section_of
  setting-load_all ini section s = refl

  load_all-version : (s : Store Bytes) → (load_all dumps loads s).1.version ≡ s.version
  unfolding load_all read
  load_all-version s = ground arith

  -- When the save of a section returns, and what `json` writes it reads back, a store that is started
  -- on the file later gives the value saved for that section and what the store gave before for
  -- every other section of every configuration, and the version has grown by one.
  pub setting-save_section :
      ((v : Value) → loads (dumps v) ≡ some v)
      → (writes : Bool) (ini section : String) (v : Value) (s : Store Bytes)
      → (save_section dumps loads writes ini section v s).0 ≡ true
      → let t = (save_section dumps loads writes ini section v s).1 in
        (setting ini section (start t.file) ≡ some v)
        × ((i k : String)
            → same ini section i k ≡ false
            → setting i k (start t.file) ≡ setting i k s)
        × (t.version ≡ s.version + 1)
  unfolding save_section
  setting-save_section json writes ini section v s h =
      let all = load_all dumps loads s in
      let (d, e, f, n) = write_back_returns writes (with_section ini section v all.0) all.1 h in
      let sets = with_section-Sets ini section v all.0 d e in
      (
        setting-start ini section d _ f (json d) ∙ sets.0,
        (λ i k other.
            setting-start i k d _ f (json d) ∙ sets.1 i k other ∙ sym (setting-load_all i k s)),
        n ∙ ap (λ m. m + 1) (load_all-version s),
      )
