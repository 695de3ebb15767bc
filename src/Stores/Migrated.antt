-- ===== src/Stores/Migrated.antt =====
-- The metadata of lcnc-gateway/tool_store.py: what is read after a save.
use text.Mathlib.Text.{◌==◌ as str_eq, starts_with}
use lcnc_suite.Base.{
  ◌≡◌, refl, ap, ◌∙◌, String, ℕ, Bool, true, false, Option, none, some, List, arith, if-cases,
  Bool-cases, inl, inr,
}
use lcnc_suite.Value.{
  Value, Fields, field, end, obj, find, assoc, find-assoc, find-assoc_other, text-eq, truth,
}
use lcnc_suite.Stores.Settings.{entry_of, or_empty}
use lcnc_suite.Stores.Tools.{
  Store, Disk, keys, any_text, not_and, iterate, is_flat, load_all, save_all, reread, load, save,
}

any_text-assoc :
    (test : String → Bool) (k : String) (v : Value) (d : Fields)
    → test k ≡ true
    → any_text test (keys (assoc k v d)) ≡ some true
unfolding any_text keys assoc
any_text-assoc test k v end h = rw h refl
any_text-assoc test k v (field j w rest) h =
    let ih = any_text-assoc test k v rest h in
    let same : str_eq j k ≡ true → test j ≡ true = λ e. ap test (text-eq j k e) ∙ h in
    elim (Bool-cases (str_eq j k)) [
      | inl e ↦ let t = same e in ground (arith, ih)
      | inr e ↦ ground (arith, ih)
    ]

is_flat-assoc :
    (letters : String → List Value) (is_digit : String → Bool) (k : String) (v : Value) (d : Fields)
    → starts_with k "/" ≡ true
    → is_flat letters is_digit (obj (assoc k v d)) ≡ some false
unfolding is_flat iterate not_and
is_flat-assoc letters is_digit k v d h =
    if-cases (λ o. o ≡ some false) (truth (obj (assoc k v d))) _ _
      (λ _. rw (any_text-assoc (λ x. starts_with x "/") k v d h) refl) (λ _. refl)

-- `d.get(i, {})` of a dict
abbrev pub entry : Fields → String → Value
entry d i = or_empty (find d i)

module _ {Bytes : Type 0} (dumps : Value → Bytes) (loads : Bytes → Option Value) where
  -- What `save` reads and what it then writes.
  save_returns :
      (disk : Disk) (ini : String) (library : Value) (s : Store Bytes)
      → (save dumps loads disk ini library s).0 ≡ true
      → (d : Fields) × (reread loads disk s.file ≡ some (obj d))
        × ((save dumps loads disk ini library s).1
            ≡ record { file = some (disk.now, dumps (obj (assoc ini library d))); cache = none })
  unfolding save save_all
  save_returns disk ini library s h = by_cases (reread loads disk s.file) refl
    where
      by_cases :
          (o : Option Value)
          → reread loads disk s.file ≡ o
          → (d : Fields) × (o ≡ some (obj d))
            × ((save dumps loads disk ini library s).1 ≡ record {
              file = some (disk.now, dumps (obj (assoc ini library d)));
              cache = none;
            })
      by_cases (some (obj d)) e = (d, refl, ground (arith, h, e))
      by_cases o e = absurd (ground (arith, h, e))

  load_all-record :
      (disk : Disk) (t : ℕ) (d : Fields)
      → loads (dumps (obj d)) ≡ some (obj d)
      → disk.stats ≡ true
      → disk.opens ≡ true
      → (load_all loads disk (record { file = some (t, dumps (obj d)); cache = none })).0 ≡ obj d
  unfolding load_all
  load_all-record disk t d json st op = ground arith

  load-record :
      (letters : String → List Value) (is_digit : String → Bool) (disk : Disk) (i : String) (t : ℕ)
      (d : Fields)
      → loads (dumps (obj d)) ≡ some (obj d)
      → disk.stats ≡ true
      → disk.opens ≡ true
      → is_flat letters is_digit (obj d) ≡ some false
      → (load dumps loads letters is_digit disk i
          (record { file = some (t, dumps (obj d)); cache = none })).0
        ≡ some (entry d i)
  unfolding load entry_of
  load-record letters is_digit disk i t d json st op flat =
      let all = load_all-record disk t d json st op in rw (all, flat) (ap (entry_of i) all)

  -- When the save of a configuration's metadata returns, what `json` writes it reads back, and the
  -- name of the configuration begins with a slash, the file held a dict, or was missing, and a load
  -- with a disk that can be read gives the metadata saved for that configuration and, for every other
  -- one, what that dict has.
  pub load-save :
      ((v : Value) → loads (dumps v) ≡ some v)
      → (letters : String → List Value) (is_digit : String → Bool) (disk later : Disk)
        (ini : String) (library : Value) (s : Store Bytes)
      → starts_with ini "/" ≡ true
      → later.stats ≡ true
      → later.opens ≡ true
      → (save dumps loads disk ini library s).0 ≡ true
      → let t = (save dumps loads disk ini library s).1 in
        (d : Fields) × (reread loads disk s.file ≡ some (obj d))
        × ((load dumps loads letters is_digit later ini t).0 ≡ some library)
        × ((i : String)
            → str_eq ini i ≡ false
            → (load dumps loads letters is_digit later i t).0 ≡ some (entry d i))
  unfolding or_empty
  load-save json letters is_digit disk later ini library s slash st op h =
      let (d, e, r) = save_returns disk ini library s h in
      let saved = assoc ini library d in
      let all = λ (i : String).
        ap (λ x. (load dumps loads letters is_digit later i x).0) r
        ∙ load-record letters is_digit later i disk.now saved (json (obj saved)) st op
            (is_flat-assoc letters is_digit ini library d slash) in
      (
        d,
        e,
        all ini ∙ ap (λ o. some (or_empty o)) (find-assoc ini library d),
        (λ i other. all i ∙ ap (λ o. some (or_empty o)) (find-assoc_other ini i library d other)),
      )
