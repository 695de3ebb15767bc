-- ===== src/Stores/Kept.antt =====
-- The settings of lcnc-gateway/settings_store.py: what happens to a file that cannot be read.
use lcnc_suite.Base.{
  ◌≡◌, refl, ◌∙◌, String, Bool, true, false, ◌||◌, Option, none, some, List, [], ◌∷◌, arith,
}
use lcnc_suite.Value.{Value, is_null}
use lcnc_suite.Stores.Settings.{
  File, missing, unreadable, holds, Store, exists, start, write_back, Op, load_op, save_op,
  reset_op, read, load_all, save_all, bump, load, save_section, reset, step, steps, without,
}

module _ {Bytes : Type 0} (dumps : Value → Bytes) (loads : Bytes → Option Value) where
  -- A file that is there and cannot be opened or parsed.
  unfoldable pub is_broken : File Bytes → Bool
  is_broken missing = false
  is_broken unreadable = true
  is_broken (holds b) = unparsed (loads b)
    where
      unparsed : Option Value → Bool
      unparsed none = true
      unparsed (some _) = false

  -- The store has read nothing yet, or knows that it could not.
  abbrev is_guarded : Store Bytes → Bool
  is_guarded s = is_null s.cache || s.load_failed

  -- After a read of such a file, every save is refused.
  abbrev IsRefused : File Bytes → Store Bytes → Type 0
  IsRefused f s = (s.file ≡ f) × (s.load_failed ≡ true)

  read-IsRefused :
      (s : Store Bytes) → is_broken s.file ≡ true → IsRefused s.file (read dumps loads s).1
  unfolding is_broken read
  read-IsRefused s broken = ground arith

  load_all-IsRefused :
      (s : Store Bytes)
      → is_broken s.file ≡ true
      → is_guarded s ≡ true
      → IsRefused s.file (load_all dumps loads s).1
  unfolding load_all
  load_all-IsRefused s broken h = let r = read-IsRefused s broken in ground arith

  save_all_refused :
      (f : File Bytes) (writes : Bool) (v : Value) (s : Store Bytes)
      → is_broken f ≡ true
      → IsRefused f s
      → save_all dumps loads writes v s ≡ (false, s)
  unfolding save_all is_broken exists
  save_all_refused f writes v s broken h = ground arith

  write_back-IsRefused :
      (writes : Bool) (d : Option Value) (f : File Bytes) (s : Store Bytes)
      → is_broken f ≡ true
      → IsRefused f s
      → ((write_back dumps loads writes d s).0 ≡ false)
        × IsRefused f (write_back dumps loads writes d s).1
  unfolding write_back bump
  write_back-IsRefused writes none f s broken h = (refl, h)
  write_back-IsRefused writes (some d) f s broken h =
      rw (save_all_refused f writes d (record s { cache = d }) broken h) (refl, h)

  save_section-IsRefused :
      (writes : Bool) (ini section : String) (v : Value) (s : Store Bytes)
      → is_broken s.file ≡ true
      → is_guarded s ≡ true
      → ((save_section dumps loads writes ini section v s).0 ≡ false)
        × IsRefused s.file (save_section dumps loads writes ini section v s).1
  unfolding save_section
  save_section-IsRefused writes ini section v s broken h =
      write_back-IsRefused writes _ s.file _ broken (load_all-IsRefused s broken h)

  reset-IsRefused :
      (writes : Bool) (ini : String) (s : Store Bytes)
      → is_broken s.file ≡ true
      → is_guarded s ≡ true
      → IsRefused s.file (reset dumps loads writes ini s).1
  unfolding reset bump
  reset-IsRefused writes ini s broken h =
      let r = load_all-IsRefused s broken h in
      let w =
        write_back-IsRefused writes (without ini (load_all dumps loads s).0) s.file
          (load_all dumps loads s).1 broken r in
      ground (arith, r, w.1)

  step-IsRefused :
      (op : Op) (s : Store Bytes)
      → is_broken s.file ≡ true
      → is_guarded s ≡ true
      → IsRefused s.file (step dumps loads op s)
  unfolding step load
  step-IsRefused (load_op ini) s broken h = load_all-IsRefused s broken h
  step-IsRefused (save_op writes ini section v) s broken h =
      (save_section-IsRefused writes ini section v s broken h).1
  step-IsRefused (reset_op writes ini) s broken h = reset-IsRefused writes ini s broken h

  steps_kept :
      (ops : List Op) (s : Store Bytes)
      → is_broken s.file ≡ true
      → is_guarded s ≡ true
      → ((steps dumps loads ops s).file ≡ s.file) × (is_guarded (steps dumps loads ops s) ≡ true)
  unfolding steps
  steps_kept [] s broken h = (refl, h)
  steps_kept (op ∷ ops) s broken h =
      let r = step-IsRefused op s broken h in
      let ih = steps_kept ops (step dumps loads op s) (rw r.0 broken) (guarded r.1) in
      (ih.0 ∙ r.0, ih.1)
    where
      guarded :
          (step dumps loads op s).load_failed ≡ true → is_guarded (step dumps loads op s) ≡ true
      guarded e = ground arith

  -- A settings file that is there but cannot be opened or parsed stays as it is whatever sequence of
  -- operations a gateway started on it runs, and every save of a section then raises.
  pub broken_file_kept :
      (f : File Bytes) (ops : List Op)
      → is_broken f ≡ true
      → ((steps dumps loads ops (start f)).file ≡ f)
        × ((writes : Bool) (ini section : String) (v : Value)
            → (save_section dumps loads writes ini section v (steps dumps loads ops (start f))).0
              ≡ false)
  unfolding start
  broken_file_kept f ops broken =
      let k = steps_kept ops (start f) broken refl in
      (
        k.0,
        λ writes ini section v.
            (save_section-IsRefused writes ini section v _ (rw k.0 broken) k.1).0,
      )
