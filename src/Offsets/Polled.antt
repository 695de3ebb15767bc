-- ===== src/Offsets/Polled.antt =====
-- All branches of a poll of the table of work offsets in lcnc-gateway/status_runtime.py.
use mathlib.Core.Path.{subst}
use lcnc_suite.Base.{
  ◌≡◌, refl, ap, sym, ◌∙◌, ℕ, ◌+◌, ◌-◌, ◌<◌, ◌==◌, true, ◌&&◌, Option, none, some, List, [], arith,
  if◌then◌else◌, Bool-cases, Option-cases, inl, inr, ltb, leb,
}
use lcnc_suite.Offsets
use lcnc_suite.Offsets.{
  Line, File, World, Stat, read_var_file, nth, or_zero, mtime_of, has_changed,
  resolve_var_file_path, seed_file, seed_wcs_cache, refresh, set_active,
}
use lcnc_suite.Offsets.Seeded.{is_readable, seeded, readable-some, unreadable-none, fill-seeded}
use lcnc_suite.Offsets.Resolved.{with_path, resolve_lem, resolve-again}

module _ {F : Type 0} (zero_float : F) where
  -- The lines that a poll takes up: of a file that is there, is not that of the last seed, and can be read
  abbrev pub taken : Option ℕ → World F → Option (List (Line F))
  taken none w = none
  taken (some path) w = elim (w.files path) [
    | none ↦ none
    | some file ↦
        if has_changed zero_float w.mtime file.mtime
        then (if is_readable file.lines then some file.lines else none)
        else none
  ]

  -- The row of the active system is that of STAT.
  abbrev pub shown : Stat F → ℕ → ℕ → F → F
  shown s i k old = elim s.g5x_index [
    | none ↦ old
    | some index ↦ elim s.g5x [
      | none ↦ old
      | some g5x ↦
          if index == i + 1
          then (if k == 9 then or_zero zero_float s.rotation_xy else nth zero_float k g5x)
          else old
    ]
  ]

  abbrev pub taken_up : Option (List (Line F)) → (ℕ → ℕ → F) → ℕ → ℕ → F
  taken_up none cache i k = cache i k
  taken_up (some lines) cache i k = seeded lines cache i k

  abbrev pub stamped : Option (List (Line F)) → Option ℕ → Option ℕ → Option ℕ
  stamped none old new = old
  stamped (some lines) old new = new

  is_active :
      (index i k : ℕ)
      → i < 9
      → k < 10
      → (leb 1 index && ltb (index - 1) 9 && (i == index - 1) && ltb k 10) ≡ (index == i + 1)
  is_active index i k i_lt k_lt = ground (arith, i_lt, k_lt)

  set_active-shown :
      (s : Stat F) (cache : ℕ → ℕ → F) (i k : ℕ)
      → i < 9
      → k < 10
      → set_active zero_float s cache i k ≡ shown s i k (cache i k)
  unfolding set_active
  set_active-shown s cache i k i_lt k_lt = elim (Option-cases s.g5x_index) [
    | inl no_index ↦ rw no_index refl
    | inr (index, e) ↦ elim (Option-cases s.g5x) [
      | inl no_offset ↦ rw (e, no_offset) refl
      | inr (g5x, f) ↦ rw (e, f, is_active index i k i_lt k_lt) refl
    ]
  ]

  -- What a refresh makes of a world whose path is known
  abbrev refreshed : (later : ℕ → Option (File F)) → Stat F → ℕ → World F → World F
  refreshed later s p v = elim (v.files p) [
    | none ↦ v
    | some file ↦
        if has_changed zero_float v.mtime file.mtime then seed_wcs_cache zero_float later s v else v
  ]

  -- The cell, and the mtime that is kept
  abbrev Takes : (later : ℕ → Option (File F)) → Option ℕ → World F → World F → ℕ → ℕ → Type 0
  Takes later path w v i k =
      (v.wcs_cache i k ≡ taken_up (taken path w) w.wcs_cache i k)
      × (v.mtime
          ≡ stamped (taken path w) w.mtime
              (elim path [ none ↦ none | some p ↦ mtime_of zero_float (later p) ]))

  module _ (later : ℕ → Option (File F)) (s : Stat F) (i k : ℕ) (i_lt : i < 9) (k_lt : k < 10) where
    seed_file-Takes :
        (p : ℕ) (v : World F) (file : File F)
        → v.files p ≡ some file
        → has_changed zero_float v.mtime file.mtime ≡ true
        → Takes later (some p) v (seed_file zero_float later p v) i k
    unfolding seed_file
    seed_file-Takes p v file e changed = elim (Bool-cases (is_readable file.lines)) [
      | inl good ↦
          let (d, read) = readable-some zero_float file.lines [] good in
          rw (seed_file, taken, e, changed, good, read)
            (fill-seeded zero_float file.lines d v.wcs_cache i k read i_lt k_lt, refl)
      | inr bad ↦
          rw (seed_file, taken, e, changed, bad, unreadable-none zero_float file.lines [] bad)
            (refl, refl)
    ]

    refreshed-Takes :
        (p : ℕ) (v : World F)
        → resolve_var_file_path zero_float s.ini_filename v ≡ (some p, v)
        → Takes later (some p) v (refreshed later s p v) i k
    unfolding seed_wcs_cache
    refreshed-Takes p v again = elim (Option-cases (v.files p)) [
      | inl gone ↦ rw (refreshed, taken, gone) (refl, refl)
      | inr (file, e) ↦ elim (Bool-cases (has_changed zero_float v.mtime file.mtime)) [
        | inl changed ↦
            let seeds : refreshed later s p v ≡ seed_file zero_float later p v =
              rw (refreshed, seed_wcs_cache, e, changed, again)
                (ap (λ q. seed_file zero_float later p q.1) again) in
            subst (λ u. Takes later (some p) v u i k) (sym seeds)
              (seed_file-Takes p v file e changed)
        | inr same ↦ rw (refreshed, taken, e, same) (refl, refl)
      ]
    ]

    refresh-Takes :
        (w : World F)
        → Takes later
            (resolve_var_file_path zero_float s.ini_filename w).0
            w
            (refresh zero_float later s w)
            i
            k
    unfolding refresh
    refresh-Takes w =
        let (key, path, same) = resolve_lem zero_float s.ini_filename w in
        elim (Option-cases (resolve_var_file_path zero_float s.ini_filename w).0) [
          | inl no_path ↦
              let stays : refresh zero_float later s w ≡ with_path w key path =
                rw (refresh, no_path) same in
              subst (λ q. Takes later q w (refresh zero_float later s w) i k) (sym no_path)
                (subst (λ u. Takes later none w u i k) (sym stays) (refl, refl))
          | inr (p, e) ↦
              let again : resolve_var_file_path zero_float s.ini_filename (with_path w key path)
                  ≡ (some p, with_path w key path) =
                subst (λ v. resolve_var_file_path zero_float s.ini_filename v ≡ (some p, v)) same
                  (resolve-again zero_float s.ini_filename w p e) in
              let goes_on : refresh zero_float later s w
                  ≡ refreshed later s p (with_path w key path) =
                rw (refresh, e) (ap (refreshed later s p) same) in
              subst (λ q. Takes later q w (refresh zero_float later s w) i k) (sym e)
                (subst (λ u. Takes later (some p) w u i k) (sym goes_on)
                  (refreshed-Takes p (with_path w key path) again))
        ]

  -- The world `v` after a poll of `w`, where `path` is the file of parameters
  pub record IsPolled (later : ℕ → Option (File F)) (s : Stat F) (path : Option ℕ) (w v : World F)
      (i k : ℕ) : Type 0 where
    pub cell : v.wcs_cache i k ≡ shown s i k (taken_up (taken path w) w.wcs_cache i k)
    pub mtime :
        v.mtime
        ≡ stamped
            (taken path w)
            w.mtime
            (elim path [ none ↦ none | some p ↦ mtime_of zero_float (later p) ])

  -- After a poll, a cell of the table has the value of STAT if its row is that of the active system, which
  -- STAT gives with its offsets; else the last value for its parameter in the file of parameters, if the
  -- poll takes the file up; else, or if the file has none, its old value. The poll takes the file up if its
  -- path is known, it is there, its mtime is not that of the last seed, and all values of offsets in it are
  -- floats. Then the mtime that it has after the read is kept, and else the old one.
  pub poll-IsPolled :
      (later : ℕ → Option (File F)) (s : Stat F) (w : World F) (i k : ℕ)
      → i < 9
      → k < 10
      → IsPolled later s
          (resolve_var_file_path zero_float s.ini_filename w).0
          w
          (Offsets.poll zero_float later s w)
          i
          k
  unfolding Offsets.poll
  poll-IsPolled later s w i k i_lt k_lt =
      let (cell, mtime) = refresh-Takes later s i k i_lt k_lt w in
      record {
        cell =
            set_active-shown s (refresh zero_float later s w).wcs_cache i k i_lt k_lt
            ∙ ap (shown s i k) cell;
        mtime = mtime;
      }
