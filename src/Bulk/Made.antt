-- ===== src/Bulk/Made.antt =====
-- What the preview of lcnc-gateway/bulk_pipeline.py was made from, once the assignments that are left are
-- made.
use lcnc_suite.Base.{
  ◌≡◌, ℕ, ◌≤◌, ◌==◌, Bool, true, Option, none, some, List, [], ◌∷◌, arith, if-cases, ◌⊎◌,
}
use lcnc_suite.Bulk

-- A file as it was, or is
pub record Was (a d : Bulk.Disk) : Type 0 where
  pub before : a.changes ≤ d.changes
  pub there : a.changes ≡ d.changes → d.present ≡ true → a.present ≡ true

pub Was-refl : (d : Bulk.Disk) → Was d d
Was-refl d = record { before = omega arith; there = λ _ h. h }

Was-trans : (a b c : Bulk.Disk) → Was a b → Was b c → Was a c
Was-trans a b c h k = record {
  before = omega (arith, h.before, k.before);
  there = λ e p.
      h.there (omega (arith, h.before, k.before)) (k.there (omega (arith, h.before, k.before)) p);
}

-- An mtime that was read before
abbrev pub Until : Option ℕ → ℕ → Type 0
Until none n = Unit
Until (some m) n = m ≤ n

Until-le : (m : Option ℕ) (a b : ℕ) → Until m a → a ≤ b → Until m b
Until-le none a b h le = tt
Until-le (some m) a b h le = omega arith

-- One variant of the bytes is held, and they were made from the file.
pub record Shows (p : Bulk.Preview) (d : Bulk.Disk) (file : ℕ) : Type 0 where
  pub bytes : Bulk.Payload
  pub held : ((p.raw ≡ some bytes) × (p.packed ≡ none)) ⊎ ((p.raw ≡ none) × (p.packed ≡ some bytes))
  pub named : p.pending ≡ some file
  pub of_file : bytes.file ≡ file
  pub numbered : bytes.stamp ≡ p.version
  pub was : Was bytes.at d
  pub until : Until p.last_mtime bytes.at.changes

abbrev pub LastShows : Bulk.Preview → (ℕ → Bulk.Disk) → Option ℕ → Type 0
LastShows p disk none = Unit
LastShows p disk (some file) = Shows p (disk file) file

abbrev pub finish : List Bulk.Assign → Bulk.Preview → Bulk.Preview
finish [] p = p
finish (a ∷ rest) p = finish rest (Bulk.assign a p)

abbrev pub JobIsSound : (ℕ → Bulk.Disk) → Bulk.Job → Type 0
JobIsSound disk (Bulk.spawned file mtime) = Until mtime (disk file).changes
JobIsSound disk (Bulk.parsed file mtime at) = Was at (disk file) × Until mtime at.changes
JobIsSound disk _ = Unit

abbrev pub IsSettled : Bulk.Preview → (ℕ → Bulk.Disk) → Type 0
IsSettled p disk = LastShows p disk p.last_file

pub record Inv (w : Bulk.World) : Type 0 where
  pub settled : IsSettled (finish w.todo w.preview) w.disk
  pub job : JobIsSound w.disk w.job

pub running-LastShows :
    (b : Bool) (p : Bulk.Preview) (disk : ℕ → Bulk.Disk) (file : Option ℕ)
    → LastShows p disk file
    → LastShows (record p { running = b }) disk file
running-LastShows b p disk none h = tt
running-LastShows b p disk (some file) h = record {
  bytes = h.bytes;
  held = h.held;
  named = h.named;
  of_file = h.of_file;
  numbered = h.numbered;
  was = h.was;
  until = h.until;
}

-- The files change.
grown-LastShows :
    (p : Bulk.Preview) (disk disk' : ℕ → Bulk.Disk) (file : Option ℕ)
    → ((f : ℕ) → Was (disk f) (disk' f))
    → LastShows p disk file
    → LastShows p disk' file
grown-LastShows p disk disk' none g h = tt
grown-LastShows p disk disk' (some file) g h = record {
  bytes = h.bytes;
  held = h.held;
  named = h.named;
  of_file = h.of_file;
  numbered = h.numbered;
  was = Was-trans _ _ _ h.was (g file);
  until = h.until;
}

pub put_disk-Was :
    (f : ℕ) (d : Bulk.Disk) (disk : ℕ → Bulk.Disk) (g : ℕ)
    → Was (disk f) d
    → Was (disk g) (Bulk.put_disk f d disk g)
put_disk-Was f d disk g h =
    if-cases (Was (disk g)) (g == f) _ _ (λ e. let same : g ≡ f = ground (arith, e) in rw same h)
      (λ _. Was-refl (disk g))

grown-JobIsSound :
    (disk disk' : ℕ → Bulk.Disk) (j : Bulk.Job)
    → ((f : ℕ) → Was (disk f) (disk' f))
    → JobIsSound disk j
    → JobIsSound disk' j
grown-JobIsSound disk disk' Bulk.idle g h = tt
grown-JobIsSound disk disk' (Bulk.scheduled file) g h = tt
grown-JobIsSound disk disk' (Bulk.spawned file mtime) g h = Until-le mtime _ _ h ((g file).before)
grown-JobIsSound disk disk' (Bulk.parsed file mtime at) g h = (Was-trans _ _ _ h.0 (g file), h.1)

pub grown-Inv :
    (w : Bulk.World) (disk : ℕ → Bulk.Disk)
    → ((f : ℕ) → Was (w.disk f) (disk f))
    → Inv w
    → Inv (record w { disk = disk })
grown-Inv w disk g i = record {
  settled =
      grown-LastShows (finish w.todo w.preview) w.disk disk ((finish w.todo w.preview).last_file) g
        i.settled;
  job = grown-JobIsSound w.disk disk w.job g i.job;
}

pub mtime-Until : (d : Bulk.Disk) → Until (Bulk.mtime_of d) d.changes
mtime-Until d = if-cases (λ m. Until m d.changes) d.present _ _ (λ _. omega arith) (λ _. tt)
