-- ===== src/Bulk/Current.antt =====
-- The file that the preview of lcnc-gateway/bulk_pipeline.py was made from, against the file on disk.
use mathlib.Core.Path.{subst}
use lcnc_suite.Base.{
  ◌≡◌, refl, sym, ◌∙◌, ℕ, ◌+◌, ◌≤◌, Bool, true, false, none, some, List, [], ◌∷◌, arith, is_some,
  if-cases, inl, inr,
}
use lcnc_suite.Bulk
use lcnc_suite.Bulk.Made.{
  Was-refl, Until, Shows, LastShows, finish, JobIsSound, IsSettled, Inv, put_disk-Was,
  running-LastShows, grown-Inv, mtime-Until,
}

-- What an event leaves, if no assignment is left before it
module _ (w : Bulk.World) (now : IsSettled w.preview w.disk) (i : Inv w) where
  start_refresh-Inv : (file : ℕ) → Inv (Bulk.start_refresh file w)
  unfolding Bulk.start_refresh Bulk.assign
  start_refresh-Inv file =
      if-cases Inv w.preview.running _ _ (λ _. i)
        (λ _. record {
          settled = running-LastShows true w.preview w.disk w.preview.last_file now;
          job = tt;
        })

  refresh-Inv : (large : Bool) (j : Bulk.Job) → JobIsSound w.disk j → Inv (Bulk.refresh large w j)
  unfolding Bulk.refresh Bulk.publish Bulk.assign
  refresh-Inv large Bulk.idle k = i
  refresh-Inv large (Bulk.scheduled file) k = record {
    settled = i.settled;
    job = mtime-Until (w.disk file);
  }
  refresh-Inv large (Bulk.spawned file mtime) k = record {
    settled = i.settled;
    job = (Was-refl (w.disk file), k);
  }
  refresh-Inv true (Bulk.parsed file mtime at) k = record {
    settled = record {
      bytes = record { file = file; at = at; stamp = w.preview.version + 1 };
      held = inr (refl, refl);
      named = refl;
      of_file = refl;
      numbered = refl;
      was = k.0;
      until = k.1;
    };
    job = tt;
  }
  refresh-Inv false (Bulk.parsed file mtime at) k = record {
    settled = record {
      bytes = record { file = file; at = at; stamp = w.preview.version + 1 };
      held = inl (refl, refl);
      named = refl;
      of_file = refl;
      numbered = refl;
      was = k.0;
      until = k.1;
    };
    job = tt;
  }

  stopped-Inv : Inv (record w { todo = Bulk.set_running false ∷ []; job = Bulk.idle })
  unfolding Bulk.assign
  stopped-Inv = record {
    settled = running-LastShows false w.preview w.disk w.preview.last_file now;
    job = tt;
  }

  give_up-Inv : (j : Bulk.Job) → Inv (Bulk.give_up w j)
  unfolding Bulk.give_up
  give_up-Inv Bulk.idle = i
  give_up-Inv (Bulk.scheduled file) = stopped-Inv
  give_up-Inv (Bulk.spawned file mtime) = stopped-Inv
  give_up-Inv (Bulk.parsed file mtime at) = stopped-Inv

  clear-Inv : Inv (record w { todo = Bulk.clear })
  unfolding Bulk.clear Bulk.assign
  clear-Inv = record { settled = tt; job = i.job }

  on_event-Inv : (e : Bulk.Event) → Inv (Bulk.on_event e w)
  unfolding Bulk.on_event Bulk.poll Bulk.connect
  on_event-Inv (Bulk.polls none) =
      if-cases Inv (is_some w.preview.last_file) _ _ (λ _. clear-Inv) (λ _. i)
  on_event-Inv (Bulk.polls (some file)) =
      if-cases Inv (Bulk.file_changed file w) _ _ (λ _. start_refresh-Inv file) (λ _. i)
  on_event-Inv (Bulk.connects file) = if-cases Inv _ _ _ (λ _. i) (λ _. start_refresh-Inv file)
  on_event-Inv Bulk.unloads = clear-Inv
  on_event-Inv Bulk.fails = give_up-Inv w.job
  on_event-Inv (Bulk.goes_on large) = refresh-Inv large w.job i.job

turn-Inv :
    (e : Bulk.Event) (w : Bulk.World) (todo : List Bulk.Assign)
    → w.todo ≡ todo
    → Inv w
    → Inv (Bulk.turn e w todo)
unfolding Bulk.turn
turn-Inv e w [] same i =
    on_event-Inv w (subst (λ t. IsSettled (finish t w.preview) w.disk) same i.settled) i e
turn-Inv e w (a ∷ rest) same i = record {
  settled = subst (λ t. IsSettled (finish t w.preview) w.disk) same i.settled;
  job = i.job;
}

step-Inv : (m : Bulk.Move) (w : Bulk.World) → Inv w → Inv (Bulk.step m w)
unfolding Bulk.step
step-Inv (Bulk.turns e) w i = turn-Inv e w w.todo refl i
step-Inv (Bulk.edits f) w i =
    grown-Inv w _
      (λ g.
        put_disk-Was f _ w.disk g
          (record { before = omega arith; there = λ e _. absurd (omega (arith, e)) }))
      i
step-Inv (Bulk.deletes f) w i =
    grown-Inv w _
      (λ g.
        put_disk-Was f _ w.disk g
          (record { before = omega arith; there = λ _ p. absurd (ground (arith, p)) }))
      i
step-Inv Bulk.reads w i = record { settled = i.settled; job = i.job }
step-Inv (Bulk.asks accepts) w i = record { settled = i.settled; job = i.job }

steps-Inv : (ms : List Bulk.Move) (w : Bulk.World) → Inv w → Inv (Bulk.steps ms w)
unfolding Bulk.steps
steps-Inv [] w i = i
steps-Inv (m ∷ ms) w i = steps-Inv ms (Bulk.step m w) (step-Inv m w i)

start-Inv : (time : ℕ) (disk : ℕ → Bulk.Disk) → Inv (Bulk.at_start time disk)
unfolding Bulk.at_start
start-Inv time disk = record { settled = tt; job = tt }

-- The preview that is held was made from the file as it is now.
pub record IsCurrent (w : Bulk.World) (file : ℕ) : Type 0 where
  pub shows : Shows w.preview (w.disk file) file
  pub now : shows.bytes.at ≡ w.disk file

unchanged-file :
    (file : ℕ) (w : Bulk.World) → Bulk.file_changed file w ≡ false → w.preview.last_file ≡ some file
unfolding Bulk.file_changed
unchanged-file file w h = ground (arith, h)

unchanged-mtime :
    (file : ℕ) (w : Bulk.World)
    → Bulk.file_changed file w ≡ false
    → (w.disk file).present ≡ true
    → w.preview.last_mtime ≡ some (w.disk file).changes
unfolding Bulk.file_changed
unchanged-mtime file w h p = ground (arith, h, p)

Disk-eq : (a d : Bulk.Disk) → a.changes ≡ d.changes → a.present ≡ d.present → a ≡ d
Disk-eq a d h k = ground (arith, h, k)

Shows-now :
    (w : Bulk.World) (file : ℕ) (s : Shows w.preview (w.disk file) file)
    → (w.disk file).present ≡ true
    → w.preview.last_mtime ≡ some (w.disk file).changes
    → IsCurrent w file
Shows-now w file s there read =
    let least : (w.disk file).changes ≤ s.bytes.at.changes =
      subst (λ m. Until m s.bytes.at.changes) read s.until in
    let same : s.bytes.at.changes ≡ (w.disk file).changes = omega (arith, least, s.was.before) in
    record {
      shows = s;
      now = Disk-eq s.bytes.at (w.disk file) same (s.was.there same there ∙ sym there);
    }

last_Shows :
    (w : Bulk.World) (file : ℕ)
    → Inv w
    → w.todo ≡ []
    → Bulk.file_changed file w ≡ false
    → Shows w.preview (w.disk file) file
last_Shows w file i quiet same =
    subst (LastShows w.preview w.disk) (unchanged-file file w same)
      (subst (λ t. IsSettled (finish t w.preview) w.disk) quiet i.settled)

-- Where the mtime of a file grows with every change of it: after any events, changes of files and reads
-- from the start of the gateway, and between the assignments of no publication: if a poll finds that the file which is open is on disk and unchanged,
-- then the preview names this file, it was made from the file as it is now, its version is the one that
-- it was published under, and exactly one variant of its bytes is held.
pub unchanged-IsCurrent :
    (time : ℕ) (disk : ℕ → Bulk.Disk) (ms : List Bulk.Move) (file : ℕ)
    → (Bulk.steps ms (Bulk.at_start time disk)).todo ≡ []
    → ((Bulk.steps ms (Bulk.at_start time disk)).disk file).present ≡ true
    → Bulk.file_changed file (Bulk.steps ms (Bulk.at_start time disk)) ≡ false
    → IsCurrent (Bulk.steps ms (Bulk.at_start time disk)) file
unchanged-IsCurrent time disk ms file quiet there same =
    let w = Bulk.steps ms (Bulk.at_start time disk) in
    let i = steps-Inv ms (Bulk.at_start time disk) (start-Inv time disk) in
    Shows-now w file (last_Shows w file i quiet same) there (unchanged-mtime file w same there)
