-- ===== src/Bulk/Fresh.antt =====
-- The bytes of the preview of lcnc-gateway/bulk_pipeline.py, against its version, after every assignment.
use mathlib.Core.Path.{subst}
use lcnc_suite.Base.{
  ◌≡◌, refl, ℕ, ◌+◌, ◌≤◌, Bool, true, false, Option, none, some, List, [], ◌∷◌, arith, is_some,
  if-cases,
}
use lcnc_suite.Bulk

-- The bytes, if there are any, come from this version or a later one.
abbrev pub From : ℕ → Option Bulk.Payload → Type 0
From v none = Unit
From v (some p) = v ≤ p.stamp

abbrev pub IsStamped : Bulk.Preview → Type 0
IsStamped p = From p.version p.raw × From p.version p.packed

-- At every moment while the assignments are made
abbrev pub AlwaysStamped : List Bulk.Assign → Bulk.Preview → Type 0
AlwaysStamped [] p = IsStamped p
AlwaysStamped (a ∷ rest) p = IsStamped p × AlwaysStamped rest (Bulk.assign a p)

publish-AlwaysStamped :
    (large : Bool) (file : ℕ) (mtime : Option ℕ) (at : Bulk.Disk) (p : Bulk.Preview)
    → IsStamped p
    → AlwaysStamped (Bulk.publish large file mtime at p.version) p
unfolding Bulk.publish Bulk.assign
publish-AlwaysStamped true file mtime at p h =
    let new : p.version ≤ p.version + 1 = omega arith in
    let now : p.version + 1 ≤ p.version + 1 = omega arith in
    (h, (h, ((tt, h.1), ((tt, new), ((tt, now), ((tt, now), ((tt, now), (tt, now))))))))
publish-AlwaysStamped false file mtime at p h =
    let new : p.version ≤ p.version + 1 = omega arith in
    let now : p.version + 1 ≤ p.version + 1 = omega arith in
    (h, (h, ((new, h.1), ((new, tt), ((now, tt), ((now, tt), ((now, tt), (now, tt))))))))

clear-AlwaysStamped : (p : Bulk.Preview) → IsStamped p → AlwaysStamped Bulk.clear p
unfolding Bulk.clear Bulk.assign
clear-AlwaysStamped p h = (h, (h, ((tt, h.1), ((tt, tt), ((tt, tt), ((tt, tt), (tt, tt)))))))

running-AlwaysStamped :
    (b : Bool) (p : Bulk.Preview) → IsStamped p → AlwaysStamped (Bulk.set_running b ∷ []) p
unfolding Bulk.assign
running-AlwaysStamped b p h = (h, h)

abbrev pub Stamped : Bulk.World → Type 0
Stamped w = AlwaysStamped w.todo w.preview

start_refresh-Stamped :
    (file : ℕ) (w : Bulk.World)
    → IsStamped w.preview
    → Stamped w
    → Stamped (Bulk.start_refresh file w)
unfolding Bulk.start_refresh
start_refresh-Stamped file w h k =
    if-cases Stamped w.preview.running _ _ (λ _. k) (λ _. running-AlwaysStamped true w.preview h)

refresh-Stamped :
    (large : Bool) (w : Bulk.World) (j : Bulk.Job)
    → IsStamped w.preview
    → Stamped w
    → Stamped (Bulk.refresh large w j)
unfolding Bulk.refresh
refresh-Stamped large w Bulk.idle h k = k
refresh-Stamped large w (Bulk.scheduled file) h k = k
refresh-Stamped large w (Bulk.spawned file mtime) h k = k
refresh-Stamped large w (Bulk.parsed file mtime at) h k =
    publish-AlwaysStamped large file mtime at w.preview h

give_up-Stamped :
    (w : Bulk.World) (j : Bulk.Job) → IsStamped w.preview → Stamped w → Stamped (Bulk.give_up w j)
unfolding Bulk.give_up
give_up-Stamped w Bulk.idle h k = k
give_up-Stamped w (Bulk.scheduled file) h k = running-AlwaysStamped false w.preview h
give_up-Stamped w (Bulk.spawned file mtime) h k = running-AlwaysStamped false w.preview h
give_up-Stamped w (Bulk.parsed file mtime at) h k = running-AlwaysStamped false w.preview h

on_event-Stamped :
    (e : Bulk.Event) (w : Bulk.World)
    → IsStamped w.preview
    → Stamped w
    → Stamped (Bulk.on_event e w)
unfolding Bulk.on_event Bulk.poll Bulk.connect
on_event-Stamped (Bulk.polls none) w h k =
    if-cases Stamped (is_some w.preview.last_file) _ _ (λ _. clear-AlwaysStamped w.preview h)
      (λ _. k)
on_event-Stamped (Bulk.polls (some file)) w h k =
    if-cases Stamped (Bulk.file_changed file w) _ _ (λ _. start_refresh-Stamped file w h k) (λ _. k)
on_event-Stamped (Bulk.connects file) w h k =
    if-cases Stamped _ _ _ (λ _. k) (λ _. start_refresh-Stamped file w h k)
on_event-Stamped Bulk.unloads w h k = clear-AlwaysStamped w.preview h
on_event-Stamped Bulk.fails w h k = give_up-Stamped w w.job h k
on_event-Stamped (Bulk.goes_on large) w h k = refresh-Stamped large w w.job h k

pub now-IsStamped :
    (todo : List Bulk.Assign) (p : Bulk.Preview) → AlwaysStamped todo p → IsStamped p
now-IsStamped [] p h = h
now-IsStamped (a ∷ rest) p h = h.0

-- A turn with the assignments that are left
turn-Stamped :
    (e : Bulk.Event) (w : Bulk.World) (todo : List Bulk.Assign)
    → w.todo ≡ todo
    → Stamped w
    → Stamped (Bulk.turn e w todo)
unfolding Bulk.turn
turn-Stamped e w [] same h = on_event-Stamped e w (now-IsStamped w.todo w.preview h) h
turn-Stamped e w (a ∷ rest) same h =
    let h' : AlwaysStamped (a ∷ rest) w.preview = subst (λ t. AlwaysStamped t w.preview) same h in
    h'.1

pub step-Stamped : (m : Bulk.Move) (w : Bulk.World) → Stamped w → Stamped (Bulk.step m w)
unfolding Bulk.step
step-Stamped (Bulk.turns e) w h = turn-Stamped e w w.todo refl h
step-Stamped (Bulk.edits f) w h = h
step-Stamped (Bulk.deletes f) w h = h
step-Stamped Bulk.reads w h = h
step-Stamped (Bulk.asks accepts) w h = h
