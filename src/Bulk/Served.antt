-- ===== src/Bulk/Served.antt =====
-- The bytes that get_preview of lcnc-gateway/gateway.py serves, against the version when it is asked.
use lcnc_suite.Base.{
  ◌≡◌, refl, ℕ, ◌≤◌, Bool, ◌&&◌, Option, none, some, List, [], ◌∷◌, arith, is_some, if-cases,
}
use lcnc_suite.Bulk
use lcnc_suite.Bulk.Fresh.{From, IsStamped, Stamped, now-IsStamped, step-Stamped}

-- The version of a world does not fall.
on_event-version :
    (e : Bulk.Event) (w : Bulk.World) → (Bulk.on_event e w).preview.version ≡ w.preview.version
unfolding Bulk.on_event Bulk.poll Bulk.connect Bulk.start_refresh Bulk.refresh Bulk.give_up
on_event-version (Bulk.polls none) w = ground arith
on_event-version (Bulk.polls (some file)) w = ground arith
on_event-version (Bulk.connects file) w = ground arith
on_event-version Bulk.unloads w = refl
on_event-version Bulk.fails w = ground arith
on_event-version (Bulk.goes_on large) w = ground arith

assign-version : (a : Bulk.Assign) (p : Bulk.Preview) → p.version ≤ (Bulk.assign a p).version
unfolding Bulk.assign
assign-version (Bulk.set_pending x) p = omega arith
assign-version _ p = omega arith

turn-version :
    (e : Bulk.Event) (w : Bulk.World) (todo : List Bulk.Assign)
    → w.preview.version ≤ (Bulk.turn e w todo).preview.version
unfolding Bulk.turn
turn-version e w [] = omega (arith, on_event-version e w)
turn-version e w (a ∷ rest) = assign-version a w.preview

step-version :
    (m : Bulk.Move) (w : Bulk.World) → w.preview.version ≤ (Bulk.step m w).preview.version
unfolding Bulk.step
step-version (Bulk.turns e) w = turn-version e w w.todo
step-version (Bulk.edits f) w = omega arith
step-version _ w = omega arith

-- What the thread has, and what it has served, is of this version or a later one.
abbrev pub Serves : ℕ → Bulk.Reader → Type 0
Serves v (Bulk.at_header body) = From v body
Serves v (Bulk.served body version) = From v body × (v ≤ version)
Serves v _ = Unit

From-le :
    (v version : ℕ) (body : Option Bulk.Payload) → v ≤ version → From version body → From v body
From-le v version none le h = tt
From-le v version (some p) le h = omega arith

read-Serves :
    (v : ℕ) (p : Bulk.Preview) (r : Bulk.Reader)
    → v ≤ p.version
    → IsStamped p
    → Serves v r
    → Serves v (Bulk.read p r)
unfolding Bulk.read
read-Serves v p (Bulk.at_raw accepts) le h k =
    if-cases (Serves v) (is_some p.raw) _ _ (λ _. tt) (λ _. tt)
read-Serves v p (Bulk.at_packed accepts) le h k =
    if-cases (Serves v) (is_some p.packed) _ _ (λ _. tt) (λ _. tt)
read-Serves v p (Bulk.at_choice accepts) le h k =
    if-cases (Serves v) (accepts && is_some p.packed) _ _ (λ _. tt) (λ _. tt)
read-Serves v p Bulk.take_packed le h k = From-le v p.version p.packed le h.1
read-Serves v p Bulk.test_raw le h k = if-cases (Serves v) (is_some p.raw) _ _ (λ _. tt) (λ _. tt)
read-Serves v p Bulk.take_raw le h k = From-le v p.version p.raw le h.0
read-Serves v p Bulk.take_unpacked le h k =
    if-cases (Serves v) (is_some p.packed) _ _ (λ _. From-le v p.version p.packed le h.1) (λ _. tt)
read-Serves v p (Bulk.at_header body) le h k = (k, le)
read-Serves v p (Bulk.served body version) le h k = k
read-Serves v p Bulk.away le h k = tt
read-Serves v p Bulk.not_found le h k = tt
read-Serves v p Bulk.failed le h k = tt

record Holds (v : ℕ) (w : Bulk.World) : Type 0 where
  stamped : Stamped w
  reached : v ≤ w.preview.version
  serves : Serves v w.reader

on_event-reader : (e : Bulk.Event) (w : Bulk.World) → (Bulk.on_event e w).reader ≡ w.reader
unfolding Bulk.on_event Bulk.poll Bulk.connect Bulk.start_refresh Bulk.refresh Bulk.give_up
on_event-reader (Bulk.polls none) w = ground arith
on_event-reader (Bulk.polls (some file)) w = ground arith
on_event-reader (Bulk.connects file) w = ground arith
on_event-reader Bulk.unloads w = refl
on_event-reader Bulk.fails w = ground arith
on_event-reader (Bulk.goes_on large) w = ground arith

turn-reader :
    (e : Bulk.Event) (w : Bulk.World) (todo : List Bulk.Assign)
    → (Bulk.turn e w todo).reader ≡ w.reader
unfolding Bulk.turn
turn-reader e w [] = on_event-reader e w
turn-reader e w (a ∷ rest) = refl

step-Serves : (v : ℕ) (m : Bulk.Move) (w : Bulk.World) → Holds v w → Serves v (Bulk.step m w).reader
unfolding Bulk.step
step-Serves v (Bulk.turns e) w h = rw (turn-reader e w w.todo) h.serves
step-Serves v (Bulk.edits f) w h = h.serves
step-Serves v (Bulk.deletes f) w h = h.serves
step-Serves v Bulk.reads w h =
    read-Serves v w.preview w.reader h.reached (now-IsStamped w.todo w.preview h.stamped) h.serves
step-Serves v (Bulk.asks accepts) w h = tt

steps-Holds : (v : ℕ) (ms : List Bulk.Move) (w : Bulk.World) → Holds v w → Holds v (Bulk.steps ms w)
unfolding Bulk.steps
steps-Holds v [] w h = h
steps-Holds v (m ∷ ms) w h = steps-Holds v ms (Bulk.step m w) (record {
  stamped = step-Stamped m w h.stamped;
  reached = omega (arith, step-version m w, h.reached);
  serves = step-Serves v m w h;
})

start-Holds : (time : ℕ) (disk : ℕ → Bulk.Disk) → Holds time (Bulk.at_start time disk)
unfolding Bulk.at_start
start-Holds time disk = record { stamped = (tt, tt); reached = omega arith; serves = tt }

-- In every order of events, and of the reads of the thread of get_preview among the assignments of the
-- event loop: a request for the preview is answered with bytes, if with any, that were published under
-- the version that the gateway had when it was made, or under a later one; and so is the version that
-- the answer names.
pub steps-Serves :
    (time : ℕ) (disk : ℕ → Bulk.Disk) (ms later : List Bulk.Move) (accepts : Bool)
    → Serves
        (Bulk.steps ms (Bulk.at_start time disk)).preview.version
        (Bulk.steps later
          (Bulk.step (Bulk.asks accepts) (Bulk.steps ms (Bulk.at_start time disk)))).reader
unfolding Bulk.step
steps-Serves time disk ms later accepts =
    let w = Bulk.steps ms (Bulk.at_start time disk) in
    let h = steps-Holds time ms (Bulk.at_start time disk) (start-Holds time disk) in
    let asked : Holds w.preview.version (record w { reader = Bulk.at_raw accepts }) = record {
      stamped = h.stamped;
      reached = omega arith;
      serves = tt;
    } in
    (steps-Holds w.preview.version later (record w { reader = Bulk.at_raw accepts }) asked).serves
