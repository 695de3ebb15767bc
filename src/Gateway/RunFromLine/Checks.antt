-- ===== src/Gateway/RunFromLine/Checks.antt =====
-- The checks of a run from line of lcnc-gateway/gateway.py, and what may be sent when one fails.
use lcnc_suite.Base.{
  ◌≡◌, refl, sym, ap, ◌∙◌, ◌==◌, Bool, true, false, not, ◌&&◌, ◌||◌, Option, none, some, List, [],
  ◌∷◌, ◌++◌, arith, if◌then◌else◌,
}
use lcnc_suite.Base.Int.{ℤ, pos, eqb_ℤ, ltb_ℤ}
use lcnc_suite.Value.{truth}
use lcnc_suite.Gateway.Machine.{MdiLine, Entry, Call}
use lcnc_suite.Gateway.World.{Phase, Sequence}
use lcnc_suite.Gateway.RunFromLine.{
  Readings, Arithmetic, Run, Step, done, returned, raised, waiting, Task, stop, bind_step, ◌>>=◌,
  report, require,
}
use lcnc_suite.Gateway.RunFromLine.Sequence.{
  is_at_zero, entry_reached, measure, go_to_safe_z, position, has_target, position_first, body,
  rfl_sequence,
}
use lcnc_suite.Gateway.RunFromLine.Sends.{
  moves, pushed, pushed-append, IsPrefix-append, After, Sends, append_assoc, if-Sends, pure-Sends,
}
use lcnc_suite.Gateway.RunFromLine.Plan.{
  plan, measure_plan, turn_plan, entry_plan, measure-Sends, safe_z-Sends, position_first-Sends,
}
use lcnc_suite.Gateway.RunFromLine.Order.{Part, Part-After, Ordered, finish-Ordered, plan-Ordered}

abbrev is_done : {A : Type 0} → Step A → Bool
is_done (done a) = true
is_done _ = false

-- It never ends with a value.
record Stops {A : Type 0} (m : Task A) : Type 0 where
  stops : (s : Run) → is_done (m s).0 ≡ false

-- However it ends, a first part of the list was sent.
record SendsPart {A : Type 0} (plan : List Call) (m : Task A) : Type 0 where
  part : (s : Run) → Part plan (moves s) (m s)

module _ {A B : Type 0} where
  bind_step-stops :
      (r : Step A × Run) (f : A → Task B) → is_done r.0 ≡ false → is_done (bind_step r f).0 ≡ false
  unfolding bind_step
  bind_step-stops (done a, s) f h = absurd (ground (arith, h))
  bind_step-stops (returned, s) f h = refl
  bind_step-stops (raised x, s) f h = refl
  bind_step-stops (waiting, s) f h = refl

  first-Stops : (m : Task A) (f : A → Task B) → Stops m → Stops (m >>= f)
  unfolding ◌>>=◌
  first-Stops m f h = record { stops = λ s. bind_step-stops (m s) f (h.stops s) }

  bind_step-later :
      (r : Step A × Run) (f : A → Task B)
      → ((a : A) (s : Run) → is_done (f a s).0 ≡ false)
      → is_done (bind_step r f).0 ≡ false
  unfolding bind_step
  bind_step-later (done a, s) f h = h a s
  bind_step-later (returned, s) f h = refl
  bind_step-later (raised x, s) f h = refl
  bind_step-later (waiting, s) f h = refl

  later-Stops : (m : Task A) (f : A → Task B) → ((a : A) → Stops (f a)) → Stops (m >>= f)
  unfolding ◌>>=◌
  later-Stops m f h = record { stops = λ s. bind_step-later (m s) f (λ a u. (h a).stops u) }

  cut_step :
      (p old : List Call) (r : Step A × Run) (f : A → Task B)
      → is_done r.0 ≡ false
      → Part p old r
      → Part p old (bind_step r f)
  unfolding bind_step
  cut_step p old (done a, s) f h k = absurd (ground (arith, h))
  cut_step p old (returned, s) f h k = k
  cut_step p old (raised x, s) f h k = k
  cut_step p old (waiting, s) f h k = k

  -- What follows a part that never ends with a value sends nothing.
  cut_part :
      (p : List Call) (m : Task A) (f : A → Task B) → Stops m → Sends p m → SendsPart p (m >>= f)
  unfolding ◌>>=◌
  cut_part p m f h k = record {
    part = λ s. cut_step p (moves s) (m s) f (h.stops s) (Part-After p (moves s) (m s) (k.sends s));
  }

  next_step :
      (p q old : List Call) (r : Step A × Run) (f : A → Task B)
      → After p old r
      → ((a : A) → SendsPart q (f a))
      → Part (p ++ q) old (bind_step r f)
  unfolding bind_step
  next_step p q old (done a, s) f (p', e, h) k = further ((k a).part s)
    where
      further : Part q (moves s) (f a s) → Part (p ++ q) old (f a s)
      further (q', e', (rest, h')) = (
        p ++ q',
        e' ∙ ap (pushed q') (e ∙ ap (λ l. pushed l old) h) ∙ sym (pushed-append p q' old),
        (rest, append_assoc p q' rest ∙ ap (λ l. p ++ l) h'),
      )
  next_step p q old (returned, s) f (p', e, h) k = (p', e, IsPrefix-append p' p q h)
  next_step p q old (raised x, s) f (p', e, h) k = (p', e, IsPrefix-append p' p q h)
  next_step p q old (waiting, s) f (p', e, h) k = (p', e, IsPrefix-append p' p q h)

  next_part :
      (p q : List Call) (m : Task A) (f : A → Task B)
      → Sends p m
      → ((a : A) → SendsPart q (f a))
      → SendsPart (p ++ q) (m >>= f)
  unfolding ◌>>=◌
  next_part p q m f h k = record { part = λ s. next_step p q (moves s) (m s) f (h.sends s) k }

longer_part : {A : Type 0} (p q : List Call) (m : Task A) → SendsPart p m → SendsPart (p ++ q) m
longer_part p q m h = record {
  part = λ s. let k = h.part s in (k.0, k.1, IsPrefix-append k.0 p q k.2);
}

stop-Stops : Stops (stop {A = Unit {0}})
unfolding stop
stop-Stops = record { stops = λ s. refl }

require-Stops : (p : Phase) → Stops (require p false)
unfolding require
require-Stops p = later-Stops (report p) (λ _. stop) (λ _. stop-Stops)

require_at : (p : Phase) (b : Bool) → b ≡ false → Stops (require p b)
require_at p true h = absurd (ground (arith, h))
require_at p false h = require-Stops p

measure-Stops :
    (r : Readings) (n : ℤ) → (r.errors_before == r.errors_after) ≡ false → Stops (measure r n)
unfolding measure
measure-Stops r n h = later-Stops _ _ (λ _. later-Stops _ _ (λ _.
    later-Stops _ _
      (λ _. later-Stops _ _ (λ _. later-Stops _ _ (λ _. first-Stops _ _ (require_at _ _ h))))))

safe_z-Stops : (r : Readings) → is_at_zero r.at_safe_z ≡ false → Stops (go_to_safe_z r)
unfolding go_to_safe_z
safe_z-Stops r h =
    later-Stops _ _ (λ _. later-Stops _ _ (λ _. later-Stops _ _ (λ _. require_at _ _ h)))

if-Stops :
    {A : Type 0} (b : Bool) (m n : Task A)
    → (b ≡ true → Stops m)
    → (b ≡ false → Stops n)
    → Stops (if b then m else n)
if-Stops true m n h k = h refl
if-Stops false m n h k = k refl

-- The plan without the start of the program.
unfoldable pub preparation : Sequence → List Call
preparation q =
    let turn =
      if truth q.spindle_dir && ltb_ℤ (pos 0) q.spindle_speed
      then turn_plan q.spindle_dir q.spindle_speed
      else [] in
    let lift = if q.safe_z then Call.mdi MdiLine.move_to_safe_z ∷ [] else [] in
    let tool = if eqb_ℤ q.pre_tool (pos 0) then [] else measure_plan q.pre_tool in
    tool ++ (lift ++ (entry_plan q.entry ++ turn))

module _ (py : Arithmetic) where
  abbrev reached : Readings → Option Entry → Bool
  reached r none = true
  reached r (some e) = entry_reached py r.in_mm e r.at_entry

  -- A check of the sequence fails on these readings: an error came during the measurement, Z is not at
  -- zero after the move to the safe height, or X or Y is not where the program expects it.
  unfoldable pub fails : Readings → Sequence → Bool
  fails r q =
      (not (eqb_ℤ q.pre_tool (pos 0)) && not (r.errors_before == r.errors_after))
      || ((q.safe_z && not (is_at_zero r.at_safe_z))
          || (has_target q.entry && not (reached r q.entry)))

  position_first-Stops :
      (r : Readings) (e : Option Entry)
      → (has_target e && not (reached r e)) ≡ true
      → Stops (position_first py r e)
  unfolding position_first position
  position_first-Stops r none h = absurd (ground (arith, h))
  position_first-Stops r (some e) h =
      if-Stops (has_target (some e)) _ _
        (λ _.
          later-Stops _ _
            (λ _. later-Stops _ _ (λ _. later-Stops _ _ (λ _. require_at _ _ (ground (arith, h))))))
        (λ k. absurd (ground (arith, h, k)))

  entry_part :
      {A : Type 0} (r : Readings) (e : Option Entry) (turn : List Call) (rest : Unit {0} → Task A)
      → (has_target e && not (reached r e)) ≡ true
      → SendsPart (entry_plan e ++ turn) (position_first py r e >>= rest)
  entry_part r e turn rest h = longer_part (entry_plan e) turn _ (
      cut_part (entry_plan e) (position_first py r e) rest (position_first-Stops r e h)
        (position_first-Sends py r e))

  -- A part with a check of its own, and what follows it.
  checked_part :
      (p later : List Call) (m : Task (Unit {0})) (rest : Unit {0} → Task (Unit {0}))
      (bad others : Bool)
      → (bad || others) ≡ true
      → Sends p m
      → (bad ≡ true → Stops m)
      → (others ≡ true → (u : Unit {0}) → SendsPart later (rest u))
      → SendsPart (p ++ later) (m >>= rest)
  checked_part p later m rest true others h sends stops k =
      longer_part p later _ (cut_part p m rest (stops refl) sends)
  checked_part p later m rest false others h sends stops k = next_part p later m rest sends (k h)

  body_part :
      (r : Readings) (q : Sequence) → fails r q ≡ true → SendsPart (preparation q) (body py r q)
  unfolding fails body preparation
  body_part r q h =
      checked_part _ _ _ _ (not none_asked && not (r.errors_before == r.errors_after)) _ h
        (if-Sends [] (measure_plan q.pre_tool) none_asked _ _ (pure-Sends tt)
          (measure-Sends r q.pre_tool))
        (λ bad.
          if-Stops none_asked _ _ (λ e. absurd (ground (arith, e, bad)))
            (λ _. measure-Stops r q.pre_tool (ground (arith, bad))))
        (λ others _.
          checked_part _ _ _ _ (q.safe_z && not (is_at_zero r.at_safe_z)) _ others
            (if-Sends _ [] q.safe_z _ _ (safe_z-Sends r) (pure-Sends tt))
            (λ bad.
              if-Stops q.safe_z _ _ (λ _. safe_z-Stops r (ground (arith, bad)))
                (λ e. absurd (ground (arith, e, bad))))
            (λ bad _. entry_part r q.entry _ _ bad))
    where
      none_asked : Bool
      none_asked = eqb_ℤ q.pre_tool (pos 0)

  preparation-Ordered :
      (r : Readings) (q : Sequence) (s : Run)
      → fails r q ≡ true
      → Ordered (preparation q) (moves s) (rfl_sequence py r q s)
  unfolding rfl_sequence
  preparation-Ordered r q s h =
      let u = record s { flag_armed = false } in
      finish-Ordered (preparation q) (moves s) (body py r q u) ((body_part r q h).part u)

  -- What may be sent: without the start of the program where a check fails.
  unfoldable pub allowed : Readings → Sequence → List Call
  allowed r q = if fails r q then preparation q else plan q

  -- However a run from line goes, the calls that it has sent to LinuxCNC, less the changes of mode, are a
  -- first part of its plan in the plan's order, and after them the clearing of the flag or nothing. The
  -- plan is: measure the tool, set its flag, move Z to the safe height, move to the entry, turn the
  -- spindle, start the program, of which a part is left out if it is not asked for; and it ends before
  -- the start of the program if an error came during the measurement, or Z is not at zero after its
  -- move, or X or Y is not where the program expects it.
  pub rfl_sequence-Ordered :
      (r : Readings) (q : Sequence) (s : Run)
      → Ordered (allowed r q) (moves s) (rfl_sequence py r q s)
  unfolding allowed
  rfl_sequence-Ordered r q s = by_check (fails r q) refl
    where
      by_check :
          (b : Bool)
          → fails r q ≡ b
          → Ordered (if b then preparation q else plan q) (moves s) (rfl_sequence py r q s)
      by_check true h = preparation-Ordered r q s h
      by_check false h = plan-Ordered py r q s
