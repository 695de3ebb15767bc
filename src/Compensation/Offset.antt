-- ===== src/Compensation/Offset.antt =====
-- The counts of subroutines/surfacemap/compensation.py while its offset is not enabled.
use lcnc_suite.Base.{◌≡◌, refl, Bool, true, false, List, [], ◌∷◌, arith, if-cases}
use lcnc_suite.Base.Int.{pos}
use lcnc_suite.Compensation.{
  State, starting, idle, loadmap, running, reset, stop, Tick, Compensation, Arithmetic, at_start,
  is_drained, release, leave_reset, load_map, teardown, on_start, on_idle, on_loadmap, on_running,
  on_reset, in_state, step, unless_raised, ticks, run,
}

-- Nothing is offset while the pin is down, nor in a reset that has begun.
abbrev IsSafe : Compensation → Type 0
IsSafe s =
    (s.enable_out ≡ false → s.counts ≡ pos 0)
    × (s.state ≡ reset → s.prev_state ≡ reset → s.counts ≡ pos 0)

release-counts :
    (s : Compensation) → (s.prev_state ≡ reset → s.counts ≡ pos 0) → (release s).counts ≡ pos 0
unfolding release
release-counts s h = ground arith

leave_reset-IsSafe : (t : Tick) (s : Compensation) → s.counts ≡ pos 0 → IsSafe (leave_reset t s)
unfolding leave_reset
leave_reset-IsSafe t s h =
    if-cases IsSafe (is_drained t) _ _ (λ _. ((λ _. h), (λ _ _. h)))
      (λ _.
        if-cases IsSafe t.enable_in _ _ (λ _. ((λ _. h), (λ _ _. h))) (λ _. ((λ _. h), (λ _ _. h))))

on_reset-IsSafe :
    (t : Tick) (s : Compensation) → s.state ≡ reset → IsSafe s → IsSafe (on_reset t s).1
unfolding on_reset
on_reset-IsSafe t s h safe = leave_reset-IsSafe t (release s) (release-counts s (safe.1 h))

on_start-IsSafe : (t : Tick) (s : Compensation) → IsSafe (on_start t s).1
unfolding on_start
on_start-IsSafe t s = ((λ _. refl), (λ _ _. refl))

on_running-IsSafe :
    (py : Arithmetic) (t : Tick) (s : Compensation) → IsSafe s → IsSafe (on_running py t s).1
unfolding on_running
on_running-IsSafe py t s safe = ground arith

on_idle-IsSafe : (t : Tick) (s : Compensation) → IsSafe s → IsSafe (on_idle t s).1
unfolding on_idle load_map
on_idle-IsSafe t s safe = ground arith

on_loadmap-IsSafe : (t : Tick) (s : Compensation) → IsSafe s → IsSafe (on_loadmap t s).1
unfolding on_loadmap load_map
on_loadmap-IsSafe t s safe = ground arith

in_state-IsSafe :
    (py : Arithmetic) (t : Tick) (s : Compensation) (q : State)
    → s.state ≡ q
    → IsSafe s
    → IsSafe (in_state py t s q).1
unfolding in_state
in_state-IsSafe py t s starting e safe = on_start-IsSafe t s
in_state-IsSafe py t s idle e safe = on_idle-IsSafe t s safe
in_state-IsSafe py t s loadmap e safe = on_loadmap-IsSafe t s safe
in_state-IsSafe py t s running e safe = on_running-IsSafe py t s safe
in_state-IsSafe py t s reset e safe = on_reset-IsSafe t s e safe
in_state-IsSafe py t s stop e safe = safe

step-IsSafe : (py : Arithmetic) (t : Tick) (s : Compensation) → IsSafe s → IsSafe (step py t s).1
unfolding step
step-IsSafe py t s safe = in_state-IsSafe py t s s.state refl safe

ticks-IsSafe :
    (py : Arithmetic) (ts : List Tick) (s : Compensation) → IsSafe s → IsSafe (ticks py ts s).1
unfolding ticks unless_raised
ticks-IsSafe py [] s safe = safe
ticks-IsSafe py (t ∷ ts) s safe =
    after (step py t s) (step-IsSafe py t s safe) (λ u. ticks-IsSafe py ts u)
  where
    after :
        (r : Bool × Compensation)
        → IsSafe r.1
        → ((u : Compensation) → IsSafe u → IsSafe (ticks py ts u).1)
        → IsSafe (unless_raised r (λ u. ticks py ts u)).1
    after (false, u) h ih = h
    after (true, u) h ih = ih u h

-- After any sequence of ticks of a new component, an exception in the last one or not, the counts are
-- zero while the offset is not enabled; and once the loop has ended, by a signal or an exception, the
-- counts are zero, and the offset is neither enabled nor being cleared.
pub offset_needs_enable :
    (py : Arithmetic) (ts : List Tick)
    → ((ticks py ts at_start).1.enable_out ≡ false → (ticks py ts at_start).1.counts ≡ pos 0)
      × ((run py ts).counts ≡ pos 0)
      × ((run py ts).enable_out ≡ false)
      × ((run py ts).clear ≡ false)
unfolding run teardown
offset_needs_enable py ts =
    ((ticks-IsSafe py ts at_start ((λ _. refl), (λ _ _. refl))).0, refl, refl, refl)
