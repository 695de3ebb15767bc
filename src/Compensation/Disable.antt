-- ===== src/Compensation/Disable.antt =====
-- Disabling the compensation of subroutines/surfacemap/compensation.py while it runs.
use lcnc_suite.Base.{
  ◌≡◌, refl, ap, ◌∙◌, Bool, true, false, List, [], ◌∷◌, ◌++◌, All, arith, if◌then◌else◌,
}
use lcnc_suite.Base.Int.{pos}
use lcnc_suite.Compensation.{
  idle, running, reset, Tick, Compensation, Arithmetic, is_reset, is_drained, release, leave_reset,
  on_running, on_reset, in_state, step, unless_raised, ticks,
}

-- A tick at which compensation is not asked for, and the offset has not drained.
abbrev pub IsDraining : Tick → Type 0
IsDraining t = (t.enable_in ≡ false) × (is_drained t ≡ false)

-- The state after a number of ticks without an exception: idle, the offset not enabled.
abbrev pub IsOff : Bool → Bool × Compensation → Type 0
IsOff clear r =
    (r.0 ≡ true)
    × (r.1.state ≡ idle)
    × (r.1.enable_out ≡ false)
    × (r.1.counts ≡ pos 0)
    × (r.1.clear ≡ clear)

abbrev pub is_empty : List Tick → Bool
is_empty [] = true
is_empty (_ ∷ _) = false

-- A reset that has begun.
abbrev IsResetting : Compensation → Type 0
IsResetting s = (s.state ≡ reset) × (s.prev_state ≡ reset) × (s.counts ≡ pos 0)

drained_step :
    (py : Arithmetic) (t : Tick) (s : Compensation)
    → s.state ≡ reset
    → is_drained t ≡ true
    → step py t s ≡ (true, record (release s) { enable_out = false; state = idle })
unfolding step in_state on_reset leave_reset
drained_step py t s e d = rw (e, d) refl

draining_step :
    (py : Arithmetic) (t : Tick) (s : Compensation)
    → s.state ≡ reset
    → IsDraining t
    → step py t s ≡ (true, release s)
unfolding step in_state on_reset leave_reset
draining_step py t s e (n, d) = rw (e, d, n) refl

release-IsResetting :
    (s : Compensation)
    → s.state ≡ reset
    → (s.prev_state ≡ reset → s.counts ≡ pos 0)
    → IsResetting (release s)
unfolding release
release-IsResetting s e h = ground arith

release-clear :
    (s : Compensation) → (release s).clear ≡ (if is_reset s.prev_state then false else true)
unfolding release
release-clear s = ground arith

resetting_ends :
    (py : Arithmetic) (ts : List Tick) (t : Tick) (s : Compensation)
    → IsResetting s
    → All IsDraining ts
    → is_drained t ≡ true
    → IsOff false (ticks py (ts ++ t ∷ []) s)
unfolding ticks unless_raised
resetting_ends py [] t s (e, p, c) tt d =
    let r = release-IsResetting s e (λ _. c) in
    let l = release-clear s in
    rw (drained_step py t s e d)
      (refl, refl, refl, r.2, l ∙ ap (λ q. if is_reset q then false else true) p)
resetting_ends py (u ∷ ts) t s (e, p, c) (h, hs) d =
    rw (draining_step py u s e h)
      (resetting_ends py ts t (release s) (release-IsResetting s e (λ _. c)) hs d)

-- The first tick after the disabling leaves the running state with all pins as they are.
disabling_step :
    (py : Arithmetic) (t : Tick) (s : Compensation)
    → s.state ≡ running
    → t.enable_in ≡ false
    → step py t s ≡ (true, record s { prev_state = running; state = reset })
unfolding step in_state on_running
disabling_step py t s e n = rw (e, n) refl

-- From the first tick of the reset.
reset_ends :
    (py : Arithmetic) (ts : List Tick) (t : Tick) (s : Compensation)
    → s.state ≡ reset
    → s.prev_state ≡ running
    → All IsDraining ts
    → is_drained t ≡ true
    → IsOff (is_empty ts) (ticks py (ts ++ t ∷ []) s)
unfolding ticks unless_raised
reset_ends py [] t s e p tt d =
    let r = release-IsResetting s e (λ q. absurd (ground (arith, p, q))) in
    rw (drained_step py t s e d)
      (refl, refl, refl, r.2, release-clear s ∙ ap (λ q. if is_reset q then false else true) p)
reset_ends py (u ∷ us) t s e p (h, hs) d = rw (draining_step py u s e h) (
    resetting_ends py us t (release s)
      (release-IsResetting s e (λ q. absurd (ground (arith, p, q)))) hs d)

-- From the running state, when compensation is no longer asked for, the offset takes any number of
-- ticks to drain, and drains in the end, the loop ends in the idle state without an exception: the
-- counts are zero and the offset is not enabled. The pin that clears it is then low, unless the offset
-- was drained at once: in that case the pin stays high.
pub disabling_ends :
    (py : Arithmetic) (off : Tick) (ts : List Tick) (t : Tick) (s : Compensation)
    → s.state ≡ running
    → off.enable_in ≡ false
    → All IsDraining ts
    → is_drained t ≡ true
    → IsOff (is_empty ts) (ticks py (off ∷ ts ++ t ∷ []) s)
unfolding ticks unless_raised
disabling_ends py off ts t s e n hs d =
    rw (disabling_step py off s e n) (reset_ends py ts t _ refl refl hs d)
