-- ===== src/Gateway/RunFromLine/Idle.antt =====
-- The wait for the interpreter of a run from line in lcnc-gateway/gateway.py.
use mathlib.Core.Path.{subst}
use lcnc_suite.Base.{
  ◌≡◌, refl, sym, ap, ℕ, ◌+◌, ltb, leb, Bool, true, false, ◌&&◌, ◌||◌, Option, none, some, List, [],
  ◌∷◌, arith, if-cases,
}
use lcnc_suite.Value.{Res, ok, raise}
use lcnc_suite.Policy.{is_interp_idle}
use lcnc_suite.Gateway.Machine.{Stat, is_on}
use lcnc_suite.Gateway.World.{World}
use lcnc_suite.Gateway.Guards.{poll}
use lcnc_suite.Gateway.RunFromLine.{Run, Step, done}
use lcnc_suite.Gateway.RunFromLine.Wait.{
  Seen, ends, goes_on, judge, follow, round, wait_rounds, wait_from, wait_interp_idle,
}

-- The machine is on, and its interpreter idle.
abbrev pub is_ready : Option Stat → Bool
is_ready none = false
is_ready (some st) = is_on st.task_state && is_interp_idle st.interp_state

-- The wait is over, and it succeeds only on a view of such a machine.
abbrev pub IsOver : Step Bool × Run → Type 0
IsOver r = (b : Bool) × (r.0 ≡ done b) × (b ≡ true → is_ready r.1.world.stat ≡ true)

-- One of the times is at the deadline or after it.
unfoldable pub passes : ℕ → List ℕ → Bool
passes deadline [] = false
passes deadline (t ∷ ts) = leb deadline t || passes deadline ts

judge-ends :
    (t0 now : ℕ) (started : Bool) (r : Res (Unit {0})) (st : Option Stat)
    → judge t0 now started r st ≡ ends true
    → is_ready st ≡ true
unfolding judge
judge-ends t0 now started (raise e) st h = absurd (ground (arith, h))
judge-ends t0 now started (ok u) none h = absurd (ground (arith, h))
judge-ends t0 now started (ok u) (some st) h = ground arith

follow-IsOver :
    (s : Run) (v : Seen) (again : Bool → Run → Step Bool × Run)
    → (v ≡ ends true → is_ready s.world.stat ≡ true)
    → ((b : Bool) (u : Run) → IsOver (again b u))
    → IsOver (follow s v again)
unfolding follow
follow-IsOver s (ends b) again h k = (b, refl, λ e. h (ap ends e))
follow-IsOver s (goes_on b) again h k = k b s

round-IsOver :
    (t0 now : ℕ) (later : List ℕ) (started : Bool) (s : Run) (r : Res (Unit {0}) × World)
    (again : Bool → Run → Step Bool × Run)
    → ((b : Bool) (u : Run) → IsOver (again b u))
    → IsOver (round t0 now later started s r again)
unfolding round
round-IsOver t0 now later started s (r, w) again k =
    follow-IsOver (record s { world = w; moments = later }) _ again
      (judge-ends t0 now started r w.stat) k

wait_rounds-IsOver :
    (t0 deadline : ℕ) (ts : List ℕ) (started : Bool) (s : Run)
    → passes deadline ts ≡ true
    → IsOver (wait_rounds t0 deadline ts started s)
unfolding wait_rounds passes
wait_rounds-IsOver t0 deadline [] started s h = absurd (ground (arith, h))
wait_rounds-IsOver t0 deadline (now ∷ later) started s h =
    if-cases IsOver (ltb now deadline) _ _
      (λ before.
        round-IsOver t0 now later started s (poll s.world) _
          (λ b u. wait_rounds-IsOver t0 deadline later b u (still before)))
      (λ _. (false, refl, λ e. absurd (ground (arith, e))))
  where
    still : ltb now deadline ≡ true → passes deadline later ≡ true
    still before = ground (arith, h)

-- The wait for the interpreter comes to an end once the clock, first read at its start, shows a time at
-- its deadline or after it, and it then reports success only if the last poll saw a machine that is on
-- with an idle interpreter.
pub wait_ends :
    (timeout t0 : ℕ) (later : List ℕ) (s : Run)
    → s.moments ≡ t0 ∷ later
    → passes (t0 + timeout) later ≡ true
    → IsOver (wait_interp_idle timeout s)
unfolding wait_interp_idle wait_from
wait_ends timeout t0 later s e h =
    subst (λ ts. IsOver (wait_from timeout s ts)) (sym e)
      (wait_rounds-IsOver t0 (t0 + timeout) later false s h)
