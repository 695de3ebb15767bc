-- ===== src/Timer/Examples.antt =====
-- The theorem of the program timer at concrete polls.
use lcnc_suite.Base.{◌≡◌, refl, ℕ, ◌-◌, ◌/◌, Bool, true, false, some, List, [], ◌∷◌, arith}
use lcnc_suite.Policy.{Interp}
use lcnc_suite.Timer.{Millis, Poll, at_start, update_program_timer, elapsed_at}
use lcnc_suite.Timer.Clock.{IsClock, slip, begins, IsBelow, after_polls, InOrder, last_of}
use lcnc_suite.Timer.Elapsed.{update_program_timer_lem}

abbrev poll_at : ℕ → Interp → Bool → Poll
poll_at t i b = record { now = t; interp_state = some i; paused = b }

-- A program that runs for two seconds, and is then paused.
abbrev polls : List Poll
polls = poll_at 1000000 Interp.waiting false ∷ poll_at 3000000 Interp.waiting true ∷ []

-- An exact arithmetic, for times that are counted in microseconds
abbrev exact : Millis
exact a b = (b - a) / 1000

exact-IsClock : IsClock exact 10000000
exact-IsClock = record {
  starts = λ t. omega arith;
  rises = λ t a b h k. omega arith;
  parts = λ t q now h k near. omega arith;
}

update_program_timer_lem_example :
    let s = after_polls exact polls at_start in
    let p = poll_at 9000000 Interp.waiting false in
    (begins p s ≡ true → (update_program_timer exact p s).0 ≡ some 0)
    × (begins p s ≡ false
        → IsBelow
            (slip p s)
            (elapsed_at exact (last_of 0 polls) s)
            (update_program_timer exact p s).0)
unfolding InOrder last_of
update_program_timer_lem_example =
    update_program_timer_lem exact 10000000 exact-IsClock polls
      (poll_at 9000000 Interp.waiting false)
      (omega arith, omega arith, (omega arith, omega arith, tt)) (omega arith) (omega arith)

-- A run whose first poll finds it paused: the pause is counted.
pause_is_counted :
    (update_program_timer exact
      (poll_at 9000000 Interp.waiting true)
      (update_program_timer exact (poll_at 1000000 Interp.waiting true) at_start).1).0
    ≡ some 8000
unfolding update_program_timer at_start
pause_is_counted = refl
