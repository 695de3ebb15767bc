-- ===== src/Gateway/Handlers/Sequence.antt =====
-- The single flight of a run-from-line sequence.
use lcnc_suite.Base.{◌≡◌, refl, true, arith}
use lcnc_suite.Value.{ok}
use lcnc_suite.Gateway.World.{World, refused, rfl_started, Sequence, actions}
use lcnc_suite.Gateway.Guards.{poll, poll_at, reject_if_auto_running, blocked_by, unless_running}
use lcnc_suite.Gateway.Frame.{after}
use lcnc_suite.Gateway.Program.{start_sequence, rfl_report}

started-active :
    (q : Sequence) (w : World)
    → (start_sequence q w).0 ≡ ok rfl_started
    → (after (start_sequence q) w).rfl_active ≡ true
unfolding start_sequence rfl_report unless_running reject_if_auto_running poll poll_at blocked_by
    actions
started-active q w h = ground arith

active-refused :
    (q : Sequence) (w : World)
    → w.rfl_active ≡ true
    → start_sequence q w ≡ (ok (refused "Run-from-line sequence already in progress"), w)
unfolding start_sequence actions
active-refused q w h = rw h refl

-- A second sequence cannot start while the first is active: once `start_sequence` has started one,
-- another call is refused and changes nothing.
pub start_sequence_once :
    (q q' : Sequence) (w : World)
    → (start_sequence q w).0 ≡ ok rfl_started
    → let w' = after (start_sequence q) w in
      start_sequence q' w' ≡ (ok (refused "Run-from-line sequence already in progress"), w')
start_sequence_once q q' w h = active-refused q' (after (start_sequence q) w) (started-active q w h)
