-- ===== src/Camera/Examples.antt =====
-- The theorem of the camera at a concrete order of events.
use lcnc_suite.Base.{◌≡◌, refl, true, List, [], ◌∷◌}
use lcnc_suite.Camera.{
  Event, subscribe, unsubscribe, grace_fires, grace_stop, opened, subscribe_fails, no_task,
  task_ends, producer_dies, dead, free, Broker, at_start, steps,
}
use lcnc_suite.Base.Int.{pos}
use lcnc_suite.Camera.Life.{IsServed, steps-IsServed}

-- A viewer comes within the grace of the one that left.
abbrev handover : List Event
handover = subscribe ∷ opened true ∷ unsubscribe ∷ grace_fires ∷ subscribe ∷ grace_stop ∷ []

steps-IsServed_example : IsServed (steps handover at_start)
steps-IsServed_example = steps-IsServed handover

-- The device raises: its viewer stays counted.
abbrev raised : Broker
raised = steps (subscribe ∷ subscribe_fails ∷ []) at_start

viewer_is_kept : (raised.subscribers ≡ pos 1) × (raised.producer ≡ no_task) × (raised.holder ≡ free)
unfolding steps at_start
viewer_is_kept = (refl, refl, refl)

-- The task fails, and the last viewer leaves: the teardown raises, and the device stays open.
abbrev failed : Broker
failed =
    steps
      (subscribe
        ∷ opened true
        ∷ producer_dies
        ∷ unsubscribe
        ∷ grace_fires
        ∷ grace_stop
        ∷ task_ends
        ∷ [])
      at_start

device_is_kept : (failed.producer ≡ dead) × (failed.device_open ≡ true) × (failed.holder ≡ free)
unfolding steps at_start
device_is_kept = (refl, refl, refl)
