-- ===== src/Camera/Life.antt =====
-- What holds of the camera of lcnc-gateway/camera_broker.py in every order of events.
use lcnc_suite.Base.{
  ◌≡◌, refl, ℕ, ◌+◌, leb, Bool, true, false, not, ◌&&◌, ◌||◌, List, [], ◌∷◌, arith,
}
use lcnc_suite.Base.Int.{ℤ, pos, negsuc}
use lcnc_suite.Camera.{
  Producer, no_task, Holder, free, opening, ending, releasing, Broker, at_start, Event, subscribe,
  unsubscribe, grace_fires, grace_stop, aclose, opened, subscribe_fails, opens_late, task_ends,
  release_ends, producer_dies, is_alive, is_none, is_positive, on_subscribe, on_opened,
  on_subscribe_fails, on_unsubscribe, on_grace_stop, on_aclose, on_task_ends, step, steps,
}

abbrev pub is_at_most : ℕ → ℤ → Bool
is_at_most m (pos n) = leb n m
is_at_most m (negsuc n) = true

-- What the holder of the lock knows, after some failures.
abbrev knows : ℕ → Holder → ℤ → Producer → Bool
knows f free n q = is_at_most f n || not (is_none q)
knows f opening n q = not (is_alive q) && (is_at_most (f + 1) n || not (is_none q))
knows f ending n q = not (is_positive n)
knows f releasing n q = not (is_positive n) && is_none q

abbrev is_sound : Broker → Bool
is_sound s =
    knows s.failures s.holder s.subscribers s.producer
    && (not (is_alive s.producer) || s.device_open)

step_sound : (e : Event) (s : Broker) → is_sound s ≡ true → is_sound (step e s) ≡ true
unfolding step on_subscribe on_opened on_subscribe_fails on_unsubscribe on_grace_stop on_aclose
    on_task_ends
step_sound subscribe s h = ground arith
step_sound (opened true) s h = ground arith
step_sound (opened false) s h = ground arith
step_sound subscribe_fails s h = ground arith
step_sound opens_late s h = ground arith
step_sound unsubscribe s h = ground arith
step_sound grace_fires s h = ground arith
step_sound grace_stop s h = ground arith
step_sound aclose s h = ground arith
step_sound task_ends s h = ground arith
step_sound release_ends s h = ground arith
step_sound producer_dies s h = ground arith

steps_sound : (es : List Event) (s : Broker) → is_sound s ≡ true → is_sound (steps es s) ≡ true
unfolding steps
steps_sound [] s h = h
steps_sound (e ∷ es) s h = steps_sound es (step e s) (step_sound e s h)

-- What the camera promises.
abbrev pub IsServed : Broker → Type 0
IsServed s =
    (s.holder ≡ free → is_none s.producer ≡ true → is_at_most s.failures s.subscribers ≡ true)
    × (is_alive s.producer ≡ true → s.device_open ≡ true)
    × (s.holder ≡ opening → is_alive s.producer ≡ false)
    × (s.holder ≡ releasing → s.producer ≡ no_task)

sound_serves : (s : Broker) → is_sound s ≡ true → IsServed s
sound_serves s h =
    ((λ e f. ground arith), (λ e. ground arith), (λ e. ground arith), (λ e. ground arith))

-- In every order of events from the start of the gateway: with the lock free, a camera that has no task
-- counts no more viewers than calls of subscribe have ended by an exception, so none if none has; a task that runs has an open device; the device is opened only where no task runs, and
-- released only where there is no task.
pub steps-IsServed : (es : List Event) → IsServed (steps es at_start)
unfolding at_start
steps-IsServed es = sound_serves (steps es at_start) (steps_sound es at_start refl)
