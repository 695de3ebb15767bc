-- ===== src/Camera.antt =====
-- The life of the camera in lcnc-gateway/camera_broker.py: its viewers, the task that takes the frames,
-- the device, and the lock, as steps between the points where a coroutine waits. Frames are left out, and
-- teardowns are not cancelled and their release does not raise.
use lcnc_suite.Base.{
  ℕ, suc, ◌+◌, ◌-◌, ltb, Bool, true, false, not, ◌&&◌, List, [], ◌∷◌, if◌then◌else◌,
}
use lcnc_suite.Base.Int.{ℤ, pos, negsuc}
mod Life
mod Examples

-- `_task`: `None`, running, or ended by an exception.
pub data Producer : Type 0 where
  no_task alive dead : Producer

-- Who holds the lock: nobody, a `subscribe` that opens the device, or a `_teardown` that waits for the
-- task or for the release of the device.
pub data Holder : Type 0 where
  free opening ending releasing : Holder

-- `failures` counts the calls of `subscribe` that ended by an exception; the code does not keep it.
-- `graces` are the `_grace_stop` tasks that have not got the lock yet.
pub record Broker : Type 0 where
  pub subscribers : ℤ
  pub producer : Producer
  pub stop_handle : Bool
  pub graces : ℕ
  pub holder : Holder
  pub device_open : Bool
  pub failures : ℕ

unfoldable pub at_start : Broker
at_start = record {
  subscribers = pos 0;
  producer = no_task;
  stop_handle = false;
  graces = 0;
  holder = free;
  device_open = false;
  failures = 0;
}

pub data Event : Type 0 where
  subscribe unsubscribe grace_fires grace_stop aclose : Event
  opened : Bool → Event  -- `_init` gives its answer
  subscribe_fails : Event  -- `_init` raises, or its `subscribe` is cancelled
  opens_late : Event  -- the thread of a cancelled `subscribe` has opened the device
  task_ends release_ends producer_dies : Event

abbrev pub is_alive : Producer → Bool
is_alive alive = true
is_alive _ = false

abbrev pub is_none : Producer → Bool
is_none no_task = true
is_none _ = false

abbrev pub is_free : Holder → Bool
is_free free = true
is_free _ = false

abbrev pub increment : ℤ → ℤ
increment (pos n) = pos (suc n)
increment (negsuc n) = if ltb 0 n then negsuc (n - 1) else pos 0

abbrev pub decrement : ℤ → ℤ
decrement (pos n) = if ltb 0 n then pos (n - 1) else negsuc 0
decrement (negsuc n) = negsuc (suc n)

abbrev pub is_positive : ℤ → Bool
is_positive (pos n) = ltb 0 n
is_positive (negsuc n) = false

-- `max(0, n)`
abbrev at_least_zero : ℤ → ℤ
at_least_zero (pos n) = pos n
at_least_zero (negsuc n) = pos 0

-- `subscribe`, with the lock, until it returns or opens the device
unfoldable pub on_subscribe : Broker → Broker
on_subscribe s = record s {
  stop_handle = false;
  subscribers = increment s.subscribers;
  holder = if is_alive s.producer then free else opening;
}

unfoldable pub on_opened : Bool → Broker → Broker
on_opened true s = record s { producer = alive; device_open = true; holder = free }
on_opened false s = record s { subscribers = decrement s.subscribers; holder = free }

-- The viewer stays counted.
unfoldable pub on_subscribe_fails : Broker → Broker
on_subscribe_fails s = record s { holder = free; failures = s.failures + 1 }

unfoldable pub on_unsubscribe : Broker → Broker
on_unsubscribe s =
    let left = at_least_zero (decrement s.subscribers) in
    record s {
      subscribers = left;
      stop_handle =
          if not (is_positive left) && (not (is_none s.producer) && not s.stop_handle)
          then true
          else s.stop_handle;
    }

-- `_grace_stop`, with the lock
unfoldable pub on_grace_stop : Broker → Broker
on_grace_stop s = record s {
  graces = s.graces - 1;
  stop_handle = false;
  holder = if is_positive s.subscribers then free else ending;
}

unfoldable pub on_aclose : Broker → Broker
on_aclose s = record s { stop_handle = false; subscribers = pos 0; holder = ending }

-- `await self._task` in `_teardown`: a task that ended by an exception raises it again.
unfoldable pub on_task_ends : Broker → Broker
on_task_ends s = after s.producer
  where
    after : Producer → Broker
    after dead = record s { holder = free }
    after _ = record s { producer = no_task; holder = releasing }

abbrev when : Bool → Broker → Broker → Broker
when b t s = if b then t else s

abbrev holds : Holder → Holder → Bool
holds opening opening = true
holds ending ending = true
holds releasing releasing = true
holds _ _ = false

-- An event, which does nothing where it cannot come; what needs the lock waits until it is free.
unfoldable pub step : Event → Broker → Broker
unfolding on_subscribe on_opened on_subscribe_fails on_unsubscribe on_grace_stop on_aclose
    on_task_ends
step subscribe s = when (is_free s.holder) (on_subscribe s) s
step (opened available) s = when (holds opening s.holder) (on_opened available s) s
step subscribe_fails s = when (holds opening s.holder) (on_subscribe_fails s) s
step opens_late s = when (ltb 0 s.failures) (record s { device_open = true }) s
step unsubscribe s = on_unsubscribe s
step grace_fires s = when s.stop_handle (record s { graces = s.graces + 1 }) s
step grace_stop s = when (is_free s.holder && ltb 0 s.graces) (on_grace_stop s) s
step aclose s = when (is_free s.holder) (on_aclose s) s
step task_ends s = when (holds ending s.holder) (on_task_ends s) s
step release_ends s =
    when (holds releasing s.holder) (record s { device_open = false; holder = free }) s
step producer_dies s = when (is_alive s.producer) (record s { producer = dead }) s

unfoldable pub steps : List Event → Broker → Broker
unfolding step
steps [] s = s
steps (e ∷ es) s = steps es (step e s)
