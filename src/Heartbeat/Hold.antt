-- ===== src/Heartbeat/Hold.antt =====
-- The messages to the watchdog process of lcnc-gateway/gateway.py while an emergency stop is held.
use lcnc_suite.Base.{
  ◌≡◌, refl, ◌∙◌, ℕ, ◌+◌, ltb, Bool, true, false, not, ◌||◌, List, [], ◌∷◌, All, truthy, arith,
  if◌then◌else◌,
}
use lcnc_suite.Heartbeat.{
  Message, Heart, at_start, send, toggle, beat, drop, grace_pass, grace_turn, grace_tick, join,
  start_grace, leave, Event, beats, grace_ticks_on, joins, leaves, stops, resets, step, steps,
}

-- How many messages ask for the connection.
unfoldable pub asks : List Message → ℕ
asks [] = 0
asks (m ∷ ms) = (if truthy m.connected then 1 else 0) + asks ms

-- An emergency stop is held for a client that is there.
abbrev pub is_sound : Heart → Bool
is_sound s = not s.estop_hold || ltb 0 s.clients

pub step_sound : (e : Event) (s : Heart) → is_sound s ≡ true → is_sound (step e s) ≡ true
unfolding step beat toggle send grace_tick grace_turn grace_pass drop join leave start_grace
step_sound beats s h = ground arith
step_sound grace_ticks_on s h = ground arith
step_sound joins s h = ground arith
step_sound leaves s h = ground arith
step_sound stops s h = ground arith
step_sound resets s h = ground arith

steps_sound : (es : List Event) (s : Heart) → is_sound s ≡ true → is_sound (steps es s) ≡ true
unfolding steps
steps_sound [] s h = h
steps_sound (e ∷ es) s h = steps_sound es (step e s) (step_sound e s h)

-- Nobody leaves, and nobody resets the emergency stop.
abbrev pub Stays : Event → Type 0
Stays leaves = false ≡ true
Stays resets = false ≡ true
Stays _ = Unit

-- The stop is still held, and no more messages ask for the connection.
abbrev pub IsHeld : Heart → Heart → Type 0
IsHeld s t = (t.estop_hold ≡ true) × (asks t.sent ≡ asks s.sent)

pub step-IsHeld :
    (e : Event) (s : Heart)
    → Stays e
    → is_sound s ≡ true
    → s.estop_hold ≡ true
    → IsHeld s (step e s)
unfolding step beat toggle send grace_tick grace_turn grace_pass drop join asks
step-IsHeld beats s stays h held = ground arith
step-IsHeld grace_ticks_on s stays h held = ground arith
step-IsHeld joins s stays h held = ground arith
step-IsHeld leaves s stays h held = absurd (ground (arith, stays))
step-IsHeld stops s stays h held = ground arith
step-IsHeld resets s stays h held = absurd (ground (arith, stays))

steps-IsHeld :
    (es : List Event) (s : Heart)
    → All Stays es
    → is_sound s ≡ true
    → s.estop_hold ≡ true
    → IsHeld s (steps es s)
unfolding steps
steps-IsHeld [] s hs h held = (held, refl)
steps-IsHeld (e ∷ es) s (stays, hs) h held =
    let (still, same) = step-IsHeld e s stays h held in
    let (held_on, none_new) = steps-IsHeld es (step e s) hs (step_sound e s h) still in
    (held_on, none_new ∙ same)

-- After any events from the start of the gateway that leave an emergency stop held, the stop stays held
-- and no message asks the watchdog for the connection, in whatever order beats, ticks of the grace
-- period, connections and further stops follow, until a client leaves or resets the stop.
pub at_start-IsHeld :
    (es later : List Event)
    → (steps es at_start).estop_hold ≡ true
    → All Stays later
    → IsHeld (steps es at_start) (steps later (steps es at_start))
unfolding at_start
at_start-IsHeld es later held hs =
    steps-IsHeld later (steps es at_start) hs (steps_sound es at_start refl) held
