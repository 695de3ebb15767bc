-- ===== src/Link/Stopped.antt =====
-- An emergency stop of the gateway, through the line to the watchdog process, to the pins.
use native.Mathlib.Decide.{dec_lt}
use lcnc_suite.Base.{
  ◌≡◌, refl, ℕ, suc, ◌+◌, ◌≤◌, ◌<◌, ltb, true, false, Option, none, some, List, [], ◌∷◌, ◌++◌,
  arith, All, length,
}
use lcnc_suite.Heartbeat.{
  Heart, Event, beats, grace_ticks_on, joins, leaves, stops, resets, send, toggle, beat, grace_tick,
  grace_turn, grace_pass, join,
}
use lcnc_suite.Heartbeat
use lcnc_suite.Heartbeat.Hold.{is_sound, step_sound}
use lcnc_suite.Watchdog.Loop.{Settings}
use lcnc_suite.Watchdog.Events.{
  Line, Tick, new_client, received, closed, on_event, on_events, round,
}
use lcnc_suite.Watchdog.Events
use lcnc_suite.Link
use lcnc_suite.Link.{take, drop, line_of, other_line}
use lcnc_suite.Link.Off.{IsOff, accept-IsOff, last-Quiet}
use lcnc_suite.Link.Pending.{
  Guarded, read_round-Guarded, reconnect_round-IsOff, new_message-first, Pending, StaysMove,
  steps-Pending,
}

-- What holds of the gateway and the watchdog at any time
record Sane (l : Link.Link) : Type 0 where
  guarded : Guarded l.dog
  sound : is_sound l.heart ≡ true

module _ (cfg : Settings) where
  send-Sane :
      (k : Tick) (o : Link.Outcome) (m : Line) (l : Link.Link)
      → Sane l
      → Sane (Link.watchdog_send cfg k o m l)
  unfolding Link.watchdog_send Link.reconnect
  send-Sane k Link.sent m l h = record { guarded = h.guarded; sound = h.sound }
  send-Sane k Link.partly_sent m l h = record { guarded = h.guarded; sound = h.sound }
  send-Sane k Link.timed_out m l h = h
  send-Sane k Link.failed m l h = record {
    guarded = λ _. reconnect_round-IsOff cfg k l.dog;
    sound = h.sound;
  }

  new-Sane :
      (k : Tick) (o : Link.Outcome) (m : Option Heartbeat.Message) (l : Link.Link)
      → Sane l
      → Sane (Link.send_new cfg k o m l)
  unfolding Link.send_new
  new-Sane k o none l h = h
  new-Sane k o (some m) l h = send-Sane k o (line_of m) l h

  step-Sane : (m : Link.Move) (l : Link.Link) → Sane l → Sane (Link.step cfg m l)
  unfolding Link.step Link.gateway Link.watch
  step-Sane (Link.turns k o e) l h =
      new-Sane k o _ (record l { heart = Heartbeat.step e l.heart })
        (record { guarded = h.guarded; sound = step_sound e l.heart h.sound })
  step-Sane (Link.tells k o m) l h = send-Sane k o (other_line m) l h
  step-Sane (Link.watches k count) l h = record {
    guarded = read_round-Guarded cfg k l.dog h.guarded (take count l.wire);
    sound = h.sound;
  }

  steps-Sane : (ms : List Link.Move) (l : Link.Link) → Sane l → Sane (Link.steps cfg ms l)
  unfolding Link.steps
  steps-Sane [] l h = h
  steps-Sane (m ∷ ms) l h = steps-Sane ms (Link.step cfg m l) (step-Sane m l h)

  start-Sane : (time : ℕ) → Sane (Link.at_start time)
  unfolding Link.at_start Heartbeat.at_start
  start-Sane time = record { guarded = λ _. accept-IsOff time (Events.at_start time); sound = refl }

  -- The stop is held, and its message is on the wire.
  abbrev stop_sent : Link.Link → Link.Link
  stop_sent l = record l {
    heart = record (l.heart) {
      estop_hold = true;
      sent = (record { heartbeat = none; connected = some false }) ∷ l.heart.sent;
    };
    wire = l.wire ++ line_of (record { heartbeat = none; connected = some false }) ∷ [];
    torn = false;
  }

  stop-sent :
      (k : Tick) (l : Link.Link)
      → l.torn ≡ false
      → 0 < l.heart.clients
      → Link.gateway cfg k Link.sent stops l ≡ stop_sent l
  unfolding Link.gateway Link.send_new Link.watchdog_send Heartbeat.step Heartbeat.send
  stop-sent k l whole there =
      let here : ltb 0 l.heart.clients ≡ true = ground arith in
      rw here (rw (new_message-first _ l.heart.sent, Link.send_new) (rw whole refl))

  stop-Pending :
      (l : Link.Link)
      → Sane l
      → 0 < l.heart.clients
      → Pending (l.read + suc (length l.wire)) (stop_sent l)
  stop-Pending l h there = record {
    n = suc (length l.wire);
    quiet_wire = last-Quiet l.wire _ refl;
    off = λ z. absurd (omega (arith, z));
    guarded = h.guarded;
    counted = λ _. refl;
    held = refl;
    sound = ground arith;
  }

  Pending-IsOff : (target : ℕ) (l : Link.Link) → Pending target l → target ≤ l.read → IsOff l.dog
  Pending-IsOff target l p h = elim (dec_lt 0 p.n) [
    | yes more ↦ absurd (omega (arith, p.counted more))
    | no done ↦ p.off (omega arith)
  ]

  -- An emergency stop reaches the pins: after any moves of the gateway and the watchdog from their
  -- start, let a client stop the machine and the message be sent in full, after no part of a line. When
  -- the watchdog has taken as many lines more as were on the wire, with the stop's, the pin `connected` and the pin of the heartbeat are low and the connection is not
  -- asked for, whatever else is sent, lost or read until a client leaves or resets the stop.
  pub stop-IsOff :
      (time : ℕ) (before later : List Link.Move) (k : Tick)
      → (Link.steps cfg before (Link.at_start time)).torn ≡ false
      → 0 < (Link.steps cfg before (Link.at_start time)).heart.clients
      → All StaysMove later
      → (Link.steps cfg before (Link.at_start time)).read
          + suc (length (Link.steps cfg before (Link.at_start time)).wire)
        ≤ (Link.steps cfg later
            (Link.gateway cfg k Link.sent stops (Link.steps cfg before (Link.at_start time)))).read
      → IsOff
          (Link.steps cfg later
            (Link.gateway cfg k Link.sent stops (Link.steps cfg before (Link.at_start time)))).dog
  stop-IsOff time before later k whole there stays read =
      let l = Link.steps cfg before (Link.at_start time) in
      let h = steps-Sane before (Link.at_start time) (start-Sane time) in
      let p : Pending (l.read + suc (length l.wire)) (Link.gateway cfg k Link.sent stops l) =
        rw (stop-sent k l whole there) (stop-Pending l h there) in
      Pending-IsOff (l.read + suc (length l.wire)) _
        (steps-Pending cfg _ later (Link.gateway cfg k Link.sent stops l) stays p) read
