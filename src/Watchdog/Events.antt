-- ===== src/Watchdog/Events.antt =====
-- The data of the client of lcnc-gateway/hal_watchdog.py, and the rounds of its loop.
use lcnc_suite.Base.{ℕ, ◌+◌, Bool, true, false, Option, none, some, List, [], ◌∷◌, if◌then◌else◌}
use lcnc_suite.Base.Int.{ℤ, pos}
use lcnc_suite.Watchdog.Loop.{
  Settings, Watchdog, refresh, watch_edge, end_pulse, accept, lose_client,
}

-- A decoded line. `none` is a missing key; the method is `some none` where `int(...)` raises.
pub record Fields : Type 0 where
  pub heartbeat : Option Bool
  pub connected : Option Bool
  pub tool_changed : Option Bool
  pub compensation_enable : Option Bool
  pub compensation_method : Option (Option ℤ)
  pub trip_reset : Bool

-- `other` is JSON that is no object: `in` or `.get` raises on it.
pub data Line : Type 0 where
  blank malformed other : Line
  message : Fields → Line

unfoldable pub on_heartbeat : ℕ → Option Bool → Watchdog → Watchdog
on_heartbeat now none s = s
on_heartbeat now (some _) s = record s { fresh_at = some now; stale_reported = false }

unfoldable pub on_connected : ℕ → Option Bool → Watchdog → Watchdog
on_connected now none s = s
on_connected now (some true) s = record s {
  requested_connected = true;
  fresh_at = some now;
  stale_reported = false;
}
on_connected now (some false) s = record s {
  requested_connected = false;
  pins = record (s.pins) { connected = false; heartbeat = false };
  fresh_at = none;
  stale_reported = false;
  local_heartbeat = false;
  local_heartbeat_at = now;
}

abbrev pub or_old : Option Bool → Bool → Bool
or_old none b = b
or_old (some b) _ = b

unfoldable pub on_pins : Fields → Watchdog → Watchdog
on_pins m s = record s {
  pins = record (s.pins) {
    tool_changed = or_old m.tool_changed s.pins.tool_changed;
    compensation_enable = or_old m.compensation_enable s.pins.compensation_enable;
  };
}

unfoldable pub on_trip_reset : Settings → ℕ → Bool → Watchdog → Watchdog
on_trip_reset cfg now false s = s
on_trip_reset cfg now true s = record s {
  pins = record (s.pins) { trip_reset_out = true };
  reset_pulse_off_at = some (now + cfg.pulse);
}

-- `none` is an exception, which ends the connection.
unfoldable pub on_method : Option (Option ℤ) → Watchdog → Option Watchdog
on_method none s = some s
on_method (some none) s = none
on_method (some (some z)) s = some (record s { pins = record (s.pins) { compensation_method = z } })

unfoldable pub on_message : Settings → ℕ → Fields → Watchdog → Option Watchdog
unfolding on_heartbeat on_connected on_pins on_method on_trip_reset
on_message cfg now m s =
    elim (on_method m.compensation_method
      (on_pins m (on_connected now m.connected (on_heartbeat now m.heartbeat s)))) [
        | none ↦ none
        | some t ↦ some (on_trip_reset cfg now m.trip_reset t)
      ]

unfoldable pub on_line : Settings → ℕ → Line → Watchdog → Option Watchdog
unfolding on_message
on_line cfg now blank s = some s
on_line cfg now malformed s = some s
on_line cfg now other s = none
on_line cfg now (message m) s = on_message cfg now m s

-- The lines that one read completes, in order; an exception drops the rest and the client.
unfoldable pub on_lines : Settings → ℕ → List Line → Watchdog → Watchdog
unfolding on_line lose_client
on_lines cfg now [] s = s
on_lines cfg now (l ∷ ls) s = elim (on_line cfg now l s) [
  | none ↦ lose_client now s
  | some t ↦ on_lines cfg now ls t
]

-- What `select` reports: a new connection, data, the end of the data, or an error.
pub data Event : Type 0 where
  new_client : Event
  received : List Line → Event
  closed : Event
  broken : Event

unfoldable pub on_event : Settings → ℕ → Event → Watchdog → Watchdog
unfolding accept on_lines lose_client
on_event cfg now new_client s = accept now s
on_event cfg now (received ls) s = if s.has_client then on_lines cfg now ls s else s
on_event cfg now closed s = if s.has_client then lose_client now s else s
on_event cfg now broken s = if s.has_client then lose_client now s else s

unfoldable pub on_events : Settings → ℕ → List Event → Watchdog → Watchdog
unfolding on_event
on_events cfg now [] s = s
on_events cfg now (e ∷ es) s = on_events cfg now es (on_event cfg now e s)

-- One round of the loop: `now` at its head, `later` after `select`.
unfoldable pub round : Settings → ℕ → ℕ → Bool → List Event → Watchdog → Watchdog
unfolding refresh watch_edge end_pulse on_events
round cfg now later hb_ok es s =
    on_events cfg later es (end_pulse later (watch_edge hb_ok (refresh cfg now s)))

-- What one round of the loop meets.
pub record Tick : Type 0 where
  pub now : ℕ
  pub later : ℕ
  pub hb_ok : Bool
  pub events : List Event

unfoldable pub rounds : Settings → List Tick → Watchdog → Watchdog
unfolding round
rounds cfg [] s = s
rounds cfg (k ∷ ks) s = rounds cfg ks (round cfg k.now k.later k.hb_ok k.events s)

-- The state before the loop. The pins are set LOW there, and no pulse is running.
abbrev pub at_start : ℕ → Watchdog
at_start now = record {
  pins = record {
    connected = false;
    heartbeat = false;
    tool_changed = false;
    compensation_enable = false;
    compensation_method = pos 0;
    trip_reset_out = false;
    trip_count = 0;
  };
  has_client = false;
  requested_connected = false;
  fresh_at = none;
  stale_reported = false;
  local_heartbeat = false;
  local_heartbeat_at = now;
  reset_pulse_off_at = none;
  last_hb_ok = none;
}
