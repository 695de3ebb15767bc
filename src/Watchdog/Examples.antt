-- ===== src/Watchdog/Examples.antt =====
-- The theorems of the watchdog at a concrete run.
use lcnc_suite.Base.{◌≡◌, refl, ℕ, ◌≤◌, true, false, none, some, List, [], ◌∷◌, is_some, arith}
use lcnc_suite.Watchdog.Loop.{Settings, Watchdog, refresh, gateway_fresh}
use lcnc_suite.Watchdog.Events.{
  Fields, Line, blank, message, new_client, received, round, Tick, rounds, at_start,
}
use lcnc_suite.Watchdog.Safe.{is_safe, rounds_safe, refresh_fresh, refresh_silent}
use lcnc_suite.Watchdog.Buffer.{Text, reads}
use lcnc_suite.Watchdog.Pulse.{falls, levels, rounds_trips, round_ends_pulse}

-- Milliseconds.
abbrev cfg : Settings
cfg = record { timeout = 5000; period = 33; pulse = 100 }

abbrev nothing : Fields
nothing = record {
  heartbeat = none;
  connected = none;
  tool_changed = none;
  compensation_enable = none;
  compensation_method = none;
  trip_reset = false;
}

abbrev hello : Line
hello = message (record nothing { heartbeat = some true; connected = some true })

abbrev reset : Line
reset = message (record nothing { trip_reset = true })

abbrev joining : Tick
joining = record {
  now = 10;
  later = 20;
  hb_ok = true;
  events = new_client ∷ received (hello ∷ []) ∷ [];
}

abbrev resetting : Tick
resetting = record {
  now = 30;
  later = 40;
  hb_ok = false;
  events = received (blank ∷ reset ∷ []) ∷ [];
}

abbrev quiet : Tick
quiet = record { now = 150; later = 160; hb_ok = true; events = [] }

abbrev session : List Tick
session = joining ∷ resetting ∷ []

abbrev reached : Watchdog
reached = rounds cfg session (at_start 0)

refresh_silent_example :
    let s = rounds cfg (quiet ∷ []) reached in
    ((refresh cfg 5021 s).pins.connected ≡ false) × ((refresh cfg 5021 s).pins.heartbeat ≡ false)
unfolding rounds
refresh_silent_example =
    refresh_silent cfg session (quiet ∷ []) 0 20 5021 refl (refl, tt) (omega arith)

rounds_safe_example : is_safe (rounds cfg session (at_start 0)) ≡ true
rounds_safe_example = rounds_safe cfg session 0

refresh_fresh_example : (refresh cfg 50 reached).pins.connected ≡ gateway_fresh cfg 50 reached
refresh_fresh_example = refresh_fresh cfg session 0 50

rounds_trips_example : (rounds cfg session (at_start 0)).pins.trip_count ≡ falls (levels session)
rounds_trips_example = rounds_trips cfg session 0

round_ends_pulse_example :
    (reached.pins.trip_reset_out ≡ is_some reached.reset_pulse_off_at)
    × ((off : ℕ)
        → reached.reset_pulse_off_at ≡ some off
        → off ≤ 160
        → (round cfg 150 160 true [] reached).pins.trip_reset_out ≡ false)
round_ends_pulse_example = round_ends_pulse cfg session 0 quiet refl

-- The reset pulse of the session is running, so that the theorem above speaks of one.
reached_pulsing : reached.reset_pulse_off_at ≡ some 140
unfolding rounds
reached_pulsing = refl

-- "a", newline, "b" and "c", newline, "d" in three reads
abbrev pieces : List Text
pieces = (97 ∷ []) ∷ (10 ∷ 98 ∷ []) ∷ (99 ∷ 10 ∷ 100 ∷ []) ∷ []

pieces_cut : reads pieces [] ≡ ((97 ∷ []) ∷ (98 ∷ 99 ∷ []) ∷ [], 100 ∷ [])
unfolding reads
pieces_cut = refl
