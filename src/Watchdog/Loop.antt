-- ===== src/Watchdog/Loop.antt =====
-- The pins and the state of lcnc-gateway/hal_watchdog.py, and what one pass of its loop does beside the
-- client's data. Times are counts of one clock; a difference of two times is compared by a sum.
use lcnc_suite.Base.{
  ℕ, suc, ◌+◌, leb, Bool, true, false, not, ◌&&◌, Option, none, some, if◌then◌else◌, is_some,
}
use lcnc_suite.Base.Int.{ℤ}

-- The pins of the component `webui-safety`.
pub record Pins : Type 0 where
  pub connected : Bool
  pub heartbeat : Bool
  pub tool_changed : Bool
  pub compensation_enable : Bool
  pub compensation_method : ℤ
  pub trip_reset_out : Bool
  pub trip_count : ℕ

-- `timeout`, `period` and `pulse` are _GATEWAY_FRESH_TIMEOUT_S, _LOCAL_HEARTBEAT_PERIOD_S and
-- _RESET_PULSE_S.
pub record Settings : Type 0 where
  pub timeout : ℕ
  pub period : ℕ
  pub pulse : ℕ

pub record Watchdog : Type 0 where
  pub pins : Pins
  pub has_client : Bool
  pub requested_connected : Bool
  pub fresh_at : Option ℕ
  pub stale_reported : Bool
  pub local_heartbeat : Bool
  pub local_heartbeat_at : ℕ
  pub reset_pulse_off_at : Option ℕ
  pub last_hb_ok : Option Bool

-- `fresh_at is not None and now - fresh_at <= timeout`
abbrev pub within : Settings → ℕ → Option ℕ → Bool
within cfg now none = false
within cfg now (some t) = leb now (t + cfg.timeout)

unfoldable pub gateway_fresh : Settings → ℕ → Watchdog → Bool
gateway_fresh cfg now s = s.has_client && (s.requested_connected && within cfg now s.fresh_at)

-- The fresh branch: the pin is up, and the heartbeat turns over once a period.
unfoldable pub keep_alive : Settings → ℕ → Watchdog → Watchdog
keep_alive cfg now s =
    let beat = not s.local_heartbeat in
    if leb (s.local_heartbeat_at + cfg.period) now
    then record s {
      stale_reported = false;
      pins = record (s.pins) { connected = true; heartbeat = beat };
      local_heartbeat = beat;
      local_heartbeat_at = now;
    }
    else record s { stale_reported = false; pins = record (s.pins) { connected = true } }

abbrev pub is_waiting : Watchdog → Bool
is_waiting s = s.requested_connected && (s.has_client && is_some s.fresh_at)

-- The other branch: the heartbeat stops, and the pin falls if it was asked for.
unfoldable pub let_go : ℕ → Watchdog → Watchdog
let_go now s =
    let waiting = is_waiting s in
    record s {
      stale_reported = if waiting then true else s.stale_reported;
      pins = record (s.pins) {
        heartbeat = false;
        connected = if waiting then false else s.pins.connected;
      };
      local_heartbeat = false;
      local_heartbeat_at = now;
    }

-- The head of the loop.
unfoldable pub refresh : Settings → ℕ → Watchdog → Watchdog
unfolding gateway_fresh keep_alive let_go
refresh cfg now s = if gateway_fresh cfg now s then keep_alive cfg now s else let_go now s

abbrev pub is_falling : Option Bool → Bool → Bool
is_falling (some true) false = true
is_falling _ _ = false

-- The count of falling edges of `hb-ok-in`, which diagnoses and does not protect.
unfoldable pub watch_edge : Bool → Watchdog → Watchdog
watch_edge hb_ok s =
    let count =
      if is_falling s.last_hb_ok hb_ok then suc s.pins.trip_count else s.pins.trip_count in
    record s { pins = record (s.pins) { trip_count = count }; last_hb_ok = some hb_ok }

abbrev pub is_over : ℕ → Option ℕ → Bool
is_over now none = false
is_over now (some t) = leb t now

unfoldable pub end_pulse : ℕ → Watchdog → Watchdog
end_pulse now s =
    if is_over now s.reset_pulse_off_at
    then record s { pins = record (s.pins) { trip_reset_out = false }; reset_pulse_off_at = none }
    else s

-- What the accepting of a client, the end of a connection and a socket error share.
unfoldable pub drop_pins : ℕ → Watchdog → Watchdog
drop_pins now s = record s {
  pins = record (s.pins) {
    connected = false;
    heartbeat = false;
    tool_changed = false;
    compensation_enable = false;
  };
  requested_connected = false;
  stale_reported = false;
  fresh_at = none;
  local_heartbeat = false;
  local_heartbeat_at = now;
}

unfoldable pub accept : ℕ → Watchdog → Watchdog
unfolding drop_pins
accept now s = let t = drop_pins now s in record t { has_client = true }

-- The end of the connection, and any exception while its data is read.
unfoldable pub lose_client : ℕ → Watchdog → Watchdog
unfolding drop_pins
lose_client now s = let t = drop_pins now s in record t { has_client = false }
