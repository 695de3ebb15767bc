-- ===== src/Watchdog/Safe.antt =====
-- The fail-safe of the watchdog: the pins of the heartbeat stand only for a fresh gateway.
use lcnc_suite.Base.{
  ◌≡◌, refl, ◌∙◌, ◌<◌, ℕ, ◌+◌, Bool, true, false, not, ◌&&◌, some, List, [], ◌∷◌, arith, is_some,
  All, ◌||◌,
}
use lcnc_suite.Watchdog.Induction.{on_events_keep}
use lcnc_suite.Watchdog.Loop.{
  Settings, Watchdog, gateway_fresh, keep_alive, let_go, refresh, watch_edge, end_pulse, drop_pins,
  accept, lose_client,
}
use lcnc_suite.Watchdog.Events.{
  Fields, on_heartbeat, on_connected, on_pins, on_method, on_trip_reset, on_message, Event,
  on_events, round, Tick, rounds, at_start,
}

-- A raised pin belongs to a client that asked for it and that has been heard.
unfoldable pub is_safe : Watchdog → Bool
is_safe s =
    (not s.pins.heartbeat && not s.pins.connected)
    || (s.has_client && (s.requested_connected && (is_some s.fresh_at && s.pins.connected)))

refresh_safe :
    (cfg : Settings) (now : ℕ) (s : Watchdog)
    → is_safe s ≡ true
    → is_safe (refresh cfg now s) ≡ true
unfolding is_safe refresh gateway_fresh keep_alive let_go
refresh_safe cfg now s h = ground arith

watch_edge_safe : (b : Bool) (s : Watchdog) → is_safe s ≡ true → is_safe (watch_edge b s) ≡ true
unfolding is_safe watch_edge
watch_edge_safe b s h = h

end_pulse_safe : (now : ℕ) (s : Watchdog) → is_safe s ≡ true → is_safe (end_pulse now s) ≡ true
unfolding is_safe end_pulse
end_pulse_safe now s h = ground arith

lose_client_safe : (now : ℕ) (s : Watchdog) → is_safe (lose_client now s) ≡ true
unfolding is_safe lose_client drop_pins
lose_client_safe now s = refl

accept_safe : (now : ℕ) (s : Watchdog) → is_safe (accept now s) ≡ true
unfolding is_safe accept drop_pins
accept_safe now s = refl

on_message_safe :
    (cfg : Settings) (now : ℕ) (m : Fields) (s t : Watchdog)
    → is_safe s ≡ true
    → on_message cfg now m s ≡ some t
    → is_safe t ≡ true
unfolding is_safe on_message on_heartbeat on_connected on_pins on_method on_trip_reset
on_message_safe cfg now m s t h e = ground arith

on_events_safe :
    (cfg : Settings) (now : ℕ) (es : List Event) (s : Watchdog)
    → is_safe s ≡ true
    → is_safe (on_events cfg now es s) ≡ true
on_events_safe cfg now es s h =
    on_events_keep (λ t. is_safe t ≡ true) cfg (λ now t _. accept_safe now t)
      (λ now t _. lose_client_safe now t) (on_message_safe cfg) now es s h

rounds_keep :
    (cfg : Settings) (ks : List Tick) (s : Watchdog)
    → is_safe s ≡ true
    → is_safe (rounds cfg ks s) ≡ true
unfolding rounds round
rounds_keep cfg [] s h = h
rounds_keep cfg (k ∷ ks) s h = rounds_keep cfg ks (round cfg k.now k.later k.hb_ok k.events s) (
    on_events_safe cfg k.later k.events _
      (end_pulse_safe k.later _ (watch_edge_safe k.hb_ok _ (refresh_safe cfg k.now s h))))

-- After any rounds of the loop from its start, whatever the clients do, the pin of the heartbeat and
-- the pin `connected` are up only for a client that is there, that asked for the connection, and
-- that has been heard; and the heartbeat never beats while `connected` is low.
pub rounds_safe :
    (cfg : Settings) (ks : List Tick) (now : ℕ) → is_safe (rounds cfg ks (at_start now)) ≡ true
rounds_safe cfg ks now = rounds_keep cfg ks (at_start now) (unfold is_safe in refl)

fresh_at_safe :
    (cfg : Settings) (now : ℕ) (s : Watchdog)
    → is_safe s ≡ true
    → (refresh cfg now s).pins.connected ≡ gateway_fresh cfg now s
unfolding is_safe refresh gateway_fresh keep_alive let_go
fresh_at_safe cfg now s h = ground arith

-- The head of the loop, reached from the start by any rounds, puts `connected` to whether the
-- gateway is fresh then: present, asking, and heard no longer ago than the timeout.
pub refresh_fresh :
    (cfg : Settings) (ks : List Tick) (start now : ℕ)
    → let s = rounds cfg ks (at_start start) in
      (refresh cfg now s).pins.connected ≡ gateway_fresh cfg now s
refresh_fresh cfg ks start now =
    fresh_at_safe cfg now (rounds cfg ks (at_start start)) (rounds_safe cfg ks start)

-- No event is reported in any of the rounds.
abbrev IsSilent : List Tick → Type 0
IsSilent ks = All (λ (k : Tick). k.events ≡ []) ks

quiet_fresh :
    (cfg : Settings) (k : Tick) (s : Watchdog)
    → k.events ≡ []
    → (round cfg k.now k.later k.hb_ok k.events s).fresh_at ≡ s.fresh_at
unfolding round on_events end_pulse watch_edge refresh keep_alive let_go gateway_fresh
quiet_fresh cfg k s h = rw h (ground arith)

silent_keep :
    (cfg : Settings) (ks : List Tick) (s : Watchdog)
    → IsSilent ks
    → (rounds cfg ks s).fresh_at ≡ s.fresh_at
unfolding rounds
silent_keep cfg [] s h = refl
silent_keep cfg (k ∷ ks) s (h, hs) =
    silent_keep cfg ks (round cfg k.now k.later k.hb_ok k.events s) hs ∙ quiet_fresh cfg k s h

late_down :
    (cfg : Settings) (now heard : ℕ) (s : Watchdog)
    → is_safe s ≡ true
    → s.fresh_at ≡ some heard
    → heard + cfg.timeout < now
    → ((refresh cfg now s).pins.connected ≡ false) × ((refresh cfg now s).pins.heartbeat ≡ false)
unfolding is_safe refresh gateway_fresh keep_alive let_go
late_down cfg now heard s h f late = ground arith

-- A gateway that falls silent loses the pins: whatever state the rounds of the loop had reached, if
-- it was last heard at `heard` and the next rounds report no event, the first head of the loop that
-- comes later than the timeout puts the pin of the heartbeat and `connected` low.
pub refresh_silent :
    (cfg : Settings) (ks silent : List Tick) (start heard now : ℕ)
    → (rounds cfg ks (at_start start)).fresh_at ≡ some heard
    → IsSilent silent
    → heard + cfg.timeout < now
    → let s = rounds cfg silent (rounds cfg ks (at_start start)) in
      ((refresh cfg now s).pins.connected ≡ false) × ((refresh cfg now s).pins.heartbeat ≡ false)
refresh_silent cfg ks silent start heard now f quiet late =
    late_down cfg now heard (rounds cfg silent (rounds cfg ks (at_start start)))
      (rounds_keep cfg silent (rounds cfg ks (at_start start)) (rounds_safe cfg ks start))
      (silent_keep cfg silent (rounds cfg ks (at_start start)) quiet ∙ f) late
