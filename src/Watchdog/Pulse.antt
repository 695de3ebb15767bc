-- ===== src/Watchdog/Pulse.antt =====
-- The pulse on `trip-reset-out`, and the count of trips.
use lcnc_suite.Base.{
  ◌≡◌, refl, ◌∙◌, ap, ℕ, ◌+◌, ◌≤◌, Bool, true, false, not, Option, none, some, List, [], ◌∷◌, arith,
  if◌then◌else◌, is_some,
}
use lcnc_suite.Watchdog.Induction.{on_events_keep}
use lcnc_suite.Watchdog.Loop.{
  Settings, Watchdog, gateway_fresh, keep_alive, let_go, refresh, watch_edge, end_pulse, drop_pins,
  accept, lose_client, is_falling,
}
use lcnc_suite.Watchdog.Events.{
  Fields, on_heartbeat, on_connected, on_pins, on_method, on_trip_reset, on_message, Event,
  on_events, round, Tick, rounds, at_start,
}

-- How often a sequence of levels goes from high to low
unfoldable pub falls : List Bool → ℕ
falls [] = 0
falls (true ∷ []) = 0
falls (true ∷ true ∷ bs) = falls (true ∷ bs)
falls (true ∷ false ∷ bs) = 1 + falls (false ∷ bs)
falls (false ∷ bs) = falls bs

abbrev since : Option Bool → List Bool → List Bool
since none bs = bs
since (some b) bs = b ∷ bs

falls-since :
    (level : Option Bool) (b : Bool) (bs : List Bool)
    → falls (since level (b ∷ bs)) ≡ (if is_falling level b then 1 else 0) + falls (b ∷ bs)
unfolding falls
falls-since none b bs = omega arith
falls-since (some true) true bs = omega arith
falls-since (some true) false bs = omega arith
falls-since (some false) b bs = omega arith

falls-alone : (level : Option Bool) → falls (since level []) ≡ 0
unfolding falls
falls-alone none = refl
falls-alone (some true) = refl
falls-alone (some false) = refl

abbrev pub levels : List Tick → List Bool
levels [] = []
levels (k ∷ ks) = k.hb_ok ∷ levels ks

-- What the counter of trips depends on.
abbrev meter : Watchdog → ℕ × Option Bool
meter s = (s.pins.trip_count, s.last_hb_ok)

meter-on_message :
    (cfg : Settings) (now : ℕ) (m : Fields) (s t : Watchdog)
    → on_message cfg now m s ≡ some t
    → meter t ≡ meter s
unfolding on_message on_heartbeat on_connected on_pins on_method on_trip_reset
meter-on_message cfg now m s t e = ground arith

meter-on_events :
    (cfg : Settings) (now : ℕ) (es : List Event) (s : Watchdog)
    → meter (on_events cfg now es s) ≡ meter s
meter-on_events cfg now es s =
    on_events_keep (λ t. meter t ≡ meter s) cfg (λ now t h. unfold accept drop_pins in h)
      (λ now t h. unfold lose_client drop_pins in h)
      (λ now m t u h e. meter-on_message cfg now m t u e ∙ h) now es s refl

-- The part of a round before its events.
head_meter :
    (cfg : Settings) (k : Tick) (s : Watchdog)
    → meter (end_pulse k.later (watch_edge k.hb_ok (refresh cfg k.now s)))
      ≡ ((if is_falling s.last_hb_ok k.hb_ok then 1 else 0) + s.pins.trip_count, some k.hb_ok)
unfolding end_pulse watch_edge refresh keep_alive let_go gateway_fresh
head_meter cfg k s = ground arith

meter-round :
    (cfg : Settings) (k : Tick) (s : Watchdog)
    → meter (round cfg k.now k.later k.hb_ok k.events s)
      ≡ ((if is_falling s.last_hb_ok k.hb_ok then 1 else 0) + s.pins.trip_count, some k.hb_ok)
unfolding round
meter-round cfg k s = meter-on_events cfg k.later k.events _ ∙ head_meter cfg k s

rounds_meter :
    (cfg : Settings) (ks : List Tick) (s : Watchdog)
    → (rounds cfg ks s).pins.trip_count ≡ falls (since s.last_hb_ok (levels ks)) + s.pins.trip_count
unfolding rounds
rounds_meter cfg [] s = omega (arith, falls-alone s.last_hb_ok)
rounds_meter cfg (k ∷ ks) s =
    let t = round cfg k.now k.later k.hb_ok k.events s in
    let ih = rounds_meter cfg ks t in
    let one = meter-round cfg k s in
    omega (
      arith,
      rw (ap (λ p. p.1) one) at ih,
      ap (λ p. p.0) one,
      falls-since s.last_hb_ok k.hb_ok (levels ks),
    )

-- The counter of trips is the number of times that `hb-ok-in` has gone from high to low since the loop
-- began, whatever the clients do; the first level that is read is no trip.
pub rounds_trips :
    (cfg : Settings) (ks : List Tick) (now : ℕ)
    → (rounds cfg ks (at_start now)).pins.trip_count ≡ falls (levels ks)
rounds_trips cfg ks now = omega (arith, rounds_meter cfg ks (at_start now))

-- The pin of the reset is up exactly while the end of its pulse is set.
unfoldable pub is_timed : Watchdog → Bool
is_timed s =
    if s.pins.trip_reset_out
    then is_some s.reset_pulse_off_at
    else not (is_some s.reset_pulse_off_at)

head_timed :
    (cfg : Settings) (k : Tick) (s : Watchdog)
    → is_timed s ≡ true
    → is_timed (end_pulse k.later (watch_edge k.hb_ok (refresh cfg k.now s))) ≡ true
unfolding is_timed end_pulse watch_edge refresh keep_alive let_go gateway_fresh
head_timed cfg k s h = ground arith

on_message_timed :
    (cfg : Settings) (now : ℕ) (m : Fields) (s t : Watchdog)
    → is_timed s ≡ true
    → on_message cfg now m s ≡ some t
    → is_timed t ≡ true
unfolding is_timed on_message on_heartbeat on_connected on_pins on_method on_trip_reset
on_message_timed cfg now m s t h e = ground arith

round_timed :
    (cfg : Settings) (k : Tick) (s : Watchdog)
    → is_timed s ≡ true
    → is_timed (round cfg k.now k.later k.hb_ok k.events s) ≡ true
unfolding round
round_timed cfg k s h =
    on_events_keep (λ t. is_timed t ≡ true) cfg (λ now t g. unfold accept drop_pins is_timed in g)
      (λ now t g. unfold lose_client drop_pins is_timed in g) (on_message_timed cfg) k.later
      k.events _ (head_timed cfg k s h)

rounds_timed :
    (cfg : Settings) (ks : List Tick) (s : Watchdog)
    → is_timed s ≡ true
    → is_timed (rounds cfg ks s) ≡ true
unfolding rounds
rounds_timed cfg [] s h = h
rounds_timed cfg (k ∷ ks) s h =
    rounds_timed cfg ks (round cfg k.now k.later k.hb_ok k.events s) (round_timed cfg k s h)

over_ends :
    (cfg : Settings) (k : Tick) (s : Watchdog)
    → is_timed s ≡ true
    → (off : ℕ) → s.reset_pulse_off_at ≡ some off
    → off ≤ k.later
    → (end_pulse k.later (watch_edge k.hb_ok (refresh cfg k.now s))).pins.trip_reset_out ≡ false
unfolding is_timed end_pulse watch_edge refresh keep_alive let_go gateway_fresh
over_ends cfg k s h off e late = ground arith

exactly : (s : Watchdog) → is_timed s ≡ true → s.pins.trip_reset_out ≡ is_some s.reset_pulse_off_at
unfolding is_timed
exactly s h = ground arith

-- A reset pulse ends: from the start of the loop, and after any rounds, the pin `trip-reset-out` is
-- up exactly while the end of a pulse is set, and a round that reports no event and whose `select`
-- returns at that end or later brings the pin down.
pub round_ends_pulse :
    (cfg : Settings) (ks : List Tick) (start : ℕ) (k : Tick)
    → k.events ≡ []
    → let s = rounds cfg ks (at_start start) in
      (s.pins.trip_reset_out ≡ is_some s.reset_pulse_off_at)
      × ((off : ℕ)
          → s.reset_pulse_off_at ≡ some off
          → off ≤ k.later
          → (round cfg k.now k.later k.hb_ok k.events s).pins.trip_reset_out ≡ false)
unfolding round on_events
round_ends_pulse cfg ks start k quiet =
    let s = rounds cfg ks (at_start start) in
    let timed = rounds_timed cfg ks (at_start start) (unfold is_timed in refl) in
    (exactly s timed, λ off e late. rw quiet (over_ends cfg k s timed off e late))
