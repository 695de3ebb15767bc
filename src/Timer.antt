-- ===== src/Timer.antt =====
-- The program timer of lcnc-gateway/status_runtime.py: update_program_timer, called once per status
-- poll. A time of the clock is a float of seconds, and stands for its multiple of 2^-1074 s.
use lcnc_suite.Base.{
  ℕ, ◌+◌, ◌-◌, Bool, true, false, not, ◌&&◌, ◌||◌, Option, none, some, List, [], ◌∷◌, if◌then◌else◌,
  is_some,
}
use lcnc_suite.Policy.{Interp, is_interp_idle}
mod Clock
mod Elapsed
mod Examples

pub record Timer : Type 0 where
  pub start_mono : Option ℕ
  pub paused_accum_ms : ℕ
  pub pause_start_mono : Option ℕ
  pub active_last : Bool
  pub paused_last : Bool

-- The timer of a gateway that has just started.
unfoldable pub at_start : Timer
at_start = record {
  start_mono = none;
  paused_accum_ms = 0;
  pause_start_mono = none;
  active_last = false;
  paused_last = false;
}

-- `int((b - a) * 1000)` in floats, for a time `b` that is not before `a`
abbrev pub Millis : Type 0
Millis = ℕ → ℕ → ℕ

-- What a poll sees.
pub record Poll : Type 0 where
  pub now : ℕ
  pub interp_state : Option Interp
  pub paused : Bool

unfoldable pub is_active : Option Interp → Bool
is_active none = false
is_active (some i) = not (is_interp_idle i)

abbrev is_interp_paused : Option Interp → Bool
is_interp_paused (some Interp.paused) = true
is_interp_paused _ = false

unfoldable pub is_paused : Poll → Bool
unfolding is_active
is_paused p = is_active p.interp_state && (p.paused || is_interp_paused p.interp_state)

-- A pause, if there is one, is added to the time of the pauses.
unfoldable pub commit : Millis → ℕ → Option ℕ → Timer → Timer
commit ms now none s = s
commit ms now (some q) s = record s {
  paused_accum_ms = s.paused_accum_ms + ms q now;
  pause_start_mono = none;
}

-- The transitions
unfoldable pub advance : Millis → Poll → Timer → Timer
unfolding is_active is_paused commit
advance ms p s =
    let active = is_active p.interp_state in
    let paused = is_paused p in
    if active && not s.active_last
    then record s { start_mono = some p.now; paused_accum_ms = 0; pause_start_mono = none }
    else (if active && (paused && not s.paused_last)
        then record s { pause_start_mono = some p.now }
        else (if active && (not paused && s.paused_last)
            then commit ms p.now s.pause_start_mono s
            else (if not active
                  && (s.active_last && (not (is_some s.pause_start_mono) && is_some s.start_mono))
                then record s { pause_start_mono = some p.now }
                else s)))

-- The time that is reported at `now`, from the marks and the time of the pauses.
unfoldable pub elapsed : Millis → ℕ → ℕ → Option ℕ → Option ℕ → Option ℕ
elapsed ms now pauses none q = none
elapsed ms now pauses (some t) none = some (ms t now - pauses)
elapsed ms now pauses (some t) (some q) = some (ms t q - pauses)

abbrev pub elapsed_at : Millis → ℕ → Timer → Option ℕ
elapsed_at ms now s = elapsed ms now s.paused_accum_ms s.start_mono s.pause_start_mono

unfoldable pub update_program_timer : Millis → Poll → Timer → Option ℕ × Timer
unfolding advance elapsed
update_program_timer ms p s =
    let t = record (advance ms p s) {
      active_last = is_active p.interp_state;
      paused_last = is_paused p;
    } in
    (elapsed_at ms p.now t, t)
