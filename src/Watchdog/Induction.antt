-- ===== src/Watchdog/Induction.antt =====
-- A predicate that the messages and the changes of the client keep is kept by all events.
use lcnc_suite.Base.{
  ◌≡◌, refl, ℕ, Bool, true, false, Option, none, some, List, [], ◌∷◌, if◌then◌else◌,
}
use mathlib.Core.Option.{some-injective}
use lcnc_suite.Watchdog.Loop.{Settings, Watchdog, accept, lose_client}
use lcnc_suite.Watchdog.Events.{
  Fields, Line, blank, malformed, other, message, on_message, on_line, on_lines, Event, new_client,
  received, closed, broken, on_event, on_events,
}

module _ (P : Watchdog → Type 0) (cfg : Settings)
    (accept_keeps : (now : ℕ) (s : Watchdog) → P s → P (accept now s))
    (lose_client_keeps : (now : ℕ) (s : Watchdog) → P s → P (lose_client now s))
    (on_message_keeps : (now : ℕ) (m : Fields) (s t : Watchdog)
      → P s
      → on_message cfg now m s ≡ some t
      → P t) where
  on_line_keeps : (now : ℕ) (l : Line) (s t : Watchdog) → P s → on_line cfg now l s ≡ some t → P t
  unfolding on_line
  on_line_keeps now blank s t h e = rw (← some-injective _ _ e) h
  on_line_keeps now malformed s t h e = rw (← some-injective _ _ e) h
  on_line_keeps now other s t h e = cc
  on_line_keeps now (message m) s t h e = on_message_keeps now m s t h e

  on_lines_keep : (now : ℕ) (ls : List Line) (s : Watchdog) → P s → P (on_lines cfg now ls s)
  unfolding on_lines
  on_lines_keep now [] s h = h
  on_lines_keep now (l ∷ ls) s h = way (on_line cfg now l s) refl (λ t k. on_lines_keep now ls t k)
    where
      way :
          (o : Option Watchdog)
          → on_line cfg now l s ≡ o
          → ((t : Watchdog) → P t → P (on_lines cfg now ls t))
          → P (elim o [ none ↦ lose_client now s | some t ↦ on_lines cfg now ls t ])
      way none e rest = lose_client_keeps now s h
      way (some t) e rest = rest t (on_line_keeps now l s t h e)

  either : (b : Bool) (s t : Watchdog) → P s → P t → P (if b then s else t)
  either true s t h k = h
  either false s t h k = k

  on_event_keeps : (now : ℕ) (e : Event) (s : Watchdog) → P s → P (on_event cfg now e s)
  unfolding on_event
  on_event_keeps now new_client s h = accept_keeps now s h
  on_event_keeps now (received ls) s h = either s.has_client _ s (on_lines_keep now ls s h) h
  on_event_keeps now closed s h = either s.has_client _ s (lose_client_keeps now s h) h
  on_event_keeps now broken s h = either s.has_client _ s (lose_client_keeps now s h) h

  pub on_events_keep : (now : ℕ) (es : List Event) (s : Watchdog) → P s → P (on_events cfg now es s)
  unfolding on_events
  on_events_keep now [] s h = h
  on_events_keep now (e ∷ es) s h =
      on_events_keep now es (on_event cfg now e s) (on_event_keeps now e s h)
