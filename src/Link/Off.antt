-- ===== src/Link/Off.antt =====
-- The watchdog process after a line that lets go of the connection, until one asks for it again.
use lcnc_suite.Base.{
  ◌≡◌, refl, ◌∙◌, ℕ, zero, suc, ◌+◌, ◌<◌, Bool, true, false, some, List, [], ◌∷◌, ◌++◌, arith,
  if-cases, Option-cases, All, length, truthy, ◌⊎◌, inl, inr,
}
use mathlib.Core.Option.{some-injective}
use lcnc_suite.Watchdog.Loop.{
  Settings, Watchdog, gateway_fresh, keep_alive, let_go, refresh, watch_edge, end_pulse, drop_pins,
  accept, lose_client,
}
use lcnc_suite.Watchdog.Events.{
  Fields, Line, blank, malformed, other, message, on_heartbeat, on_connected, on_pins, on_method,
  on_trip_reset, on_message, on_line, on_lines, Tick,
}
use lcnc_suite.Link.{take, drop}

-- The connection is not asked for, and the pins are low.
pub record IsOff (s : Watchdog) : Type 0 where
  pub asked : s.requested_connected ≡ false
  pub connected : s.pins.connected ≡ false
  pub heartbeat : s.pins.heartbeat ≡ false

lose_client-IsOff : (now : ℕ) (s : Watchdog) → IsOff (lose_client now s)
unfolding lose_client drop_pins
lose_client-IsOff now s = record { asked = refl; connected = refl; heartbeat = refl }

pub accept-IsOff : (now : ℕ) (s : Watchdog) → IsOff (accept now s)
unfolding accept drop_pins
accept-IsOff now s = record { asked = refl; connected = refl; heartbeat = refl }

refresh-IsOff : (cfg : Settings) (now : ℕ) (s : Watchdog) → IsOff s → IsOff (refresh cfg now s)
unfolding refresh gateway_fresh keep_alive let_go
refresh-IsOff cfg now s o = record {
  asked = ground (arith, o.asked);
  connected = ground (arith, o.asked, o.connected);
  heartbeat = ground (arith, o.asked);
}

watch_edge-IsOff : (hb_ok : Bool) (s : Watchdog) → IsOff s → IsOff (watch_edge hb_ok s)
unfolding watch_edge
watch_edge-IsOff hb_ok s o = record {
  asked = o.asked;
  connected = o.connected;
  heartbeat = o.heartbeat;
}

end_pulse-IsOff : (now : ℕ) (s : Watchdog) → IsOff s → IsOff (end_pulse now s)
unfolding end_pulse
end_pulse-IsOff now s o =
    if-cases IsOff _ _ _
      (λ _. record { asked = o.asked; connected = o.connected; heartbeat = o.heartbeat }) (λ _. o)

-- The head of a round, and what follows until the events
abbrev pub settle : Settings → Tick → Watchdog → Watchdog
settle cfg k s = end_pulse k.later (watch_edge k.hb_ok (refresh cfg k.now s))

pub settle-IsOff : (cfg : Settings) (k : Tick) (s : Watchdog) → IsOff s → IsOff (settle cfg k s)
settle-IsOff cfg k s o =
    end_pulse-IsOff k.later _ (watch_edge-IsOff k.hb_ok _ (refresh-IsOff cfg k.now s o))

pub settle-has_client :
    (cfg : Settings) (k : Tick) (s : Watchdog) → (settle cfg k s).has_client ≡ s.has_client
unfolding refresh gateway_fresh keep_alive let_go watch_edge end_pulse
settle-has_client cfg k s = ground arith

-- The line does not ask for the connection.
abbrev pub NoAsk : Line → Type 0
NoAsk (message m) = truthy m.connected ≡ false
NoAsk _ = Unit

abbrev pub LetsGo : Line → Type 0
LetsGo (message m) = m.connected ≡ some false
LetsGo _ = ⊥

-- A line that does not ask for the connection, or lets go of it
message-IsOff :
    (cfg : Settings) (now : ℕ) (m : Fields) (s t : Watchdog)
    → (m.connected ≡ some false) ⊎ ((truthy m.connected ≡ false) × IsOff s)
    → on_message cfg now m s ≡ some t
    → IsOff t
unfolding on_message on_heartbeat on_connected on_pins on_method on_trip_reset
message-IsOff cfg now m s t (inl h) e = record {
  asked = ground (arith, h, e);
  connected = ground (arith, h, e);
  heartbeat = ground (arith, h, e);
}
message-IsOff cfg now m s t (inr (h, o)) e = record {
  asked = ground (arith, h, e, o.asked);
  connected = ground (arith, h, e, o.connected);
  heartbeat = ground (arith, h, e, o.heartbeat);
}

message-has_client :
    (cfg : Settings) (now : ℕ) (m : Fields) (s t : Watchdog)
    → on_message cfg now m s ≡ some t
    → t.has_client ≡ s.has_client
unfolding on_message on_heartbeat on_connected on_pins on_method on_trip_reset
message-has_client cfg now m s t e = ground (arith, e)

-- The lines on the wire: `n` of them are left up to one that lets go, and none after it asks.
abbrev pub Quiet : ℕ → List Line → Type 0
Quiet zero wire = All NoAsk wire
Quiet (suc n) [] = ⊥
Quiet (suc zero) (l ∷ wire) = LetsGo l × All NoAsk wire
Quiet (suc (suc n)) (l ∷ wire) = Quiet (suc n) wire

-- What is left of `n` after `count` lines
abbrev pub remain : ℕ → ℕ → ℕ
remain zero count = zero
remain (suc n) zero = suc n
remain (suc n) (suc count) = remain n count

pub drop-Quiet :
    (n count : ℕ) (wire : List Line) → Quiet n wire → Quiet (remain n count) (drop count wire)
drop-Quiet zero zero wire q = q
drop-Quiet zero (suc count) [] q = tt
drop-Quiet zero (suc count) (l ∷ wire) q = drop-Quiet zero count wire q.1
drop-Quiet (suc n) zero wire q = q
drop-Quiet (suc n) (suc count) [] q = elim q [ ]
drop-Quiet (suc zero) (suc count) (l ∷ wire) q = drop-Quiet zero count wire q.1
drop-Quiet (suc (suc n)) (suc count) (l ∷ wire) q = drop-Quiet (suc n) count wire q

-- As many lines are read as the remainder says, while it is not zero.
pub remain-length :
    (n count : ℕ) (wire : List Line)
    → Quiet n wire
    → 0 < remain n count
    → remain n count + length (take count wire) ≡ n
remain-length zero count wire q h = absurd (omega arith)
remain-length (suc n) zero wire q h = omega arith
remain-length (suc n) (suc count) [] q h = elim q [ ]
remain-length (suc zero) (suc count) (l ∷ wire) q h = absurd (omega arith)
remain-length (suc (suc n)) (suc count) (l ∷ wire) q h =
    omega (arith, remain-length (suc n) count wire q h)

pub append-Quiet :
    (n : ℕ) (wire : List Line) (l : Line) → Quiet n wire → NoAsk l → Quiet n (wire ++ l ∷ [])
append-Quiet zero [] l q h = (h, tt)
append-Quiet zero (k ∷ wire) l q h = (q.0, append-Quiet zero wire l q.1 h)
append-Quiet (suc n) [] l q h = elim q [ ]
append-Quiet (suc zero) (k ∷ wire) l q h = (q.0, append-Quiet zero wire l q.1 h)
append-Quiet (suc (suc n)) (k ∷ wire) l q h = append-Quiet (suc n) wire l q h

-- A wire whose last line lets go
pub last-Quiet :
    (wire : List Line) (l : Line) → LetsGo l → Quiet (suc (length wire)) (wire ++ l ∷ [])
last-Quiet [] l h = (h, tt)
last-Quiet (k ∷ wire) l h = last-Quiet wire l h

module _ (cfg : Settings) (now : ℕ) where
  line-IsOff :
      (l : Line) (s t : Watchdog)
      → LetsGo l ⊎ (NoAsk l × IsOff s)
      → on_line cfg now l s ≡ some t
      → IsOff t
  unfolding on_line
  line-IsOff (message m) s t h e = message-IsOff cfg now m s t h e
  line-IsOff blank s t (inr (h, o)) e = rw (← some-injective _ _ e) o
  line-IsOff malformed s t (inr (h, o)) e = rw (← some-injective _ _ e) o
  line-IsOff other s t (inr (h, o)) e = cc
  line-IsOff blank s t (inl h) e = elim h [ ]
  line-IsOff malformed s t (inl h) e = elim h [ ]
  line-IsOff other s t (inl h) e = elim h [ ]

  line-has_client :
      (l : Line) (s t : Watchdog) → on_line cfg now l s ≡ some t → t.has_client ≡ s.has_client
  unfolding on_line
  line-has_client (message m) s t e = message-has_client cfg now m s t e
  line-has_client blank s t e = rw (some-injective _ _ e) refl
  line-has_client malformed s t e = rw (some-injective _ _ e) refl
  line-has_client other s t e = cc

  -- One line of a read: an exception, or the lines after it
  next_line :
      (P : Watchdog → Type 0) (l : Line) (ls : List Line) (s : Watchdog)
      → P (lose_client now s)
      → ((t : Watchdog) → on_line cfg now l s ≡ some t → P (on_lines cfg now ls t))
      → P (on_lines cfg now (l ∷ ls) s)
  unfolding on_lines
  next_line P l ls s lost rest = elim (Option-cases (on_line cfg now l s)) [
    | inl e ↦ rw (e, on_lines) lost
    | inr (t, e) ↦ rw (e, on_lines) (rest t e)
  ]

  -- The lines of a read that reaches the line which lets go
  pub lines-IsOff :
      (n count : ℕ) (wire : List Line) (s : Watchdog)
      → Quiet n wire
      → (n ≡ 0 → IsOff s)
      → remain n count ≡ 0
      → IsOff (on_lines cfg now (take count wire) s)
  unfolding on_lines
  lines-IsOff zero zero wire s q o h = o refl
  lines-IsOff zero (suc count) [] s q o h = o refl
  lines-IsOff zero (suc count) (l ∷ wire) s q o h =
      next_line IsOff l (take count wire) s (lose_client-IsOff now s) (λ t e.
        lines-IsOff zero count wire t q.1 (λ _. line-IsOff l s t (inr (q.0, o refl)) e) refl)
  lines-IsOff (suc n) zero wire s q o h = absurd (omega (arith, h))
  lines-IsOff (suc n) (suc count) [] s q o h = elim q [ ]
  lines-IsOff (suc zero) (suc count) (l ∷ wire) s q o h =
      next_line IsOff l (take count wire) s (lose_client-IsOff now s)
        (λ t e. lines-IsOff zero count wire t q.1 (λ _. line-IsOff l s t (inl q.0) e) refl)
  lines-IsOff (suc (suc n)) (suc count) (l ∷ wire) s q o h =
      next_line IsOff l (take count wire) s (lose_client-IsOff now s)
        (λ t e. lines-IsOff (suc n) count wire t q (λ z. absurd (omega (arith, z))) h)

  -- A client that is lost leaves the pins low.
  pub lines-lost :
      (ls : List Line) (s : Watchdog)
      → s.has_client ≡ true
      → (on_lines cfg now ls s).has_client ≡ false
      → IsOff (on_lines cfg now ls s)
  unfolding on_lines
  lines-lost [] s h = λ lost. cc
  lines-lost (l ∷ ls) s h =
      next_line (λ t. t.has_client ≡ false → IsOff t) l ls s (λ _. lose_client-IsOff now s)
        (λ t e. lines-lost ls t (line-has_client l s t e ∙ h))
