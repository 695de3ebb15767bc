-- ===== src/Link/Pending.antt =====
-- The line from the gateway to the watchdog process while an emergency stop is held.
use lcnc_suite.Base.{
  ◌≡◌, refl, sym, ◌∙◌, ℕ, ◌+◌, ◌<◌, ltb, true, false, Option, none, some, List, [], ◌∷◌, arith,
  if-cases, Bool-cases, All, truthy, inl, inr,
}
use lcnc_suite.Heartbeat.{
  Heart, Event, beats, grace_ticks_on, joins, leaves, stops, resets, send, toggle, beat, grace_tick,
  grace_turn, grace_pass, join,
}
use lcnc_suite.Heartbeat
use lcnc_suite.Heartbeat.Hold.{is_sound, step_sound, Stays, step-IsHeld}
use lcnc_suite.Watchdog.Loop.{Settings, Watchdog}
use lcnc_suite.Watchdog.Events.{
  Line, Tick, new_client, received, closed, on_event, on_events, round,
}
use lcnc_suite.Link
use lcnc_suite.Link.{take, drop, line_of, other_line}
use lcnc_suite.Link.Off.{
  IsOff, accept-IsOff, settle, settle-IsOff, settle-has_client, NoAsk, Quiet, remain, drop-Quiet,
  remain-length, append-Quiet, lines-IsOff, lines-lost,
}

-- Without a client the pins are low.
abbrev pub Guarded : Watchdog → Type 0
Guarded s = s.has_client ≡ false → IsOff s

pub settle-Guarded :
    (cfg : Settings) (k : Tick) (s : Watchdog) → Guarded s → Guarded (settle cfg k s)
settle-Guarded cfg k s g h = settle-IsOff cfg k s (g (sym (settle-has_client cfg k s) ∙ h))

module _ (cfg : Settings) (k : Tick) (s : Watchdog) (guarded : Guarded s) where
  pub read_round-Guarded :
      (ls : List Line) → Guarded (round cfg k.now k.later k.hb_ok (received ls ∷ []) s)
  unfolding round on_events on_event
  read_round-Guarded ls = elim (Bool-cases (settle cfg k s).has_client) [
    | inl here ↦ rw here (lines-lost cfg k.later ls (settle cfg k s) here)
    | inr gone ↦ rw gone (settle-Guarded cfg k s guarded)
  ]

  read_round-IsOff :
      (n count : ℕ) (wire : List Line)
      → Quiet n wire
      → (n ≡ 0 → IsOff s)
      → remain n count ≡ 0
      → IsOff (round cfg k.now k.later k.hb_ok (received (take count wire) ∷ []) s)
  unfolding round on_events on_event
  read_round-IsOff n count wire q o h = elim (Bool-cases (settle cfg k s).has_client) [
    | inl here ↦ rw here (
        lines-IsOff cfg k.later n count wire (settle cfg k s) q (λ z. settle-IsOff cfg k s (o z)) h)
    | inr gone ↦ rw gone (settle-Guarded cfg k s guarded gone)
  ]

pub reconnect_round-IsOff :
    (cfg : Settings) (k : Tick) (s : Watchdog)
    → IsOff (round cfg k.now k.later k.hb_ok (closed ∷ new_client ∷ []) s)
unfolding round on_events on_event
reconnect_round-IsOff cfg k s = accept-IsOff k.later (on_event cfg k.later closed (settle cfg k s))

-- What the gateway adds to its messages
data Adds (before : List Heartbeat.Message) : List Heartbeat.Message → Type 0 where
  nothing : Adds before before
  quiet : (m : Heartbeat.Message) → truthy m.connected ≡ false → Adds before (m ∷ before)

-- The grace period is over once a client is there.
grace_turn-same :
    (g : Option ℕ) (s : Heart) → ltb 0 s.clients ≡ true → (Heartbeat.grace_turn g s).sent ≡ s.sent
unfolding Heartbeat.grace_turn Heartbeat.grace_pass Heartbeat.drop
grace_turn-same none s here = refl
grace_turn-same (some i) s here = ground (arith, here)

-- While a stop is held, no message asks for the connection.
step-Adds :
    (e : Event) (s : Heart)
    → Stays e
    → is_sound s ≡ true
    → s.estop_hold ≡ true
    → Adds s.sent (Heartbeat.step e s).sent
unfolding Heartbeat.step Heartbeat.beat Heartbeat.toggle Heartbeat.send Heartbeat.grace_tick
    Heartbeat.join
step-Adds beats s stays h held =
    let here : ltb 0 s.clients ≡ true = ground (arith, h, held) in
    rw here (quiet _ (ground (arith, held)))
step-Adds grace_ticks_on s stays h held =
    rw (grace_turn-same s.grace s (ground (arith, h, held))) nothing
step-Adds joins s stays h held = nothing
step-Adds leaves s stays h held = absurd (ground (arith, stays))
step-Adds stops s stays h held =
    let here : ltb 0 s.clients ≡ true = ground (arith, h, held) in rw here (quiet _ refl)
step-Adds resets s stays h held = absurd (ground (arith, stays))

new_message-same : (before : List Heartbeat.Message) → Link.new_message before before ≡ none
new_message-same [] = refl
new_message-same (m ∷ ms) = ground arith

pub new_message-first :
    (m : Heartbeat.Message) (before : List Heartbeat.Message)
    → Link.new_message before (m ∷ before) ≡ some m
new_message-first m before = ground arith

-- `n` lines are left up to the one that lets go; `target` counts the lines up to it.
pub record Pending (target : ℕ) (l : Link.Link) : Type 0 where
  pub n : ℕ
  pub quiet_wire : Quiet n l.wire
  pub off : n ≡ 0 → IsOff l.dog
  pub guarded : Guarded l.dog
  pub counted : 0 < n → l.read + n ≡ target
  pub held : l.heart.estop_hold ≡ true
  pub sound : is_sound l.heart ≡ true

abbrev pub StaysMove : Link.Move → Type 0
StaysMove (Link.turns k o e) = Stays e
StaysMove _ = Unit

module _ (cfg : Settings) (target : ℕ) where
  reconnect-Pending :
      (k : Tick) (l : Link.Link) → Pending target l → Pending target (Link.reconnect cfg k l)
  unfolding Link.reconnect
  reconnect-Pending k l p = record {
    n = 0;
    quiet_wire = tt;
    off = λ _. reconnect_round-IsOff cfg k l.dog;
    guarded = λ _. reconnect_round-IsOff cfg k l.dog;
    counted = λ h. absurd (omega (arith, h));
    held = p.held;
    sound = p.sound;
  }

  send-Pending :
      (k : Tick) (o : Link.Outcome) (m : Line) (l : Link.Link)
      → NoAsk m
      → Pending target l
      → Pending target (Link.watchdog_send cfg k o m l)
  unfolding Link.watchdog_send
  send-Pending k Link.sent m l q p = record {
    n = p.n;
    quiet_wire =
        append-Quiet p.n l.wire _ p.quiet_wire (if-cases NoAsk l.torn _ _ (λ _. tt) (λ _. q));
    off = p.off;
    guarded = p.guarded;
    counted = p.counted;
    held = p.held;
    sound = p.sound;
  }
  send-Pending k Link.partly_sent m l q p = record {
    n = p.n;
    quiet_wire = p.quiet_wire;
    off = p.off;
    guarded = p.guarded;
    counted = p.counted;
    held = p.held;
    sound = p.sound;
  }
  send-Pending k Link.timed_out m l q p = p
  send-Pending k Link.failed m l q p = reconnect-Pending k l p

  watch-Pending :
      (k : Tick) (count : ℕ) (l : Link.Link)
      → Pending target l
      → Pending target (Link.watch cfg k count l)
  unfolding Link.watch
  watch-Pending k count l p = record {
    n = remain p.n count;
    quiet_wire = drop-Quiet p.n count l.wire p.quiet_wire;
    off = read_round-IsOff cfg k l.dog p.guarded p.n count l.wire p.quiet_wire p.off;
    guarded = read_round-Guarded cfg k l.dog p.guarded (take count l.wire);
    counted = λ h. omega (arith, remain-length p.n count l.wire p.quiet_wire h, p.counted);
    held = p.held;
    sound = p.sound;
  }

  adds-Pending :
      (k : Tick) (o : Link.Outcome) (l : Link.Link) (before after : List Heartbeat.Message)
      → Adds before after
      → Pending target l
      → Pending target (Link.send_new cfg k o (Link.new_message before after) l)
  unfolding Link.send_new
  adds-Pending k o l before after nothing p = rw (new_message-same before) p
  adds-Pending k o l before after (quiet m h) p =
      rw (new_message-first m before) (send-Pending k o (line_of m) l h p)

  turn-Pending :
      (k : Tick) (o : Link.Outcome) (e : Event) (l : Link.Link)
      → Stays e
      → Pending target l
      → Pending target (Link.gateway cfg k o e l)
  unfolding Link.gateway
  turn-Pending k o e l stays p =
      adds-Pending k o (record l { heart = Heartbeat.step e l.heart }) l.heart.sent
        (Heartbeat.step e l.heart).sent (step-Adds e l.heart stays p.sound p.held)
        (record {
          n = p.n;
          quiet_wire = p.quiet_wire;
          off = p.off;
          guarded = p.guarded;
          counted = p.counted;
          held = (step-IsHeld e l.heart stays p.sound p.held).0;
          sound = step_sound e l.heart p.sound;
        })

  step-Pending :
      (m : Link.Move) (l : Link.Link)
      → StaysMove m
      → Pending target l
      → Pending target (Link.step cfg m l)
  unfolding Link.step
  step-Pending (Link.turns k o e) l stays p = turn-Pending k o e l stays p
  step-Pending (Link.tells k o m) l stays p = send-Pending k o (other_line m) l refl p
  step-Pending (Link.watches k count) l stays p = watch-Pending k count l p

  pub steps-Pending :
      (ms : List Link.Move) (l : Link.Link)
      → All StaysMove ms
      → Pending target l
      → Pending target (Link.steps cfg ms l)
  unfolding Link.steps
  steps-Pending [] l stays p = p
  steps-Pending (m ∷ ms) l stays p =
      steps-Pending ms (Link.step cfg m l) stays.1 (step-Pending m l stays.0 p)
